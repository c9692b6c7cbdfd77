-- ===== src/Accounts.antt =====
-- Accounts: internal/service/auth.go, internal/service/auth_validation.go,
-- internal/service/admin_users.go, internal/service/email_delivery.go, the statements of
-- internal/repository that they run, and internal/model/user.go.
pub mod Data
pub mod Requests
pub mod Externals
pub mod Validation
pub mod Codes
pub mod Attempts
pub mod Senders
pub mod Sessions
pub mod Rate
pub mod Tokens
pub mod Auth
pub mod Register
pub mod Administration
pub mod Deliveries
pub mod Sending
pub mod Retries
pub mod Rounds
pub mod Rests
pub mod History
pub mod Revocation
pub mod Revoked
pub mod Shutout
pub mod Bans
pub mod Guards
pub mod Secrecy
pub mod Mailed
pub mod Readable
mod Samples
mod Tests
