-- ===== src/Moderation.antt =====
-- Moderation of posts and images: internal/service/moderation_callback.go, the aggregation of
-- internal/service/post_write.go, and the statements of internal/repository/moderation.go.
pub mod Data
pub mod Aggregate
pub mod Repository
pub mod Callback
pub mod Review
pub mod ReviewPost
pub mod Histories
pub mod Audit
pub mod Reconcile
pub mod Validation
pub mod Effects
pub mod Acceptance
pub mod Duplicates
pub mod Desires
pub mod Agreement
mod Tests
mod ReviewTests
