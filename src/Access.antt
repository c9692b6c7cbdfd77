-- ===== src/Access.antt =====
-- Roles and capabilities: internal/authz/authz.go.
pub mod Authz
pub mod Grants
mod Tests
