-- ===== src/Alerts.antt =====
-- Moderation alerts: internal/service/moderation_alerting.go.
pub mod Monitor
pub mod Windows
pub mod Backlog
pub mod Cooldown
mod Tests
