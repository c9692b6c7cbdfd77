-- ===== src/ImageAccess.antt =====
-- The durable outbox that brings object ACLs and CDN caches in line with moderation verdicts:
-- internal/model/image_access.go, internal/repository/image_access.go,
-- internal/service/image_access_worker.go and internal/service/image_access_controller.go.
pub mod Delivery
pub mod Outbox
pub mod Backoff
pub mod Options
pub mod Ports
pub mod Checks
pub mod Tables
pub mod Keys
pub mod Leases
mod Tests
pub mod Submissions
pub mod Fencing
pub mod Completeness
pub mod Handover
pub mod Worker
