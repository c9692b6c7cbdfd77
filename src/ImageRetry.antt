-- ===== src/ImageRetry.antt =====
-- The queue of images whose first submission to moderation failed:
-- internal/repository/image_moderation_retry.go and internal/service/image_moderation_retry_worker.go.
pub mod Queue
pub mod Worker
pub mod Checks
pub mod Batches
mod Tests
