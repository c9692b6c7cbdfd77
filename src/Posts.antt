-- ===== src/Posts.antt =====
-- Writing posts: internal/service/post_write.go.
pub mod Images
pub mod Accepted
mod Tests
