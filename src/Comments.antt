-- ===== src/Comments.antt =====
-- Comments: internal/service/comment_write.go, the actions of internal/service/comment.go and of
-- internal/service/admin_content.go, the statements of internal/repository/comment.go, and the counters
-- that the database keeps by a trigger (migrations/00009_comment_visibility.sql).
pub mod Data
pub mod Counters
pub mod Statements
pub mod Payload
pub mod Notices
pub mod Write
pub mod Actions
pub mod Sums
pub mod Floors
pub mod Places
pub mod Counted
pub mod Replies
pub mod Tallies
pub mod Insertion
pub mod Standing
pub mod Histories
pub mod Survival
pub mod Upheld
pub mod Versions
pub mod Recorded
pub mod Archive
mod Tests
