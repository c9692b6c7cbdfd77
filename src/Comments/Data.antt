-- ===== src/Comments/Data.antt =====
-- The tables of comments: internal/model/comment.go, internal/model/notification.go and the columns of
-- posts that comments read. Times are numbers of nanoseconds, and a table is the list of its rows.
use danshi_backend.Base.{Option, ℕ, String, List}
use danshi_backend.Accounts.Data.{User}
use danshi_backend.Moderation.Data.{Verdict, ModerationStatus, PostStatus}

-- `DeleteReason`.
pub data DeleteReason : Type 0 where
  by_author by_admin by_moderation : DeleteReason

-- `Comment`; its counter of replies is kept by the database.
pub record Comment : Type 0 where
  pub id : ℕ
  pub post_id : ℕ
  pub author_id : ℕ
  pub parent_id : Option ℕ
  pub root_id : Option ℕ
  pub reply_to_user_id : ℕ
  pub content : String
  pub current_revision : ℕ
  pub moderation : ModerationStatus
  pub reply_count : ℕ
  pub deleted_at : Option ℕ
  pub deleted_reason : Option DeleteReason
  pub deleted_by : Option ℕ
  pub created_at : ℕ
  pub updated_at : ℕ

pub record CommentMention : Type 0 where
  pub comment_id : ℕ
  pub user_id : ℕ

pub record CommentLike : Type 0 where
  pub user_id : ℕ
  pub comment_id : ℕ

pub record CommentHistory : Type 0 where
  pub comment_id : ℕ
  pub revision : ℕ
  pub edited_by : ℕ
  pub edited_at : ℕ
  pub content : String

-- `NotificationType`, those that comments send.
pub data NoticeType : Type 0 where
  like_comment_notice comment_notice reply_notice mention_notice : NoticeType

pub record Notification : Type 0 where
  pub recipient_id : ℕ
  pub sender_id : ℕ
  pub type : NoticeType
  pub related_post_id : Option ℕ
  pub related_comment_id : Option ℕ
  pub content : Option String

-- A post, as comments see it.
pub record CommentedPost : Type 0 where
  pub id : ℕ
  pub author_id : ℕ
  pub status : PostStatus
  pub deleted_at : Option ℕ
  pub comment_count : ℕ

-- A provider's verdict on a text (`ModerationResult`).
pub record TextVerdict : Type 0 where
  pub provider : String
  pub provider_job_id : Option String
  pub verdict : Verdict
  pub labels : List String

-- `ModerationRecord`, the row of a comment's text.
pub record CommentReview : Type 0 where
  pub comment_id : ℕ
  pub content_revision : ℕ
  pub result : TextVerdict
  pub created_at : ℕ

-- The tables, and the alerts that were raised.
pub record Discussion : Type 0 where
  pub posts : List CommentedPost
  pub users : List User
  pub comments : List Comment
  pub mentions : List CommentMention
  pub likes : List CommentLike
  pub histories : List CommentHistory
  pub reviews : List CommentReview
  pub notifications : List Notification
  pub alerts : List CommentReview
  pub next_id : ℕ
