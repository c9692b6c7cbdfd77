-- ===== src/Comments/Actions.antt =====
-- What else is done to comments: likes (internal/service/comment.go), and an administrator's deletion
-- and restoration (internal/service/admin_content.go).
use danshi_backend.Base.{
  ◌==◌, if◌then◌else◌, is_some, Result, ◌>>=◌, ◌>>◌, ok, ◌&&◌, ◌∷◌, ℕ, Option, not, [], some, Bool,
  none,
}
use danshi_backend.Comments.Counters.{is_active, find_comment}
use danshi_backend.Comments.Data.{
  Comment, Notification, TextVerdict, Discussion, by_admin, like_comment_notice,
}
use danshi_backend.Comments.Payload.{
  CommentError, the, require, is_published, post_missing, post_unpublished, comment_missing,
  comment_gone, not_restorable,
}
use danshi_backend.Comments.Statements.{
  update_comment, soft_delete, create_review, create_notifications, insert_like, delete_like,
  find_commented,
}
use danshi_backend.Comments.Write.{review_of, is_deleted_by_moderation}
use danshi_backend.Moderation.Data.{verdict_pass, moderation_pass}

-- The root of a reply, which must be shown.
abbrev pub require_root : Option ℕ → Discussion → Result CommentError (Unit {0})
require_root none s = ok tt
require_root (some root_id) s = do
  root ← the (find_comment root_id s.comments) comment_missing
  require (is_active root) comment_missing

-- `interactiveComment`.
abbrev pub interactive_comment : ℕ → Discussion → Result CommentError Comment
interactive_comment id s = do
  c ← the (find_comment id s.comments) comment_missing
  require (is_active c) comment_missing
  require_root c.root_id s
  post ← the (find_commented c.post_id s.posts) post_missing
  require (not (is_some post.deleted_at) && is_published post.status) post_unpublished
  ok c

abbrev pub like_notification : Comment → ℕ → Notification
like_notification c user = record {
  recipient_id = c.author_id;
  sender_id = user;
  type = like_comment_notice;
  related_post_id = none;
  related_comment_id = some c.id;
  content = none;
}

abbrev pub notify_like : Comment → ℕ → Bool → Discussion → Discussion
notify_like c user created s =
    if created && not (c.author_id == user)
    then create_notifications (like_notification c user ∷ []) s
    else s

-- `Like`.
unfoldable pub like : ℕ → ℕ → Discussion → Result CommentError Discussion
like id user s = do
  c ← interactive_comment id s
  let liked = insert_like user id s in ok (notify_like c user liked.0 liked.1)

-- `Unlike`.
unfoldable pub unlike : ℕ → ℕ → Discussion → Result CommentError Discussion
unlike id user s = do c ← interactive_comment id s; ok (delete_like user id s)

-- `DeleteComment`.
unfoldable pub admin_delete_comment : ℕ → ℕ → ℕ → Discussion → Result CommentError Discussion
unfolding soft_delete
admin_delete_comment id actor now s = do
  c ← the (find_comment id s.comments) comment_missing
  require (not (is_some c.deleted_at)) comment_gone
  the (soft_delete id by_admin (some actor) now s) comment_missing

-- The columns that the statement `RestoreComment` writes, of a row that moderation has deleted.
abbrev pub with_restoration : Comment → Comment
with_restoration c =
    if is_some c.deleted_at && is_deleted_by_moderation c.deleted_reason
    then record c {
      moderation = moderation_pass;
      deleted_at = none;
      deleted_reason = none;
      deleted_by = none;
    }
    else c

-- The verdict that a restoration records.
abbrev pub restoration : TextVerdict
restoration = record {
  provider = "admin_restore";
  provider_job_id = none;
  verdict = verdict_pass;
  labels = [];
}

-- `RestoreComment`: only what moderation has deleted comes back.
unfoldable pub restore_comment : ℕ → ℕ → Discussion → Result CommentError Discussion
unfolding update_comment
restore_comment id now s = do
  c ← the (find_comment id s.comments) comment_missing
  require (is_some c.deleted_at && is_deleted_by_moderation c.deleted_reason) not_restorable
  the
      (update_comment with_restoration id
        (create_review (review_of id c.current_revision restoration now) s))
      comment_missing
