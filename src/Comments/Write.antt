-- ===== src/Comments/Write.antt =====
-- The writers of internal/service/comment_write.go: a result or an error, and where it is an error the
-- request's transaction is rolled back.
use danshi_backend.Base.{
  ◌==◌, if◌then◌else◌, is_some, is_blank, Result, ◌>>=◌, ◌>>◌, ok, ℕ, Option, [], true, List, some,
  String, Bool, ◌||◌, not, none, false, ◌∷◌, ◌++◌,
}
use danshi_backend.Comments.Counters.{has_passed, find_comment}
use danshi_backend.Comments.Data.{
  DeleteReason, Comment, CommentHistory, Notification, TextVerdict, CommentReview, Discussion,
  by_author, by_moderation,
}
use danshi_backend.Comments.Notices.{mention_notifications, create_comment_notifications}
use danshi_backend.Comments.Payload.{
  CommentError, CreateCommentInput, the, require, difference_ids, normalize_comment_payload,
  ensure_post_writable, Place, resolve_comment_parent, post_missing, post_gone, comment_missing,
  comment_gone, not_comment_owner, comment_internal,
}
use danshi_backend.Comments.Statements.{
  update_content, apply_moderation, soft_delete, next_history_revision, create_history,
  replace_mentions, mention_ids, create_review, create_notifications, create_row, find_commented,
}
use danshi_backend.Moderation.Data.{
  Verdict, ModerationStatus, is_verdict_pass, verdict_pass, verdict_review, verdict_block,
  other_verdict, moderation_pending, moderation_pass, moderation_review, moderation_block,
}

-- `ModerationStatus` of a verdict; `validateModerationResult` refuses the texts that are none.
abbrev pub status_of_verdict : Verdict → Option ModerationStatus
status_of_verdict verdict_pass = some moderation_pass
status_of_verdict verdict_review = some moderation_review
status_of_verdict verdict_block = some moderation_block
status_of_verdict (other_verdict text) = none

abbrev pub review_of : ℕ → ℕ → TextVerdict → ℕ → CommentReview
review_of id revision r now = record {
  comment_id = id;
  content_revision = revision;
  result = r;
  created_at = now;
}

abbrev pub alert_unless_passed : CommentReview → Discussion → Discussion
alert_unless_passed r s =
    if is_verdict_pass r.result.verdict then s else record s { alerts = s.alerts ++ (r ∷ []) }

-- `moderateComment`; `review` is the provider, with `none` for an error.
unfoldable pub moderate_comment :
    (String → Option TextVerdict)
    → ℕ
    → ℕ
    → String
    → ℕ
    → Discussion
    → Result CommentError (ModerationStatus × Discussion)
moderate_comment review id revision content now s = do
  r ← the (review content) comment_internal
  require (not (is_blank r.provider)) comment_internal
  status ← the (status_of_verdict r.verdict) comment_internal
  s' ←
      the
        (apply_moderation id status now (
          alert_unless_passed (review_of id revision r now)
            (create_review (review_of id revision r now) s)))
        comment_missing
  ok (status, s')

abbrev pub notify_if_passed : ModerationStatus → List Notification → Discussion → Discussion
notify_if_passed m rows s = if has_passed m then create_notifications rows s else s

abbrev pub new_comment : ℕ → ℕ → ℕ → Option ℕ → Place → String → ℕ → Comment
new_comment id post_id author parent_id place content now = record {
  id = id;
  post_id = post_id;
  author_id = author;
  parent_id = parent_id;
  root_id = place.root;
  reply_to_user_id = place.reply_to;
  content = content;
  current_revision = 1;
  moderation = moderation_pending;
  reply_count = 0;
  deleted_at = none;
  deleted_reason = none;
  deleted_by = none;
  created_at = now;
  updated_at = now;
}

abbrev pub history_of : ℕ → ℕ → ℕ → ℕ → String → CommentHistory
history_of id revision author now content = record {
  comment_id = id;
  revision = revision;
  edited_by = author;
  edited_at = now;
  content = content;
}

-- The row with its mentions and its first version.
abbrev pub insert_comment : Comment → List ℕ → Discussion → Discussion
insert_comment c ids s =
    create_history (history_of c.id 1 c.author_id c.created_at c.content)
      (replace_mentions c.id ids (create_row c s))

-- `Create`; `later` is the time of the verdict.
unfoldable pub create_comment :
    (String → Option TextVerdict)
    → ℕ
    → CreateCommentInput
    → ℕ
    → ℕ
    → ℕ
    → Discussion
    → Result CommentError Discussion
unfolding normalize_comment_payload moderate_comment
create_comment review post_id input author now later s = do
  payload ← normalize_comment_payload input.content input.mentioned_user_ids s
  post ← the (find_commented post_id s.posts) post_missing
  ensure_post_writable post
  place ← resolve_comment_parent post_id post.author_id input.parent_id input.reply_to_user_id s
  let c = new_comment s.next_id post_id author input.parent_id place payload.0 now in
      do
        judged ← moderate_comment review c.id 1 payload.0 later (insert_comment c payload.1 s)
        ok (
            notify_if_passed judged.0
              (create_comment_notifications c place.parent post.author_id payload.1) judged.1)

pub record UpdateCommentInput : Type 0 where
  pub content : String
  pub mentioned_user_ids : List ℕ

abbrev pub is_deleted_by_moderation : Option DeleteReason → Bool
is_deleted_by_moderation (some by_moderation) = true
is_deleted_by_moderation _ = false

-- The comment of an edit, its mentions and its next version.
abbrev pub rewrite_comment : ℕ → String → List ℕ → ℕ → ℕ → Discussion → Option Discussion
rewrite_comment id content ids author now s =
    let revision = next_history_revision id s in
    elim (update_content id content revision now s) [
      | none ↦ none
      | some s' ↦
          some (
            create_history (history_of id revision author now content) (replace_mentions id ids s'))
    ]

-- `Update`.
unfoldable pub update_comment_text :
    (String → Option TextVerdict)
    → ℕ
    → UpdateCommentInput
    → ℕ
    → ℕ
    → ℕ
    → Discussion
    → Result CommentError Discussion
unfolding normalize_comment_payload moderate_comment update_content
update_comment_text review id input author now later s = do
  payload ← normalize_comment_payload input.content input.mentioned_user_ids s
  c ← the (find_comment id s.comments) comment_missing
  require (c.author_id == author) not_comment_owner
  require (not (is_some c.deleted_at) || is_deleted_by_moderation c.deleted_reason) comment_gone
  post ← the (find_commented c.post_id s.posts) post_missing
  require (not (is_some post.deleted_at)) post_gone
  s' ← the (rewrite_comment id payload.0 payload.1 author now s) comment_missing
  judged ← moderate_comment review id (next_history_revision id s) payload.0 later s'
  ok (
      notify_if_passed judged.0
        (mention_notifications id author payload.0 (difference_ids payload.1 (mention_ids id s)))
        judged.1)

-- `Delete`: by the author alone.
unfoldable pub delete_comment : ℕ → ℕ → ℕ → Discussion → Result CommentError Discussion
unfolding soft_delete
delete_comment id author now s = do
  c ← the (find_comment id s.comments) comment_missing
  require (not (is_some c.deleted_at)) comment_gone
  require (c.author_id == author) not_comment_owner
  post ← the (find_commented c.post_id s.posts) post_missing
  require (not (is_some post.deleted_at)) post_gone
  the (soft_delete id by_author (some author) now s) comment_missing
