-- ===== src/Comments/Counters.antt =====
-- The trigger that keeps the counters of comments (`danshi_sync_comment_counts` of
-- migrations/00009_comment_visibility.sql): a comment counts while it is not deleted and has passed
-- moderation; a floor, that is a root comment with its replies, counts for its post while its root does.
use danshi_backend.Base.{
  ◌==◌, if◌then◌else◌, is_some, find_first, update_rows, ℕ, List, none, Option, ◌+◌, some, false,
  ◌-◌, ◌&&◌, Bool, true, not,
}
use danshi_backend.Comments.Data.{Comment, CommentedPost, Discussion}
use danshi_backend.Moderation.Data.{ModerationStatus, moderation_pass}

abbrev pub has_passed : ModerationStatus → Bool
has_passed moderation_pass = true
has_passed _ = false

abbrev pub is_active : Comment → Bool
is_active c = not (is_some c.deleted_at) && has_passed c.moderation

abbrev pub find_comment : ℕ → List Comment → Option Comment
find_comment id cs = find_first (λ (c : Comment). c.id == id) cs

-- `GREATEST(n + delta, 0)` for the delta that the change of a row makes: up where it comes to count.
abbrev pub shifted : Bool → ℕ → ℕ → ℕ
shifted up by n = if up then n + by else n - by

abbrev pub shift_comment_count : Bool → ℕ → ℕ → List CommentedPost → List CommentedPost
shift_comment_count up by post_id ps =
    update_rows (λ (p : CommentedPost). p.id == post_id)
      (λ p. record p { comment_count = shifted up by p.comment_count }) ps

abbrev pub shift_reply_count : Bool → ℕ → List Comment → List Comment
shift_reply_count up root_id cs =
    update_rows (λ (c : Comment). c.id == root_id)
      (λ c. record c { reply_count = shifted up 1 c.reply_count }) cs

abbrev pub is_active_root : Option Comment → Bool
is_active_root none = false
is_active_root (some root) = is_active root

-- What the trigger does with the row `c`, which comes to count (`up`) or ceases to.
abbrev pub count_row : Bool → Comment → Option ℕ → Discussion → Discussion
count_row up c none s = record s {
  posts = shift_comment_count up (1 + c.reply_count) c.post_id s.posts;
}
count_row up c (some root) s = record s {
  comments = shift_reply_count up root s.comments;
  posts =
      if is_active_root (find_comment root (shift_reply_count up root s.comments))
      then shift_comment_count up 1 c.post_id s.posts
      else s.posts;
}

-- The trigger on a row that was `old` and is `new_row`.
unfoldable pub sync_counts : Comment → Comment → Discussion → Discussion
sync_counts old new_row s =
    if is_active old
    then if is_active new_row then s else count_row false new_row new_row.root_id s
    else if is_active new_row
    then count_row true new_row new_row.root_id s
    else s
