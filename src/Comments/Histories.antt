-- ===== src/Comments/Histories.antt =====
-- A history of requests on comments: each is handled in a transaction of its own, and changes nothing
-- where it fails.
use danshi_backend.Base.{Result, ok, err, List, ℕ, ◌∷◌, [], Option, String}
use danshi_backend.Comments.Actions.{like, unlike, admin_delete_comment, restore_comment}
use danshi_backend.Comments.Data.{TextVerdict, Discussion}
use danshi_backend.Comments.Payload.{CommentError, CreateCommentInput}
use danshi_backend.Comments.Write.{
  create_comment, UpdateCommentInput, update_comment_text, delete_comment,
}

pub data CommentAction : Type 0 where
  write_comment :
      (review : String → Option TextVerdict) (post_id : ℕ) (input : CreateCommentInput)
      (author now_t later : ℕ)
      → CommentAction
  edit_comment :
      (review : String → Option TextVerdict) (comment : ℕ) (input : UpdateCommentInput)
      (author now_t later : ℕ)
      → CommentAction
  remove_comment : (comment author now_t : ℕ) → CommentAction
  like_it : (comment user : ℕ) → CommentAction
  unlike_it : (comment user : ℕ) → CommentAction
  remove_as_admin : (comment actor now_t : ℕ) → CommentAction
  restore_as_admin : (comment now_t : ℕ) → CommentAction

abbrev pub answer : CommentAction → Discussion → Result CommentError Discussion
answer (write_comment review post_id input author now_t later) s =
    create_comment review post_id input author now_t later s
answer (edit_comment review comment input author now_t later) s =
    update_comment_text review comment input author now_t later s
answer (remove_comment comment author now_t) s = delete_comment comment author now_t s
answer (like_it comment user) s = like comment user s
answer (unlike_it comment user) s = unlike comment user s
answer (remove_as_admin comment actor now_t) s = admin_delete_comment comment actor now_t s
answer (restore_as_admin comment now_t) s = restore_comment comment now_t s

abbrev pub kept_or : Discussion → Result CommentError Discussion → Discussion
kept_or s (ok s') = s'
kept_or s (err e) = s

abbrev pub run_actions : List CommentAction → Discussion → Discussion
run_actions [] s = s
run_actions (a ∷ as') s = run_actions as' (kept_or s (answer a s))
