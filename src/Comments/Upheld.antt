-- ===== src/Comments/Upheld.antt =====
-- Places and counters of comments in histories of requests (internal/service/comment_write.go,
-- internal/service/comment.go and internal/service/admin_content.go).
use danshi_backend.Base.{
  Bool-cases, Option-cases, is_some, if_rule, ℕ, refl, ◌≡◌, inl, Option, subst, inr, List, some,
  ◌&&◌, String,
}
use danshi_backend.Comments.Actions.{with_restoration}
use danshi_backend.Comments.Counted.{IsCounted}
use danshi_backend.Comments.Counters.{find_comment}
use danshi_backend.Comments.Data.{DeleteReason, Comment, Discussion}
use danshi_backend.Comments.Histories.{CommentAction, run_actions}
use danshi_backend.Comments.Insertion.{append-IsCounted}
use danshi_backend.Comments.Places.{placement}
use danshi_backend.Comments.Standing.{resolve_comment_parent-is_placed}
use danshi_backend.Comments.Statements.{
  update_comment, with_content, update_content, with_moderation, apply_moderation, with_deletion,
  soft_delete, next_history_revision, create_history, replace_mentions,
}
use danshi_backend.Comments.Survival.{Survives, run_actions_survives}
use danshi_backend.Comments.Tallies.{update_comment-IsCounted}
use danshi_backend.Comments.Write.{
  new_comment, history_of, is_deleted_by_moderation, rewrite_comment,
}
use danshi_backend.Moderation.Data.{ModerationStatus}

-- The statements on one comment.
update_content-IsCounted :
    (id revision now : ℕ) (content : String) (s s' : Discussion)
    → update_content id content revision now s ≡ some s'
    → IsCounted s
    → IsCounted s'
unfolding update_content
update_content-IsCounted id revision now content s s' e h =
    update_comment-IsCounted (with_content content revision now) id s s'
      (record { place = λ c. refl; counter = λ c. refl }) e h

apply_moderation-IsCounted :
    (id : ℕ) (m : ModerationStatus) (now : ℕ) (s s' : Discussion)
    → apply_moderation id m now s ≡ some s'
    → IsCounted s
    → IsCounted s'
unfolding apply_moderation
apply_moderation-IsCounted id m now s s' e h =
    update_comment-IsCounted (with_moderation m now) id s s'
      (record { place = λ c. refl; counter = λ c. refl }) e h

soft_delete-IsCounted :
    (id : ℕ) (reason : DeleteReason) (actor : Option ℕ) (now : ℕ) (s s' : Discussion)
    → soft_delete id reason actor now s ≡ some s'
    → IsCounted s
    → IsCounted s'
unfolding soft_delete
soft_delete-IsCounted id reason actor now s s' e h =
    elim (Option-cases (find_comment id s.comments)) [
      | inl miss ↦ cc (rw (soft_delete, miss) at e)
      | inr (c, there) ↦ elim (Bool-cases (is_some c.deleted_at)) [
        | inl gone ↦ cc (rw (soft_delete, there, gone) at e)
        | inr present ↦
            update_comment-IsCounted (with_deletion reason actor now) id s s'
              (record {
                place = λ d.
                    if_rule (λ (x : Comment). placement x ≡ placement d) (is_some d.deleted_at)
                      (λ _. refl) (λ _. refl);
                counter = λ d.
                    if_rule (λ (x : Comment). x.reply_count ≡ d.reply_count) (is_some d.deleted_at)
                      (λ _. refl) (λ _. refl);
              })
              (rw (soft_delete, there, present) at e) h
      ]
    ]

rewrite_comment-IsCounted :
    (id : ℕ) (content : String) (ids : List ℕ) (author now : ℕ) (s s' : Discussion)
    → rewrite_comment id content ids author now s ≡ some s'
    → IsCounted s
    → IsCounted s'
rewrite_comment-IsCounted id content ids author now s s' e h =
    let revision = next_history_revision id s in
    elim (Option-cases (update_content id content revision now s)) [
      | inl miss ↦ cc (rw (rewrite_comment, miss) at e)
      | inr (s1, there) ↦
          let left : create_history (history_of id revision author now content)
                (replace_mentions id ids s1)
              ≡ s' =
            cc (rw (rewrite_comment, there) at e) in
          subst IsCounted left (update_content-IsCounted id revision now content s s1 there h)
    ]

restore-IsCounted :
    (id : ℕ) (s s' : Discussion)
    → update_comment with_restoration id s ≡ some s'
    → IsCounted s
    → IsCounted s'
restore-IsCounted id s s' e h =
    update_comment-IsCounted with_restoration id s s'
      (record {
        place = λ d.
            if_rule (λ (x : Comment). placement x ≡ placement d)
              (is_some d.deleted_at && is_deleted_by_moderation d.deleted_reason) (λ _. refl)
              (λ _. refl);
        counter = λ d.
            if_rule (λ (x : Comment). x.reply_count ≡ d.reply_count)
              (is_some d.deleted_at && is_deleted_by_moderation d.deleted_reason) (λ _. refl)
              (λ _. refl);
      })
      e h

IsCounted-survives : Survives IsCounted
IsCounted-survives = record {
  inserts = λ s post_id post_author author parent_id reply_to place content ids now stands h.
      append-IsCounted s.comments s.posts s.next_id
        (new_comment s.next_id post_id author parent_id place content now) refl refl refl
        (resolve_comment_parent-is_placed s s.next_id post_id post_author author parent_id reply_to
          content now place h.places stands)
        h;
  rewrites = rewrite_comment-IsCounted;
  moderates = apply_moderation-IsCounted;
  deletes = soft_delete-IsCounted;
  restores = restore-IsCounted;
  reviews_free = λ s rs h. h;
  alerts_free = λ s rs h. h;
  notices_free = λ s ns h. h;
  likes_free = λ s ls h. h;
}

-- Through every history of requests on comments (writing, editing, deleting, liking, and an
-- administrator's deletions and restorations), whatever the provider says of each text: keys stay
-- unique; every reply stands on the floor of a root comment of its post and answers the author of a
-- comment on that floor; every root comment's counter is the number of its replies that are shown; and
-- every post's counter is the number of its comments that are shown, counted anew floor by floor.
pub run_actions-IsCounted :
    (as' : List CommentAction) (s : Discussion) → IsCounted s → IsCounted (run_actions as' s)
run_actions-IsCounted as' s h = run_actions_survives IsCounted IsCounted-survives as' s h
