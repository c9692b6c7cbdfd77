-- ===== src/Comments/Archive.antt =====
-- The versions of comments in histories of requests (internal/service/comment_write.go).
use danshi_backend.Base.{
  if◌then◌else◌, Bool-cases, Option-cases, is_some, if_rule, List, none, ◌&&◌, inr, Bool, ◌≡◌, inl,
  refl, ℕ, some, Option,
}
use danshi_backend.Comments.Actions.{with_restoration}
use danshi_backend.Comments.Counters.{find_comment}
use danshi_backend.Comments.Data.{DeleteReason, Comment, Discussion}
use danshi_backend.Comments.Histories.{CommentAction, run_actions}
use danshi_backend.Comments.Recorded.{insert-IsRecorded, rewrite_comment-IsRecorded}
use danshi_backend.Comments.Statements.{
  update_comment, with_moderation, apply_moderation, with_deletion, soft_delete,
}
use danshi_backend.Comments.Survival.{Survives, run_actions_survives}
use danshi_backend.Comments.Versions.{IsRecorded, KeepsText, update_comment-IsRecorded}
use danshi_backend.Comments.Write.{is_deleted_by_moderation}
use danshi_backend.Moderation.Data.{ModerationStatus, moderation_pass}

moderation-IsRecorded :
    (id : ℕ) (m : ModerationStatus) (now : ℕ) (s s' : Discussion)
    → apply_moderation id m now s ≡ some s'
    → IsRecorded s
    → IsRecorded s'
unfolding apply_moderation
moderation-IsRecorded id m now s s' e h =
    update_comment-IsRecorded (with_moderation m now) id s s'
      (record { key = λ c. refl; revision = λ c. refl; text = λ c. refl }) e h

-- An UPDATE that is made under a condition keeps what both of its cases keep.
when-KeepsText :
    (p : Comment → Bool) (u v : Comment → Comment)
    → KeepsText u
    → KeepsText v
    → KeepsText (λ c. if p c then u c else v c)
when-KeepsText p u v k l = record {
  key = λ c. if_rule (λ (x : Comment). x.id ≡ c.id) (p c) (λ _. k.key c) (λ _. l.key c);
  revision = λ c.
      if_rule (λ (x : Comment). x.current_revision ≡ c.current_revision) (p c) (λ _. k.revision c)
        (λ _. l.revision c);
  text =
      λ c. if_rule (λ (x : Comment). x.content ≡ c.content) (p c) (λ _. k.text c) (λ _. l.text c);
}

keeps_itself : KeepsText (λ c. c)
keeps_itself = record { key = λ c. refl; revision = λ c. refl; text = λ c. refl }

deletion-IsRecorded :
    (id : ℕ) (reason : DeleteReason) (actor : Option ℕ) (now : ℕ) (s s' : Discussion)
    → soft_delete id reason actor now s ≡ some s'
    → IsRecorded s
    → IsRecorded s'
unfolding soft_delete
deletion-IsRecorded id reason actor now s s' e h =
    elim (Option-cases (find_comment id s.comments)) [
      | inl miss ↦ cc (rw (soft_delete, miss) at e)
      | inr (c, there) ↦ elim (Bool-cases (is_some c.deleted_at)) [
        | inl gone ↦ cc (rw (soft_delete, there, gone) at e)
        | inr present ↦
            update_comment-IsRecorded (with_deletion reason actor now) id s s'
              (when-KeepsText (λ d. is_some d.deleted_at) (λ d. d)
                (λ d. record d {
                  deleted_at = some now;
                  deleted_reason = some reason;
                  deleted_by = actor;
                })
                keeps_itself (record { key = λ d. refl; revision = λ d. refl; text = λ d. refl }))
              (rw (soft_delete, there, present) at e) h
      ]
    ]

restoration-IsRecorded :
    (id : ℕ) (s s' : Discussion)
    → update_comment with_restoration id s ≡ some s'
    → IsRecorded s
    → IsRecorded s'
restoration-IsRecorded id s s' e h =
    update_comment-IsRecorded with_restoration id s s'
      (when-KeepsText (λ c. is_some c.deleted_at && is_deleted_by_moderation c.deleted_reason)
        (λ c. record c {
          moderation = moderation_pass;
          deleted_at = none;
          deleted_reason = none;
          deleted_by = none;
        })
        (λ c. c) (record { key = λ c. refl; revision = λ c. refl; text = λ c. refl }) keeps_itself)
      e h

IsRecorded-survives : Survives IsRecorded
IsRecorded-survives = record {
  inserts = λ s post_id post_author author parent_id reply_to place content ids now stands h.
      insert-IsRecorded s post_id author parent_id place content ids now h;
  rewrites = rewrite_comment-IsRecorded;
  moderates = moderation-IsRecorded;
  deletes = deletion-IsRecorded;
  restores = restoration-IsRecorded;
  reviews_free = λ s rs h. h;
  alerts_free = λ s rs h. h;
  notices_free = λ s ns h. h;
  likes_free = λ s ls h. h;
}

-- Through every history of requests on comments, the last version in a comment's history has the
-- comment's text and its current revision.
pub run_actions-IsRecorded :
    (as' : List CommentAction) (s : Discussion) → IsRecorded s → IsRecorded (run_actions as' s)
run_actions-IsRecorded as' s h = run_actions_survives IsRecorded IsRecorded-survives as' s h
