-- ===== src/Comments/Tallies.antt =====
-- The statements of internal/repository/comment.go that change a comment, and the counters.
use danshi_backend.Base.{
  Bool-cases, Option-cases, update_rows, true, sym, ℕ, ◌∙◌, ◌≡◌, inr, not, inl, some, Bool, false,
  subst,
}
use danshi_backend.Comments.Counted.{
  IsCounted, KeepsCount, keeps_root, same_activity-IsCounted, root-IsCounted,
}
use danshi_backend.Comments.Counters.{is_active, find_comment, count_row, sync_counts}
use danshi_backend.Comments.Data.{Comment, Discussion}
use danshi_backend.Comments.Replies.{reply-IsCounted}
use danshi_backend.Comments.Statements.{update_comment}
use danshi_backend.Comments.Sums.{has_id}

sync_counts-IsCounted :
    (id : ℕ) (u : Comment → Comment) (s : Discussion) (old : Comment)
    → KeepsCount u
    → find_comment id s.comments ≡ some old
    → IsCounted s
    → IsCounted
        (sync_counts old (u old) (record s { comments = update_rows (has_id id) u s.comments }))
unfolding sync_counts
sync_counts-IsCounted id u s old keeps e h = elim (Bool-cases (is_active old)) [
  | inl was ↦ elim (Bool-cases (is_active (u old))) [
    | inl is ↦ rw (was, is) (same_activity-IsCounted id u s old keeps e h (is ∙ sym was))
    | inr gone ↦ rw (was, gone) (counts false gone was)
  ]
  | inr was_not ↦ elim (Bool-cases (is_active (u old))) [
    | inl is ↦ rw (was_not, is) (counts true is was_not)
    | inr is_not ↦
        rw (was_not, is_not) (same_activity-IsCounted id u s old keeps e h (is_not ∙ sym was_not))
  ]
]
  where
    counts :
        (up : Bool)
        → is_active (u old) ≡ up
        → is_active old ≡ not up
        → IsCounted (
            count_row up
              (u old)
              (u old).root_id
              (record s { comments = update_rows (has_id id) u s.comments }))
    counts up now before = elim (Option-cases old.root_id) [
      | inl top ↦
          rw (keeps_root u old keeps.place ∙ top)
            (root-IsCounted id u s old keeps e h up top now before)
      | inr (root, inner) ↦
          rw (keeps_root u old keeps.place ∙ inner)
            (reply-IsCounted id u s old keeps e h up root inner now before)
    ]

pub update_comment-IsCounted :
    (u : Comment → Comment) (id : ℕ) (s s' : Discussion)
    → KeepsCount u
    → update_comment u id s ≡ some s'
    → IsCounted s
    → IsCounted s'
unfolding update_comment
update_comment-IsCounted u id s s' keeps e h = elim (Option-cases (find_comment id s.comments)) [
  | inl miss ↦ cc (rw (update_comment, miss) at e)
  | inr (old, there) ↦
      let left : sync_counts old (u old)
            (record s { comments = update_rows (has_id id) u s.comments })
          ≡ s' =
        cc (rw (update_comment, there) at e) in
      subst IsCounted left (sync_counts-IsCounted id u s old keeps there h)
]
