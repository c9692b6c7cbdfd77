-- ===== src/Comments/Insertion.antt =====
-- A new comment and the counters (internal/service/comment_write.go): it waits for moderation, and
-- nobody has answered it.
use danshi_backend.Base.{
  ltb, ◌==◌, if◌then◌else◌, ==_iff, Bool-cases, Option-cases, All, All-append_rows, All-implies,
  find_first-append, some, sym, inl, false, ◌∷◌, [], ap, ◌∙◌, Option, inr, ◌++◌, true, arith, ◌≡◌,
  List, ℕ, none, refl, ◌+◌,
}
use danshi_backend.Comments.Counted.{is_reply_counted, AreKnown, AreCounted}
use danshi_backend.Comments.Counters.{is_active, find_comment}
use danshi_backend.Comments.Data.{Comment, CommentedPost}
use danshi_backend.Comments.Floors.{
  reply_weight, replies_of, is_root_of, floor_size, visible_comments,
}
use danshi_backend.Comments.Places.{
  Placement, placement, placed, place_at, is_placed, is_placed-is_floor, is_floor-root,
}
use danshi_backend.Comments.Sums.{sum_of-ext, sum_of-append, has_id, IsKeyed}
use danshi_backend.Moderation.Repository.{same_id}

append-IsKeyed :
    (cs : List Comment) (c : Comment)
    → All (λ d. has_id d.id c ≡ false) cs
    → IsKeyed cs
    → IsKeyed (cs ++ (c ∷ []))
append-IsKeyed [] c apart h = (tt, tt)
append-IsKeyed (d ∷ cs) c apart h = (
  All-append_rows (λ e. has_id d.id e ≡ false) cs (c ∷ []) h.0 (apart.0, tt),
  append-IsKeyed cs c apart.1 h.1,
)

-- A table that knows more places.
abbrev Extends : (ℕ → Option Placement) → (ℕ → Option Placement) → Type 0
Extends look look' = (id : ℕ) (q : Placement) → look id ≡ some q → look' id ≡ some q

is_placed-extended :
    (look look' : ℕ → Option Placement) (c : Placement)
    → Extends look look'
    → is_placed look c ≡ true
    → is_placed look' c ≡ true
is_placed-extended look look' c more h = elim (Option-cases c.root_id) [
  | inl e ↦ rw e (rw e at h)
  | inr (root, e) ↦ elim (Option-cases c.parent_id) [
    | inl p ↦ cc (rw (e, p) at h)
    | inr (parent, p) ↦ elim (Option-cases (look root)) [
      | inl miss ↦ cc (rw (e, p, miss) at h)
      | inr (r, there) ↦ elim (Option-cases (look parent)) [
        | inl miss ↦ ground (arith, rw (e, p, there, miss) at h)
        | inr (q, answered) ↦
            rw (e, p, more root r there, more parent q answered) (rw (e, p, there, answered) at h)
      ]
    ]
  ]
]

pub place_at-append :
    (cs : List Comment) (c : Comment) → Extends (place_at cs) (place_at (cs ++ (c ∷ [])))
place_at-append cs c id q e = elim (Option-cases (find_comment id cs)) [
  | inl miss ↦ cc (rw miss at e)
  | inr (d, hit) ↦
      let grown : find_comment id (cs ++ (c ∷ [])) ≡ some d =
        find_first-append (has_id id) cs (c ∷ []) ∙ rw hit refl in
      ap placed grown ∙ rw hit at e
]

-- Nobody answers a comment that is not in the table.
no_replies :
    (cs : List Comment) (id : ℕ)
    → find_comment id cs ≡ none
    → (ds : List Comment) → All (λ d. is_placed (place_at cs) (placement d) ≡ true) ds
    → replies_of id ds ≡ 0
no_replies cs id miss [] h = refl
no_replies cs id miss (d ∷ ds) h =
    let rest = no_replies cs id miss ds h.1 in
    let alone : same_id d.root_id id ≡ false = elim (Option-cases d.root_id) [
      | inl e ↦ rw e refl
      | inr (root, e) ↦
          let floor = is_placed-is_floor (place_at cs) (placement d) root h.0 e in
          let (r, there, top, post) = is_floor-root (placement d) cs root floor in
          elim (Bool-cases (root == id)) [
            | inr other ↦ rw e other
            | inl here ↦
                let same : root ≡ id = (==_iff root id).0 here in
                cc (sym there ∙ ap (λ k. find_comment k cs) same ∙ miss)
          ]
    ] in
    omega (arith, rest, zero d alone)
  where
    zero : (d : Comment) → same_id d.root_id id ≡ false → reply_weight id d ≡ 0
    zero d alone = ground (arith, alone)

absent : (n : ℕ) (cs : List Comment) → AreKnown n cs → find_comment n cs ≡ none
absent n [] h = refl
absent n (c ∷ cs) h =
    let miss : has_id n c ≡ false = ground (arith, h.0) in rw miss (absent n cs h.1)

abbrev and_new : Comment → List Comment → List Comment
and_new c cs = cs ++ (c ∷ [])

pub append-IsCounted :
    (cs : List Comment) (ps : List CommentedPost) (n : ℕ) (c : Comment)
    → c.id ≡ n
    → is_active c ≡ false
    → c.reply_count ≡ 0
    → is_placed (place_at cs) (placement c) ≡ true
    → AreCounted cs ps n
    → AreCounted (cs ++ (c ∷ [])) ps (n + 1)
append-IsCounted cs ps n c key quiet none_yet stands h = record {
  keys =
      append-IsKeyed cs c
        (All-implies (λ d. ltb d.id n ≡ true) (λ d. has_id d.id c ≡ false) cs
          (λ d k. ground (arith, k, key)) h.known)
        h.keys;
  known =
      All-append_rows (λ d. ltb d.id (n + 1) ≡ true) cs (c ∷ [])
        (All-implies (λ d. ltb d.id n ≡ true) (λ d. ltb d.id (n + 1) ≡ true) cs
          (λ d k. ground (arith, k)) h.known)
        (ground (arith, key), tt);
  places =
      All-append_rows (λ d. is_placed (place_at (and_new c cs)) (placement d) ≡ true) cs (c ∷ [])
        (All-implies (λ d. is_placed (place_at cs) (placement d) ≡ true)
          (λ d. is_placed (place_at (and_new c cs)) (placement d) ≡ true) cs
          (λ d k.
            is_placed-extended (place_at cs) (place_at (and_new c cs)) (placement d)
              (place_at-append cs c) k)
          h.places)
        (
          is_placed-extended (place_at cs) (place_at (and_new c cs)) (placement c)
              (place_at-append cs c) stands,
          tt,
        );
  replies =
      All-append_rows (λ d. is_reply_counted (and_new c cs) d ≡ true) cs (c ∷ [])
        (All-implies (λ d. is_reply_counted cs d ≡ true)
          (λ d. is_reply_counted (and_new c cs) d ≡ true) cs
          (λ d k. ground (arith, k, replies_same d.id)) h.replies)
        (ground (arith, none_yet, replies_same c.id, unanswered), tt);
  posts =
      All-implies (λ (p : CommentedPost). p.comment_count ≡ visible_comments p.id cs)
        (λ (p : CommentedPost). p.comment_count ≡ visible_comments p.id (and_new c cs)) ps
        (λ p k. k ∙ sym (visible_same p.id)) h.posts;
}
  where
    replies_same : (k : ℕ) → replies_of k (and_new c cs) ≡ replies_of k cs
    replies_same k =
        let weight : reply_weight k c ≡ 0 = rw quiet refl in
        omega (arith, sum_of-append (reply_weight k) cs (c ∷ []), weight)

    unanswered : replies_of c.id cs ≡ 0
    unanswered =
        no_replies cs c.id (ap (λ k. find_comment k cs) key ∙ absent n cs h.known) cs h.places

    visible_same : (post : ℕ) → visible_comments post (and_new c cs) ≡ visible_comments post cs
    visible_same post =
        let floors =
          sum_of-ext (floor_size post (and_new c cs)) (floor_size post cs) cs
            (λ d. ap (λ k. if is_root_of post d then 1 + k else 0) (replies_same d.id)) in
        let floor : floor_size post (and_new c cs) c ≡ 0 = ground (arith, quiet) in
        omega (arith, sum_of-append (floor_size post (and_new c cs)) cs (c ∷ []), floors, floor)
