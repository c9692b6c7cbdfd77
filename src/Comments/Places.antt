-- ===== src/Comments/Places.antt =====
-- Where comments stand: the columns that no writer changes, and what the table's constraints and the
-- writers make of them (the composite foreign keys of comments in migrations/00001_init.sql).
use mathlib.Core.Path.{fun_ext}
use danshi_backend.Base.{
  ◌==◌, if◌then◌else◌, Option-cases, is_some, or_else, if_rule, All, update_rows, All-update_rows,
  find_first-update_rows, arith, ℕ, ap, inl, Option, true, refl, some, Bool, not, ◌∙◌, List, none,
  ◌&&◌, inr, ◌≡◌, false,
}
use danshi_backend.Comments.Counters.{find_comment}
use danshi_backend.Comments.Data.{Comment}
use danshi_backend.Comments.Sums.{has_id}

pub record Placement : Type 0 where
  pub id : ℕ
  pub post_id : ℕ
  pub author_id : ℕ
  pub parent_id : Option ℕ
  pub root_id : Option ℕ
  pub reply_to_user_id : ℕ

abbrev pub placement : Comment → Placement
placement c = record {
  id = c.id;
  post_id = c.post_id;
  author_id = c.author_id;
  parent_id = c.parent_id;
  root_id = c.root_id;
  reply_to_user_id = c.reply_to_user_id;
}

abbrev pub placed : Option Comment → Option Placement
placed none = none
placed (some c) = some (placement c)

abbrev pub place_at : List Comment → ℕ → Option Placement
place_at cs id = placed (find_comment id cs)

-- The root of a reply is a root comment of the same post.
abbrev pub is_floor : Placement → Option Placement → Bool
is_floor c none = false
is_floor c (some root) = not (is_some root.root_id) && root.post_id == c.post_id

-- The parent of a reply stands on the same floor of the same post, and its author is answered.
abbrev pub is_answer : Placement → ℕ → Option Placement → Bool
is_answer c root none = false
is_answer c root (some parent) =
    parent.post_id == c.post_id
    && or_else parent.root_id parent.id == root
    && parent.author_id == c.reply_to_user_id

abbrev pub is_reply_at : (ℕ → Option Placement) → Placement → ℕ → Option ℕ → Bool
is_reply_at look c root none = false
is_reply_at look c root (some parent) = is_floor c (look root) && is_answer c root (look parent)

abbrev pub is_placed : (ℕ → Option Placement) → Placement → Bool
is_placed look c = elim c.root_id [
  | none ↦ not (is_some c.parent_id)
  | some root ↦ is_reply_at look c root c.parent_id
]

abbrev pub IsPlaced : List Comment → Type 0
IsPlaced cs = All (λ c. is_placed (place_at cs) (placement c) ≡ true) cs

-- A change of comments that keeps their places.
abbrev pub KeepsPlace : (Comment → Comment) → Type 0
KeepsPlace u = (c : Comment) → placement (u c) ≡ placement c

pub place_at-update_rows :
    (p : Comment → Bool) (u : Comment → Comment) (cs : List Comment)
    → KeepsPlace u
    → (id : ℕ) → place_at (update_rows p u cs) id ≡ place_at cs id
place_at-update_rows p u cs keeps id =
    ap placed (
      find_first-update_rows (has_id id) p u cs (λ c. ap (λ (q : Placement). q.id == id) (keeps c)))
    ∙ same_place (find_comment id cs)
  where
    same_place :
        (o : Option Comment)
        → placed (elim o [ none ↦ none | some c ↦ some (if p c then u c else c) ]) ≡ placed o
    same_place none = refl
    same_place (some c) =
        ap some
          (if_rule (λ (x : Comment). placement x ≡ placement c) (p c) (λ _. keeps c) (λ _. refl))

pub update_rows-IsPlaced :
    (p : Comment → Bool) (u : Comment → Comment) (cs : List Comment)
    → KeepsPlace u
    → IsPlaced cs
    → IsPlaced (update_rows p u cs)
update_rows-IsPlaced p u cs keeps h =
    All-update_rows (λ c. is_placed (place_at cs) (placement c) ≡ true)
      (λ c. is_placed (place_at (update_rows p u cs)) (placement c) ≡ true) p u cs
      (λ c k _. ap (is_placed (place_at (update_rows p u cs))) (keeps c) ∙ looks c ∙ k)
      (λ c k _. looks c ∙ k) h
  where
    looks :
        (c : Comment)
        → is_placed (place_at (update_rows p u cs)) (placement c)
          ≡ is_placed (place_at cs) (placement c)
    looks c =
        ap (λ look. is_placed look (placement c)) (fun_ext (place_at-update_rows p u cs keeps))

-- The root of a reply.
pub is_placed-is_floor :
    (look : ℕ → Option Placement) (c : Placement) (root : ℕ)
    → is_placed look c ≡ true
    → c.root_id ≡ some root
    → is_floor c (look root) ≡ true
is_placed-is_floor look c root h e = elim (Option-cases c.parent_id) [
  | inl p ↦ cc (rw (e, p) at h)
  | inr (q, p) ↦ ground (arith, rw (e, p) at h)
]

pub is_floor-root :
    (c : Placement) (cs : List Comment) (root : ℕ)
    → is_floor c (place_at cs root) ≡ true
    → (r : Comment) × (find_comment root cs ≡ some r) × (r.root_id ≡ none) × (r.post_id ≡ c.post_id)
is_floor-root c cs root h = elim (Option-cases (find_comment root cs)) [
  | inl e ↦ cc (rw e at h)
  | inr (r, e) ↦
      let test = rw e at h in
      (
        r,
        e,
        elim (Option-cases r.root_id) [ inl top ↦ top | inr (q, inner) ↦ cc (rw inner at test) ],
        ground (arith, test),
      )
]
