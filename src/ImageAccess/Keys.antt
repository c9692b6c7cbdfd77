-- ===== src/ImageAccess/Keys.antt =====
-- The primary key of `image_access_deliveries`: migrations/00012_image_access_outbox.sql, and the
-- UPDATEs of internal/repository/image_access.go, which keep it.
use danshi_backend.Base.{
  ◌==◌, if◌then◌else◌, Bool-cases, if_rule, All, List, ◌≡◌, inl, ◌∷◌, Bool, inr, sym, arith, refl,
  Option, none, some, subst, [], ℕ,
}
use danshi_backend.ImageAccess.Delivery.{Delivery, Updates}
use danshi_backend.ImageAccess.Outbox.{update_where}

-- The row of an asset, by the primary key.
abbrev pub find_row : ℕ → List Delivery → Option Delivery
find_row a [] = none
find_row a (d ∷ ds) = if d.image_asset_id == a then some d else find_row a ds

abbrev pub IsRow : List Delivery → Delivery → Type 0
IsRow ds d = find_row d.image_asset_id ds ≡ some d

-- `image_asset_id` is the primary key.
abbrev pub IsUnique : List Delivery → Type 0
IsUnique [] = Unit {0}
IsUnique (d ∷ ds) = (find_row d.image_asset_id ds ≡ none) × IsUnique ds

find_row-cons :
    (e : Delivery) (ds ds' : List Delivery)
    → find_row e.image_asset_id ds' ≡ none
    → All (IsRow ds') ds
    → All (IsRow (e ∷ ds')) ds
find_row-cons e [] ds' h all = tt
find_row-cons e (d ∷ ds) ds' h all = (
  elim (Bool-cases (e.image_asset_id == d.image_asset_id)) [
    | inl b ↦ ground (arith, h, all.0)
    | inr b ↦ rw b all.0
  ],
  find_row-cons e ds ds' h all.1,
)

pub All-IsRow : (ds : List Delivery) → IsUnique ds → All (IsRow ds) ds
All-IsRow [] u = tt
All-IsRow (d ∷ ds) u = (ground arith, find_row-cons d ds ds u.0 (All-IsRow ds u.1))

-- An UPDATE that keeps the keys acts on each row by itself.
pub find_row-update_where :
    (f : Delivery → Bool) (u : Updates) (a : ℕ) (ds : List Delivery)
    → ((d : Delivery) → (u d).image_asset_id ≡ d.image_asset_id)
    → find_row a (update_where f u ds)
      ≡ elim (find_row a ds) [ none ↦ none | some d ↦ some (if f d then u d else d) ]
unfolding update_where
find_row-update_where f u a [] k = refl
find_row-update_where f u a (d ∷ ds) k = ground (arith, k d, find_row-update_where f u a ds k)

pub update_where-IsUnique :
    (f : Delivery → Bool) (u : Updates) (ds : List Delivery)
    → ((d : Delivery) → (u d).image_asset_id ≡ d.image_asset_id)
    → IsUnique ds
    → IsUnique (update_where f u ds)
unfolding update_where
update_where-IsUnique f u [] k h = tt
update_where-IsUnique f u (d ∷ ds) k h =
    let absent = find_row-update_where f u d.image_asset_id ds k in
    let gone : find_row d.image_asset_id (update_where f u ds) ≡ none = rw h.0 at absent in
    (
      if_rule (λ (x : Delivery). find_row x.image_asset_id (update_where f u ds) ≡ none) (f d)
          (λ _. subst (λ a. find_row a (update_where f u ds) ≡ none) (sym (k d)) gone) (λ _. gone),
      update_where-IsUnique f u ds k h.1,
    )
