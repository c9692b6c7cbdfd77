-- ===== src/Moderation/Desires.antt =====
-- What the upsert of internal/repository/image_access.go makes of the access that is desired of an
-- asset.
use danshi_backend.Base.{
  ◌==◌, ==_iff, Bool-cases, if_rule, any, All, Bool, false, inr, none, arith, ℕ, List, ◌≡◌, refl,
  ◌⊎◌, inl, subst, [], ◌∷◌, sym, true,
}
use danshi_backend.ImageAccess.Delivery.{Delivery}
use danshi_backend.ImageAccess.Keys.{find_row, IsUnique}
use danshi_backend.ImageAccess.Outbox.{upsert}

-- Every row of the asset has this desired access.
abbrev pub Desires : ℕ → Bool → List Delivery → Type 0
Desires x public = All (λ d. d.image_asset_id ≡ x → d.desired_public ≡ public)

-- There is a row of the asset.
abbrev pub is_delivered : ℕ → List Delivery → Bool
is_delivered x ds = any (λ (d : Delivery). d.image_asset_id == x) ds

find_row-none-Desires :
    (x : ℕ) (public : Bool) (ds : List Delivery) → find_row x ds ≡ none → Desires x public ds
find_row-none-Desires x public [] h = tt
find_row-none-Desires x public (d ∷ ds) h =
    ((λ e. ground (arith, e, h)), find_row-none-Desires x public ds (ground (arith, h)))

module _ (x intent : ℕ) (public purge : Bool) (now_t : ℕ) where
  upsert-Desires :
      (ds : List Delivery) → IsUnique ds → Desires x public (upsert x intent public purge now_t ds)
  unfolding upsert
  upsert-Desires [] u = ((λ _. refl), tt)
  upsert-Desires (d ∷ ds) u = elim (Bool-cases (d.image_asset_id == x)) [
    | inl e ↦
        let same : d.image_asset_id ≡ x = (==_iff _ _).0 e in
        rw e (
          (λ _. refl),
          find_row-none-Desires x public ds (subst (λ a. find_row a ds ≡ none) same u.0),
        )
    | inr e ↦ rw e ((λ k. ground (arith, e, k)), upsert-Desires ds u.1)
  ]

  upsert-Desires_other :
      (y : ℕ) (p : Bool) (ds : List Delivery)
      → (x == y) ≡ false
      → Desires y p ds
      → Desires y p (upsert x intent public purge now_t ds)
  unfolding upsert
  upsert-Desires_other y p [] ne h = ((λ k. ground (arith, ne, k)), tt)
  upsert-Desires_other y p (d ∷ ds) ne h =
      if_rule (Desires y p) (d.image_asset_id == x) (λ e. ((λ k. ground (arith, e, ne, k)), h.1))
        λ e. (h.0, upsert-Desires_other y p ds ne h.1)

  -- What is desired of an asset after an intent for `x`.
  pub upsert-agrees :
      (y : ℕ) (q : Bool) (ds : List Delivery)
      → IsUnique ds
      → ((x ≡ y) × (q ≡ public)) ⊎ (((x == y) ≡ false) × Desires y q ds)
      → Desires y q (upsert x intent public purge now_t ds)
  upsert-agrees y q ds u (inl (same, e)) =
      let after = upsert x intent public purge now_t ds in
      subst (λ z. Desires z q after) same
        (subst (λ r. Desires x r after) (sym e) (upsert-Desires ds u))
  upsert-agrees y q ds u (inr (other, h)) = upsert-Desires_other y q ds other h

  upsert-is_delivered :
      (ds : List Delivery) → is_delivered x (upsert x intent public purge now_t ds) ≡ true
  unfolding upsert
  upsert-is_delivered [] = ground arith
  upsert-is_delivered (d ∷ ds) = ground (arith, upsert-is_delivered ds)

  upsert-is_delivered_still :
      (y : ℕ) (ds : List Delivery)
      → is_delivered y ds ≡ true
      → is_delivered y (upsert x intent public purge now_t ds) ≡ true
  unfolding upsert
  upsert-is_delivered_still y [] h = cc h
  upsert-is_delivered_still y (d ∷ ds) h = ground (arith, h, upsert-is_delivered_still y ds)

  pub upsert-delivers :
      (y : ℕ) (ds : List Delivery)
      → (x ≡ y) ⊎ (is_delivered y ds ≡ true)
      → is_delivered y (upsert x intent public purge now_t ds) ≡ true
  upsert-delivers y ds (inl same) =
      let after = upsert x intent public purge now_t ds in
      subst (λ n. is_delivered n after ≡ true) same (upsert-is_delivered ds)
  upsert-delivers y ds (inr h) = upsert-is_delivered_still y ds h
