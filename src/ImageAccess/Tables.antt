-- ===== src/ImageAccess/Tables.antt =====
-- How predicates on rows pass through the statements of internal/repository/image_access.go.
use danshi_backend.Base.{
  Bool-cases, All, true, arith, Bool, List, inr, ◌∷◌, [], refl, false, inl, ◌≡◌,
}
use danshi_backend.ImageAccess.Delivery.{Delivery, Updates}
use danshi_backend.ImageAccess.Outbox.{update_where, affected}

module _ {ℓ κ} (P : Delivery → Type ℓ) (Q : Delivery → Type κ) where
  pub All-update_where :
      (f : Delivery → Bool) (u : Updates) (ds : List Delivery)
      → ((d : Delivery) → P d → f d ≡ true → Q (u d))
      → ((d : Delivery) → P d → f d ≡ false → Q d)
      → All P ds
      → All Q (update_where f u ds)
  unfolding update_where
  All-update_where f u [] hit miss h = tt
  All-update_where f u (d ∷ ds) hit miss h =
      let rest = All-update_where f u ds hit miss h.1 in
      elim (Bool-cases (f d)) [
        | inl e ↦ rw e (hit d h.0 e, rest)
        | inr e ↦ rw e (miss d h.0 e, rest)
      ]

-- No row matches: nothing is written, and the count is 0.
pub update_where-none :
    (f : Delivery → Bool) (u : Updates) (ds : List Delivery)
    → affected f ds ≡ 0
    → update_where f u ds ≡ ds
unfolding update_where affected
update_where-none f u [] h = refl
update_where-none f u (d ∷ ds) h = ground (arith, update_where-none f u ds)
