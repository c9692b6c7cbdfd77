-- ===== src/ImageAccess/Checks/Statements.antt =====
-- The statements of internal/repository/image_access.go against the constraints: they keep them,
-- and they respect the fence of every claim that is being processed.
use danshi_backend.Base.{
  ◌==◌, Bool-cases, if_rule, any, All, refl, Bool, ◌∷◌, none, inr, arith, ◌≡◌, ℕ, inl, false, List,
  [],
}
use danshi_backend.ImageAccess.Checks.{IsValid, Row, ValidTable, Rows}
use danshi_backend.ImageAccess.Delivery.{Delivery, Claim}
use danshi_backend.ImageAccess.Keys.{find_row, IsUnique}
use danshi_backend.ImageAccess.Options.{Options}
use danshi_backend.ImageAccess.Outbox.{
  Tables, has_source, new_delivery, next_generation, upsert, enqueue,
}

module _ (o : Options) (asset intent : ℕ) (desired purge : Bool) (now : ℕ) where
  new_delivery-IsValid : IsValid o (new_delivery asset intent desired purge now)
  new_delivery-IsValid = ground arith

  next_generation-IsValid :
      (d : Delivery) → IsValid o d → IsValid o (next_generation intent desired purge now d)
  next_generation-IsValid d v = ground arith

  upsert-IsValid :
      (ds : List Delivery)
      → All (IsValid o) ds
      → All (IsValid o) (upsert asset intent desired purge now ds)
  unfolding upsert
  upsert-IsValid [] h = (new_delivery-IsValid, tt)
  upsert-IsValid (d ∷ ds) h = elim (Bool-cases (d.image_asset_id == asset)) [
    | inl e ↦ rw e (next_generation-IsValid d h.0, h.1)
    | inr e ↦ rw e (h.0, upsert-IsValid ds h.1)
  ]

module _ (x intent : ℕ) (public purge : Bool) (now_t : ℕ) where
  find_row-upsert :
      (y : ℕ) (ds : List Delivery)
      → (x == y) ≡ false
      → find_row y ds ≡ none
      → find_row y (upsert x intent public purge now_t ds) ≡ none
  unfolding upsert
  find_row-upsert y [] ne h = ground (arith, ne)
  find_row-upsert y (d ∷ ds) ne h = ground (arith, ne, h, find_row-upsert y ds ne)

  pub upsert-IsUnique :
      (ds : List Delivery) → IsUnique ds → IsUnique (upsert x intent public purge now_t ds)
  unfolding upsert
  upsert-IsUnique [] u = (refl, tt)
  upsert-IsUnique (d ∷ ds) u =
      if_rule IsUnique (d.image_asset_id == x) (λ e. (u.0, u.1))
        λ e. (find_row-upsert d.image_asset_id ds (ground (arith, e)) u.0, upsert-IsUnique ds u.1)

-- A first intent for a record keeps the constraints, and so does a repeated one.
pub enqueue-IsValid :
    (o : Options) (asset source : ℕ) (desired purge : Bool) (now : ℕ) (t : Tables)
    → ValidTable o t.deliveries
    → ValidTable o (enqueue asset source desired purge now t).0.deliveries
unfolding enqueue
enqueue-IsValid o asset source desired purge now t h =
    elim (Bool-cases (any (has_source source) t.intents)) [
      | inl e ↦ rw e h
      | inr e ↦ rw e (
        upsert-IsUnique asset t.next_intent_id desired purge now t.deliveries h.0,
        upsert-IsValid o asset t.next_intent_id desired purge now t.deliveries h.1,
      )
    ]

module _ (o : Options) (c : Claim) (asset intent : ℕ) (desired purge : Bool) (now : ℕ) where
  -- The next generation is ahead of the claim, so the fence is shut.
  next_generation-Row :
      (d : Delivery) → Row o c d → Row o c (next_generation intent desired purge now d)
  next_generation-Row d r = record {
    valid = next_generation-IsValid o asset intent desired purge now d r.valid;
    current = λ e. omega (arith, r.current e);
    follows = λ m. absurd (ground (arith, r.current));
  }

  new_delivery-Row : Row o c (new_delivery asset intent desired purge now)
  new_delivery-Row = record {
    valid = new_delivery-IsValid o asset intent desired purge now;
    current = λ m. absurd (ground arith);
    follows = λ m. absurd (ground arith);
  }

  upsert-Row :
      (ds : List Delivery)
      → All (Row o c) ds
      → All (Row o c) (upsert asset intent desired purge now ds)
  unfolding upsert
  upsert-Row [] h = (new_delivery-Row, tt)
  upsert-Row (d ∷ ds) h = elim (Bool-cases (d.image_asset_id == asset)) [
    | inl e ↦ rw e (next_generation-Row d h.0, h.1)
    | inr e ↦ rw e (h.0, upsert-Row ds h.1)
  ]

pub enqueue-Row :
    (o : Options) (c : Claim) (asset source : ℕ) (desired purge : Bool) (now : ℕ) (t : Tables)
    → Rows o c t.deliveries
    → Rows o c (enqueue asset source desired purge now t).0.deliveries
unfolding enqueue
enqueue-Row o c asset source desired purge now t h =
    elim (Bool-cases (any (has_source source) t.intents)) [
      | inl e ↦ rw e h
      | inr e ↦ rw e (
        upsert-IsUnique asset t.next_intent_id desired purge now t.deliveries h.0,
        upsert-Row o c asset t.next_intent_id desired purge now t.deliveries h.1,
      )
    ]
