-- ===== src/ImageAccess/Fencing.antt =====
-- Generations and fences: what `Enqueue` does to the claims that are in progress
-- (internal/repository/image_access.go).
use danshi_backend.Base.{
  ◌==◌, ==_iff, Bool-cases, any, All, refl, Bool, ◌∷◌, none, inr, arith, ◌≡◌, ℕ, inl, subst, false,
  List, [],
}
use danshi_backend.ImageAccess.Checks.{Current}
use danshi_backend.ImageAccess.Delivery.{Delivery, Claim, Updates}
use danshi_backend.ImageAccess.Keys.{find_row, IsUnique}
use danshi_backend.ImageAccess.Outbox.{
  Tables, affected, has_source, next_generation, upsert, enqueue, fenced, update_claim,
}
use danshi_backend.ImageAccess.Tables.{update_where-none}

-- No row passes the fence: `UpdateClaim` writes nothing and says so.
pub update_claim_stale :
    (c : Claim) (u : Updates) (ds : List Delivery)
    → affected (fenced c) ds ≡ 0
    → update_claim c u ds ≡ (ds, false)
unfolding update_claim
update_claim_stale c u ds h = ground (arith, h, update_where-none (fenced c) u ds h)

affected_other :
    (c : Claim) (ds : List Delivery)
    → find_row c.image_asset_id ds ≡ none
    → affected (fenced c) ds ≡ 0
unfolding affected
affected_other c [] h = refl
affected_other c (d ∷ ds) h = ground (arith, affected_other c ds)

module _ (c : Claim) (intent : ℕ) (desired purge : Bool) (now : ℕ) where
  -- The bumped row is ahead of the claim.
  next_generation_shut :
      (d : Delivery) → Current c d → fenced c (next_generation intent desired purge now d) ≡ false
  next_generation_shut d h = ground (arith, h)

  upsert_stale :
      (ds : List Delivery)
      → IsUnique ds
      → All (Current c) ds
      → affected (fenced c) (upsert c.image_asset_id intent desired purge now ds) ≡ 0
  unfolding upsert affected
  upsert_stale [] u h = ground arith
  upsert_stale (d ∷ ds) u h = elim (Bool-cases (d.image_asset_id == c.image_asset_id)) [
    | inl e ↦
        let same : d.image_asset_id ≡ c.image_asset_id = (==_iff _ _).0 e in
        rw e (
          rw (next_generation_shut d h.0)
            (omega (arith, affected_other c ds (subst (λ a. find_row a ds ≡ none) same u.0))))
    | inr e ↦ rw e (ground (arith, upsert_stale ds u.1 h.1))
  ]

-- Once a new moderation record has an intent for the asset of a claim, the claim's worker can write
-- nothing to the table any more, whatever it tries to set, if no row was ahead of its claim before.
pub enqueue-update_claim :
    (c : Claim) (source : ℕ) (desired purge : Bool) (now : ℕ) (u : Updates) (t : Tables)
    → any (has_source source) t.intents ≡ false
    → IsUnique t.deliveries
    → All (Current c) t.deliveries
    → let ds = (enqueue c.image_asset_id source desired purge now t).0.deliveries in
      update_claim c u ds ≡ (ds, false)
unfolding enqueue
enqueue-update_claim c source desired purge now u t fresh unique cur = rw fresh (
    update_claim_stale c u _
      (upsert_stale c t.next_intent_id desired purge now t.deliveries unique cur))
