-- ===== src/ImageAccess/Checks/Others.antt =====
-- What other workers of internal/service/image_access_worker.go do to the rows meanwhile, against the
-- fence of a claim that is being processed: their statements of
-- internal/repository/image_access.go are among what the claim tolerates.
use text.Mathlib.TextEquality.{eq_iff}
use danshi_backend.Base.{
  ◌==◌, or_else, refl, Bool, none, String, Option, inr, arith, ◌≡◌, true, some, ◌⊎◌, str_eq, ℕ, inl,
  false, List,
}
use danshi_backend.ImageAccess.Checks.{token_fits, IsValid, Row, ValidTable, Rows}
use danshi_backend.ImageAccess.Checks.Commit.{unleased-IsValid}
use danshi_backend.ImageAccess.Delivery.{Delivery, Claim, Updates}
use danshi_backend.ImageAccess.Handover.{All-both, lease-IsValid}
use danshi_backend.ImageAccess.Keys.{IsRow, All-IsRow, update_where-IsUnique}
use danshi_backend.ImageAccess.Leases.{All-candidates, is_among-candidate, claim_due-eq_some}
use danshi_backend.ImageAccess.Options.{Options}
use danshi_backend.ImageAccess.Outbox.{
  update_where, candidates, lease, is_among, Assets, claim_due, token_is, fenced, update_claim,
  held_by, unleased, release_superseded,
}
use danshi_backend.ImageAccess.Tables.{All-update_where}

-- After the write the row is not held under the claim's asset and token.
abbrev pub IsForeign : Options → Claim → List Delivery → (Delivery → Bool) → Updates → Type 0
IsForeign o c ds f u =
    (d : Delivery)
    → IsRow ds d
    → IsValid o d
    → f d ≡ true
    → IsValid o (u d) × (held_by c.image_asset_id (or_else c.lease_token "") (u d) ≡ false)

pub update_where-Row :
    (o : Options) (c : Claim) (f : Delivery → Bool) (u : Updates) (ds : List Delivery)
    → ((d : Delivery) → (u d).image_asset_id ≡ d.image_asset_id)
    → IsForeign o c ds f u
    → Rows o c ds
    → Rows o c (update_where f u ds)
update_where-Row o c f u ds own foreign h = (
  update_where-IsUnique f u ds own h.0,
  All-update_where (λ d. IsRow ds d × Row o c d) (Row o c) f u ds
      (λ d r m.
        let (v, free) = foreign d r.0 r.1.valid m in
        record {
          valid = v;
          current = λ k. cc (free, k);
          follows = λ k. absurd (ground (arith, free, k));
        })
      (λ d r m. r.1) (All-both (IsRow ds) (Row o c) ds (All-IsRow ds h.0) h.1),
)

-- Releasing a lease takes the row out of every fence, so that any `ReleaseSuperseded` is tolerated.
pub release_superseded-Row :
    (o : Options) (c : Claim) (asset : ℕ) (token : String) (now_t : ℕ) (ds : List Delivery)
    → Rows o c ds
    → Rows o c (release_superseded asset token now_t ds)
unfolding release_superseded
release_superseded-Row o c asset token now_t ds h =
    update_where-Row o c (held_by asset token) (unleased now_t) ds (λ d. refl)
      (λ d r v m. (unleased-IsValid o asset token now_t d v m, ground arith)) h

-- A `ClaimDue` with another token: also one that takes over the row of the claim, whose lease has run
-- out.
pub claim_due-Row_foreign :
    (o : Options) (c : Claim) (assets : Assets) (locked : ℕ → Bool) (now_t until : ℕ)
    (token : String) (limit : ℕ) (ds ds' : List Delivery) (claims : List Claim)
    → token_fits (some token) ≡ true
    → str_eq token (or_else c.lease_token "") ≡ false
    → claim_due assets locked now_t until token limit ds ≡ some (ds', claims)
    → Rows o c ds
    → Rows o c ds'
claim_due-Row_foreign o c assets locked now_t until token limit ds ds' claims fits other e h =
    let cs = candidates locked now_t limit ds in
    let rows = (claim_due-eq_some assets locked now_t until token limit ds ds' claims e).0 in
    rw rows (
      update_where-Row o c (is_among cs) (lease until token now_t) ds (λ d. refl)
        (λ d r v m.
          let due =
            is_among-candidate locked now_t ds cs d (All-candidates locked now_t limit ds h.0) r
              m in
          (lease-IsValid o until token now_t d v fits due, ground (arith, other)))
        h)

-- A lease carries one token.
token_is-apart :
    (t : Option String) (a b : String)
    → token_is a t ≡ true
    → str_eq a b ≡ false
    → token_is b t ≡ false
token_is-apart none a b h k = refl
token_is-apart (some t) a b h k = rw ((eq_iff t a).0 h) k

-- An `UpdateClaim` of another claim (of another asset, or with another token), whose update keeps the
-- key, the constraints, and the token or none.
pub update_claim-Row_foreign :
    (o : Options) (c c2 : Claim) (u : Updates) (ds : List Delivery)
    → ((d : Delivery) → (u d).image_asset_id ≡ d.image_asset_id)
    → ((d : Delivery) → IsValid o d → fenced c2 d ≡ true → IsValid o (u d))
    → ((d : Delivery) → ((u d).lease_token ≡ none) ⊎ ((u d).lease_token ≡ d.lease_token))
    → ((c2.image_asset_id == c.image_asset_id) ≡ false)
      ⊎ (str_eq (or_else c2.lease_token "") (or_else c.lease_token "") ≡ false)
    → Rows o c ds
    → Rows o c (update_claim c2 u ds).0
unfolding update_claim
update_claim-Row_foreign o c c2 u ds own keep token other h =
    update_where-Row o c (fenced c2) u ds own (λ d r v m. (keep d v m, apart d m)) h
  where
    apart :
        (d : Delivery)
        → fenced c2 d ≡ true
        → held_by c.image_asset_id (or_else c.lease_token "") (u d) ≡ false
    apart d m = elim (token d) [
      | inl gone ↦ ground (arith, gone)
      | inr same ↦ elim other [
        | inl asset ↦ ground (arith, m, asset, own d)
        | inr different ↦
            let free = token_is-apart d.lease_token _ _ (ground (arith, m)) different in
            ground (arith, same, free)
      ]
    ]

-- The constraints alone, without a claim in progress.
update_where-ValidTable :
    (o : Options) (f : Delivery → Bool) (u : Updates) (ds : List Delivery)
    → ((d : Delivery) → (u d).image_asset_id ≡ d.image_asset_id)
    → ((d : Delivery) → IsRow ds d → IsValid o d → f d ≡ true → IsValid o (u d))
    → ValidTable o ds
    → ValidTable o (update_where f u ds)
update_where-ValidTable o f u ds own keep h = (
  update_where-IsUnique f u ds own h.0,
  All-update_where (λ d. IsRow ds d × IsValid o d) (IsValid o) f u ds (λ d r m. keep d r.0 r.1 m)
      (λ d r m. r.1) (All-both (IsRow ds) (IsValid o) ds (All-IsRow ds h.0) h.1),
)

pub claim_due-ValidTable :
    (o : Options) (assets : Assets) (locked : ℕ → Bool) (now_t until : ℕ) (token : String)
    (limit : ℕ) (ds ds' : List Delivery) (claims : List Claim)
    → token_fits (some token) ≡ true
    → claim_due assets locked now_t until token limit ds ≡ some (ds', claims)
    → ValidTable o ds
    → ValidTable o ds'
claim_due-ValidTable o assets locked now_t until token limit ds ds' claims fits e h =
    let cs = candidates locked now_t limit ds in
    let rows = (claim_due-eq_some assets locked now_t until token limit ds ds' claims e).0 in
    let all = All-candidates locked now_t limit ds h.0 in
    rw rows (
      update_where-ValidTable o (is_among cs) (lease until token now_t) ds (λ d. refl)
        (λ d r v m.
          lease-IsValid o until token now_t d v fits
            (is_among-candidate locked now_t ds cs d all r m))
        h)

pub update_claim-ValidTable :
    (o : Options) (c : Claim) (u : Updates) (ds : List Delivery)
    → ((d : Delivery) → (u d).image_asset_id ≡ d.image_asset_id)
    → ((d : Delivery) → IsValid o d → fenced c d ≡ true → IsValid o (u d))
    → ValidTable o ds
    → ValidTable o (update_claim c u ds).0
unfolding update_claim
update_claim-ValidTable o c u ds own keep h =
    update_where-ValidTable o (fenced c) u ds own (λ d r v m. keep d v m) h
