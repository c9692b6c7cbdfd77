-- ===== src/ImageAccess/Handover.antt =====
-- From a claim to its processing: `ClaimDue` of internal/repository/image_access.go establishes what
-- the handlers of internal/service/image_access_worker.go rely on.
use danshi_backend.Base.{
  All, ◌<◌, refl, Bool, ◌∷◌, String, sym, arith, ◌≡◌, true, some, ℕ, subst, false, List, [],
}
use danshi_backend.ImageAccess.Checks.{token_fits, IsValid}
use danshi_backend.ImageAccess.Delivery.{Delivery, Claim}
use danshi_backend.ImageAccess.Keys.{IsRow, IsUnique, update_where-IsUnique}
use danshi_backend.ImageAccess.Leases.{
  claim_due-eq_some, claim_due-idle, IsClaimOf, claim_due-claims,
}
use danshi_backend.ImageAccess.Options.{Options}
use danshi_backend.ImageAccess.Outbox.{is_due, candidates, lease, is_among, Assets, claim_due}

module _ (assets : Assets) (locked : ℕ → Bool) (now until : ℕ) (token : String) (limit : ℕ)
    (ds : List Delivery) where
  claimed-IsUnique :
      (ds' : List Delivery) (claims : List Claim)
      → IsUnique ds
      → claim_due assets locked now until token limit ds ≡ some (ds', claims)
      → IsUnique ds'
  claimed-IsUnique ds' claims unique e =
      let cs = candidates locked now limit ds in
      let rows = (claim_due-eq_some assets locked now until token limit ds ds' claims e).0 in
      rw rows (update_where-IsUnique (is_among cs) (lease until token now) ds (λ d. refl) unique)

pub All-both :
    {A : Type 0} (P Q : A → Type 0) (xs : List A) → All P xs → All Q xs → All (λ x. P x × Q x) xs
All-both P Q [] h k = tt
All-both P Q (x ∷ xs) h k = ((h.0, k.0), All-both P Q xs h.1 k.1)

All-weaken :
    {A : Type 0} (P Q : A → Type 0) (xs : List A) → ((x : A) → P x → Q x) → All P xs → All Q xs
All-weaken P Q [] f h = tt
All-weaken P Q (x ∷ xs) f h = (f x h.0, All-weaken P Q xs f h.1)

pub lease-IsValid :
    (o : Options) (until : ℕ) (token : String) (now_t : ℕ) (d : Delivery)
    → IsValid o d
    → token_fits (some token) ≡ true
    → is_due now_t d ≡ true
    → IsValid o (lease until token now_t d)
lease-IsValid o until token now_t d h fits due = record {
  generation_pos = h.generation_pos;
  lease_whole = refl;
  lease_live = λ _. ground (arith, due);
  token_length = ground (arith, fits);
  job_length = h.job_length;
  submitting_started = h.submitting_started;
  submitted_started = h.submitted_started;
  submitted_job = h.submitted_job;
  succeeded_completed = h.succeeded_completed;
  dead_stamped = h.dead_stamped;
  purge_states = h.purge_states;
  terminal_idle = h.terminal_idle;
  acl_budget = h.acl_budget;
  submit_budget = h.submit_budget;
  unknown_budget = h.unknown_budget;
}

lease-is_due :
    (until now_t : ℕ) (token : String) (later : ℕ) (d : Delivery)
    → later < until
    → is_due later (lease until token now_t d) ≡ false
lease-is_due until now_t token later d h = ground (arith, h)

module _ (assets : Assets) (locked : ℕ → Bool) (now until : ℕ) (token : String) (limit : ℕ)
    (ds : List Delivery) where
  -- When a claim succeeds on a table with unique keys, and a second claim succeeds on the table that
  -- it leaves, at a time before the lease of the first has run out (whatever the second's token,
  -- limit and locked rows are), then every row of the first is still there as the first leased it.
  pub claim_due-exclusive :
      (ds' ds2 : List Delivery) (claims claims2 : List Claim) (locked2 : ℕ → Bool)
      (later until2 : ℕ) (token2 : String) (limit2 : ℕ)
      → IsUnique ds
      → claim_due assets locked now until token limit ds ≡ some (ds', claims)
      → claim_due assets locked2 later until2 token2 limit2 ds' ≡ some (ds2, claims2)
      → later < until
      → All (λ c. IsRow ds2 c.delivery) claims
  claim_due-exclusive ds' ds2 claims claims2 locked2 later until2 token2 limit2 unique e e2 h =
      let keys = claimed-IsUnique assets locked now until token limit ds ds' claims unique e in
      All-weaken (IsClaimOf assets locked now until token limit ds ds') (λ c. IsRow ds2 c.delivery)
        claims
        (λ c k.
          let idle : is_due later c.delivery ≡ false =
            subst (λ (x : Claim). is_due later x.delivery ≡ false) (sym k.2)
              (lease-is_due until now token later k.0 h) in
          claim_due-idle assets locked2 later until2 token2 limit2 ds' ds2 claims2 c.delivery keys
            e2 k.3 idle)
        (claim_due-claims assets locked now until token limit ds ds' claims unique e).1
