-- ===== src/ImageRetry/Batches.antt =====
-- What the worker of internal/service/image_moderation_retry_worker.go does for a claim whose lease
-- is lost, and what it reports of a batch.
use danshi_backend.Base.{
  leb, if◌then◌else◌, if_rule, length, filter, any, [], none, true, refl, arith, not, ◌≡◌, map, ap,
  ◌+◌, ℕ, some, ◌∷◌, List, Bool, false, Option,
}
use danshi_backend.ImageRetry.Queue.{
  RetryClaim, fenced_retry, update_retry, reschedule_claim, dead_letter_claim, delete_claim,
}
use danshi_backend.ImageRetry.Worker.{
  ImageModerationSubmission, RetryPorts, RetryOptions, RetryOutcome, Ending, run_statement,
  delete_retry_claim, apply_immediate, retry_failed, is_accepted, after_submission,
  process_retry_claim, RetryWorkerResult, retry_rescheduled, retry_submitted, retry_concluded,
  retry_dead, retry_superseded,
}
use danshi_backend.Moderation.Data.{
  RetryError, Retry, Store, moderation_pending, submit_failed, invalid_submission,
}

fenced_nowhere :
    (f : Retry → Bool) (u : Retry → Retry) (rs : List Retry)
    → any f rs ≡ false
    → (map (λ r. if f r then u r else r) rs ≡ rs)
      × (filter (λ r. not (f r)) rs ≡ rs)
      × (length (filter f rs) ≡ 0)
fenced_nowhere f u [] h = (refl, refl, refl)
fenced_nowhere f u (r ∷ rs) h =
    let rest = fenced_nowhere f u rs (ground (arith, h)) in
    let miss : f r ≡ false = ground (arith, h) in
    (rw miss (ap (λ xs. r ∷ xs) rest.0), rw miss (ap (λ xs. r ∷ xs) rest.1), rw miss rest.2)

module _ (p : RetryPorts) (o : RetryOptions) (c : RetryClaim) where
  -- Another worker holds the row, or it is gone.
  abbrev pub Lost : Store → Type 0
  Lost s = any (fenced_retry c) (p.others s).retries ≡ false

  update_retry-Lost :
      (u : Retry → Retry) (rs : List Retry)
      → any (fenced_retry c) rs ≡ false
      → update_retry c u rs ≡ (rs, false)
  update_retry-Lost u rs h = let n = fenced_nowhere (fenced_retry c) u rs h in rw (n.0, n.2) refl

  delete_claim-Lost :
      (rs : List Retry) → any (fenced_retry c) rs ≡ false → delete_claim c rs ≡ (rs, false)
  unfolding delete_claim
  delete_claim-Lost rs h =
      let n = fenced_nowhere (fenced_retry c) (λ r. r) rs h in rw (n.1, n.2) refl

  run_statement-Lost :
      (statement : List Retry → List Retry × Bool) (outcome : RetryOutcome) (s : Store)
      → p.tx_fails ≡ false
      → statement (p.others s).retries ≡ ((p.others s).retries, false)
      → run_statement p statement outcome s ≡ (p.others s, retry_superseded, none)
  unfolding run_statement
  run_statement-Lost statement outcome s up h = rw (up, h) refl

  retry_failed-Lost :
      (code : RetryError) (s : Store)
      → p.tx_fails ≡ false
      → Lost s
      → retry_failed p o c code s ≡ (p.others s, retry_superseded, none)
  unfolding retry_failed dead_letter_claim reschedule_claim
  retry_failed-Lost code s up h =
      if_rule (λ (f : Store → Ending). f s ≡ (p.others s, retry_superseded, none))
        (leb o.max_attempts (c.retry.attempts + 1))
        (λ _. run_statement-Lost _ retry_dead s up (update_retry-Lost _ _ h))
        (λ _. run_statement-Lost _ retry_rescheduled s up (update_retry-Lost _ _ h))

  after_submission-Lost :
      (answer : Option ImageModerationSubmission) (s : Store)
      → p.tx_fails ≡ false
      → Lost s
      → ((a : ImageModerationSubmission) → answer ≡ some a → a.immediate ≡ none)
      → after_submission p o c answer s ≡ (p.others s, retry_superseded, none)
  unfolding after_submission delete_retry_claim
  after_submission-Lost none s up h later = retry_failed-Lost submit_failed s up h
  after_submission-Lost (some a) s up h later = rw (later a refl) (
      if_rule (λ (f : Store → Ending). f s ≡ (p.others s, retry_superseded, none))
        (is_accepted p o a) (λ _. run_statement-Lost _ retry_submitted s up (delete_claim-Lost _ h))
        (λ _. retry_failed-Lost invalid_submission s up h))

-- A worker that has lost the lease on its row writes nothing, and reports the claim as superseded:
-- whether its moderator failed, refused or accepted the image, unless it concluded at once.
pub process_retry_claim-superseded :
    (p : RetryPorts) (o : RetryOptions) (c : RetryClaim) (s : Store)
    → p.tx_fails ≡ false
    → Lost p o c s
    → ((a : ImageModerationSubmission)
        → p.submit_image c.retry.image_asset_id c.object_key ≡ some a
        → a.immediate ≡ none)
    → process_retry_claim p o c s ≡ (p.others s, retry_superseded, none)
unfolding process_retry_claim delete_retry_claim retry_failed apply_immediate
process_retry_claim-superseded p o c s up h later =
    elim c.moderation
      as (λ m.
        process_retry_claim p o (record c { moderation = m }) s
        ≡ (p.others s, retry_superseded, none)) [
          | moderation_pending ↦
              after_submission-Lost p o c (p.submit_image c.retry.image_asset_id c.object_key) s up
                h later
          | _ ↦ run_statement-Lost p o c _ retry_superseded s up (delete_claim-Lost p o c _ h)
        ]

-- The claims of a batch in turn, each on the tables that the one before leaves: their outcomes, and
-- the tables at the end.
abbrev pub trace : RetryOptions → List (RetryPorts × RetryClaim) → Store → List RetryOutcome × Store
trace o [] s = ([], s)
trace o ((p, c) ∷ cs) s =
    let ending = process_retry_claim p o c s in
    let rest = trace o cs ending.0 in (ending.1 ∷ rest.0, rest.1)

-- How many outcomes are `k`.
abbrev pub is_outcome : RetryOutcome → RetryOutcome → Bool
is_outcome retry_submitted retry_submitted = true
is_outcome retry_concluded retry_concluded = true
is_outcome retry_rescheduled retry_rescheduled = true
is_outcome retry_dead retry_dead = true
is_outcome retry_superseded retry_superseded = true
is_outcome k k' = false

abbrev pub times : RetryOutcome → List RetryOutcome → ℕ
times k [] = 0
times k (k' ∷ ks) = (if is_outcome k k' then 1 else 0) + times k ks

-- What a report adds to another one: the outcomes in the list, each in its counter.
pub record Reports (ks : List RetryOutcome) (r r' : RetryWorkerResult) : Type 0 where
  pub claimed_kept : r'.claimed ≡ r.claimed
  pub submitted_times : r'.submitted ≡ r.submitted + times retry_submitted ks
  pub concluded_times : r'.concluded ≡ r.concluded + times retry_concluded ks
  pub rescheduled_times : r'.rescheduled ≡ r.rescheduled + times retry_rescheduled ks
  pub dead_times : r'.dead_lettered ≡ r.dead_lettered + times retry_dead ks
  pub superseded_times : r'.superseded ≡ r.superseded + times retry_superseded ks
