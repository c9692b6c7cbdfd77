-- ===== src/ImageRetry/Checks.antt =====
-- The rows of the queue: the CHECK constraints of migrations/00016_image_moderation_retry.sql and
-- the budget of internal/service/image_moderation_retry_worker.go.
use danshi_backend.Base.{
  leb, if◌then◌else◌, Bool-cases, Option-cases, is_some, if_rule, All, All-filter, Result-cases, ℕ,
  ◌+◌, Bool, false, refl, ◌≡◌, subst, ◌||◌, map, not, inl, true, ◌<◌, List, ◌∷◌, some, inr, none,
  arith, sym, Option, [],
}
use danshi_backend.ImageRetry.Queue.{
  RetryClaim, is_retry_pending, fenced_retry, rescheduled_retry, dead_retry, reschedule_claim,
  dead_letter_claim, delete_claim,
}
use danshi_backend.ImageRetry.Worker.{
  ImageModerationSubmission, RetryPorts, RetryOptions, RetryOutcome, Ending, run_statement,
  delete_retry_claim, apply_immediate, retry_failed, is_accepted, after_submission,
  process_retry_claim, retry_submitted, retry_superseded,
}
use danshi_backend.Moderation.Acceptance.{apply_image_result-eq_ok, Accepted-retries}
use danshi_backend.Moderation.Callback.{ImageModerationCallback, apply_image_result}
use danshi_backend.Moderation.Data.{
  RetryError, Retry, Store, moderation_pending, submit_failed, invalid_submission,
}

-- A row that the table admits, within the budget of attempts.
pub record IsValidRetry (o : RetryOptions) (r : Retry) : Type 0 where
  pub tried : 0 < r.attempts
  pub paired : is_some r.lease_token ≡ is_some r.lease_until
  pub scheduled : is_retry_pending r ≡ is_some r.next_attempt_at
  pub buried : not (is_retry_pending r) ≡ is_some r.dead_lettered_at
  pub released : (is_retry_pending r || not (is_some r.lease_token)) ≡ true
  pub open_budget : is_retry_pending r ≡ true → r.attempts < o.max_attempts
  pub spent : is_retry_pending r ≡ false → r.attempts ≡ o.max_attempts

-- What is known of a row while a worker holds the claim: the constraints, and, if the row passes the
-- fence, that it still counts the attempts of the claim.
pub record ClaimedRow (o : RetryOptions) (c : RetryClaim) (r : Retry) : Type 0 where
  pub valid : IsValidRetry o r
  pub counted : fenced_retry c r ≡ true → r.attempts ≡ c.retry.attempts

All-ClaimedRow_valid :
    (o : RetryOptions) (c : RetryClaim) (rs : List Retry)
    → All (ClaimedRow o c) rs
    → All (IsValidRetry o) rs
All-ClaimedRow_valid o c [] h = tt
All-ClaimedRow_valid o c (r ∷ rs) h = (h.0.valid, All-ClaimedRow_valid o c rs h.1)

All-update :
    (o : RetryOptions) (c : RetryClaim) (u : Retry → Retry) (rs : List Retry)
    → ((r : Retry) → ClaimedRow o c r → fenced_retry c r ≡ true → IsValidRetry o (u r))
    → All (ClaimedRow o c) rs
    → All (IsValidRetry o) (map (λ r. if fenced_retry c r then u r else r) rs)
All-update o c u [] f h = tt
All-update o c u (r ∷ rs) f h = (
  if_rule (IsValidRetry o) (fenced_retry c r) (λ e. f r h.0 e) (λ _. h.0.valid),
  All-update o c u rs f h.1,
)

dead_retry-IsValid :
    (o : RetryOptions) (c : RetryClaim) (t : ℕ) (r : Retry)
    → leb o.max_attempts (c.retry.attempts + 1) ≡ true
    → ClaimedRow o c r
    → fenced_retry c r ≡ true
    → IsValidRetry o (dead_retry (c.retry.attempts + 1) t r)
dead_retry-IsValid o c t r full h e =
    let count : r.attempts ≡ c.retry.attempts = h.counted e in
    let free : r.attempts < o.max_attempts = h.valid.open_budget (ground (arith, e)) in
    record {
      tried = omega arith;
      paired = refl;
      scheduled = refl;
      buried = refl;
      released = refl;
      open_budget = λ k. cc k;
      spent = λ k. ground (arith, full, count, free);
    }

rescheduled_retry-IsValid :
    (o : RetryOptions) (c : RetryClaim) (next t : ℕ) (code : RetryError) (r : Retry)
    → leb o.max_attempts (c.retry.attempts + 1) ≡ false
    → ClaimedRow o c r
    → fenced_retry c r ≡ true
    → IsValidRetry o (rescheduled_retry (c.retry.attempts + 1) next code t r)
rescheduled_retry-IsValid o c next t code r room h e =
    let pend : is_retry_pending r ≡ true = ground (arith, e) in
    record {
      tried = omega arith;
      paired = refl;
      scheduled = pend;
      buried = h.valid.buried;
      released = ground (arith, pend);
      open_budget = λ k. ground (arith, room);
      spent = λ k. cc (k, pend);
    }

module _ (p : RetryPorts) (o : RetryOptions) (c : RetryClaim) where
  run_statement-IsValid :
      (statement : List Retry → List Retry × Bool) (outcome : RetryOutcome) (s : Store)
      → ((rs : List Retry) → All (ClaimedRow o c) rs → All (IsValidRetry o) (statement rs).0)
      → All (ClaimedRow o c) (p.others s).retries
      → All (IsValidRetry o) (run_statement p statement outcome s).0.retries
  unfolding run_statement
  run_statement-IsValid statement outcome s f h =
      if_rule (λ (x : Ending). All (IsValidRetry o) x.0.retries) p.tx_fails
        (λ _. All-ClaimedRow_valid o c _ h) (λ _. f _ h)

  retry_failed-IsValid :
      (code : RetryError) (s : Store)
      → All (ClaimedRow o c) (p.others s).retries
      → All (IsValidRetry o) (retry_failed p o c code s).0.retries
  unfolding retry_failed dead_letter_claim reschedule_claim
  retry_failed-IsValid code s h = elim (Bool-cases (leb o.max_attempts (c.retry.attempts + 1))) [
    | inl full ↦ rw full (
        run_statement-IsValid _ _ s
          (λ rs k. All-update o c _ rs (λ r. dead_retry-IsValid o c p.clock r full) k) h)
    | inr room ↦ rw room (
        run_statement-IsValid _ _ s
          (λ rs k. All-update o c _ rs (λ r. rescheduled_retry-IsValid o c _ p.clock code r room) k)
          h)
  ]

  delete_retry_claim-IsValid :
      (outcome : RetryOutcome) (s : Store)
      → All (ClaimedRow o c) (p.others s).retries
      → All (IsValidRetry o) (delete_retry_claim p c outcome s).0.retries
  unfolding delete_retry_claim delete_claim
  delete_retry_claim-IsValid outcome s h =
      run_statement-IsValid _ outcome s (λ rs k. All-filter _ _ rs (All-ClaimedRow_valid o c rs k))
        h

  apply_immediate-IsValid :
      (callback : ImageModerationCallback) (s : Store)
      → All (ClaimedRow o c) (p.others s).retries
      → All (IsValidRetry o) (apply_immediate p c callback s).0.retries
  unfolding apply_immediate
  apply_immediate-IsValid callback s h =
      let own : ImageModerationCallback = record callback {
        image_asset_id = c.retry.image_asset_id;
        object_key = c.object_key;
      } in
      let kept = All-ClaimedRow_valid o c (p.others s).retries h in
      elim (Result-cases (apply_image_result p.clock own false (p.others s))) [
        | inr (_, e) ↦ rw (apply_immediate, e) kept
        | inl ((s', r), e) ↦
            let accepted = (apply_image_result-eq_ok p.clock own false (p.others s) s' r e).1 in
            let left = Accepted-retries p.clock own (p.others s) s' accepted in
            rw (apply_immediate, e)
              (if_rule (λ (x : Ending). All (IsValidRetry o) x.0.retries) p.tx_fails (λ _. kept)
                (λ _. subst (All (IsValidRetry o)) (sym left) (All-filter _ _ _ kept)))
      ]

  after_submission-IsValid :
      (answer : Option ImageModerationSubmission) (s : Store)
      → All (ClaimedRow o c) (p.others s).retries
      → All (IsValidRetry o) (after_submission p o c answer s).0.retries
  unfolding after_submission
  after_submission-IsValid none s h = retry_failed-IsValid submit_failed s h
  after_submission-IsValid (some submission) s h = elim (Option-cases submission.immediate) [
    | inr (callback, e) ↦ rw e (apply_immediate-IsValid callback s h)
    | inl e ↦ rw e (
        if_rule (λ (f : Store → Ending). All (IsValidRetry o) (f s).0.retries)
          (is_accepted p o submission) (λ _. delete_retry_claim-IsValid retry_submitted s h)
          (λ _. retry_failed-IsValid invalid_submission s h))
  ]

-- Processing a claim keeps every row of the queue within the CHECK constraints and the budget, and
-- with exactly the budget spent where it is a dead letter, whatever the moderator and the database
-- answer, if the rows that the worker's transaction meets are within them and the rows under its
-- fence still have the attempts of the claim.
pub process_retry_claim-IsValid :
    (p : RetryPorts) (o : RetryOptions) (c : RetryClaim) (s : Store)
    → All (ClaimedRow o c) (p.others s).retries
    → All (IsValidRetry o) (process_retry_claim p o c s).0.retries
unfolding process_retry_claim retry_failed apply_immediate
process_retry_claim-IsValid p o c s h =
    elim c.moderation
      as (λ m.
        All (IsValidRetry o) (process_retry_claim p o (record c { moderation = m }) s).0.retries) [
          | moderation_pending ↦
              after_submission-IsValid p o c (p.submit_image c.retry.image_asset_id c.object_key) s
                h
          | _ ↦ delete_retry_claim-IsValid p o c retry_superseded s h
        ]
