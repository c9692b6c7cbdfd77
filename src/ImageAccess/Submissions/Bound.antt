-- ===== src/ImageAccess/Submissions/Bound.antt =====
-- The submissions of one `processClaim` of internal/service/image_access_worker.go are bounded.
use danshi_backend.Base.{
  leb, if◌then◌else◌, Bool-cases, ◌≤◌, Bool, ◌+◌, ◌*◌, ℕ, suc, arith, not, ◌∷◌, inr, true, some,
  false, inl, none, str_eq,
}
use danshi_backend.ImageAccess.Backoff.{second}
use danshi_backend.ImageAccess.Delivery.{
  State, Claim, Updates, pending_acl, pending_submit, submitting, submitted, succeeded, dead_letter,
  acl_exhausted, submit_exhausted, poll_permanent,
}
use danshi_backend.ImageAccess.Options.{Options}
use danshi_backend.ImageAccess.Ports.{
  PurgeError, Submission, Reply, TxError, Ports, World, replied, failed_with, set_access,
  submit_call,
}
use danshi_backend.ImageAccess.Submissions.{
  submissions, IsSilent, if_IsSilent, update-IsSilent, update_outcome-IsSilent, schedule-IsSilent,
  succeed-IsSilent, dead-IsSilent,
}
use danshi_backend.ImageAccess.Submissions.Observe.{recover_submission-IsSilent, poll-IsSilent}
use danshi_backend.ImageAccess.Worker.{process, process_claim}
use danshi_backend.ImageAccess.Worker.Commit.{
  Processed, is_permanent, with_delivery, now_utc, update, dead,
}
use danshi_backend.ImageAccess.Worker.Observe.{recover_submission, poll}
use danshi_backend.ImageAccess.Worker.Submit.{
  after_submit, after_started, submit, after_ready, after_access, apply_acl,
}

module _ (p : Ports) (o : Options) where
  after_submit-IsSilent :
      (c : Claim) (r : Reply PurgeError Submission) → IsSilent (after_submit p o c r)
  unfolding after_submit now_utc
  after_submit-IsSilent c (failed_with e) =
      if_IsSilent (is_permanent e) _ _ (dead-IsSilent p c _)
        λ w. schedule-IsSilent p c submitting _ _ _ (record w { tick = suc w.tick })
  after_submit-IsSilent c (replied s) =
      if_IsSilent (str_eq s.job_id "") _ _
        (λ w. schedule-IsSilent p c submitting _ _ _ (record w { tick = suc w.tick }))
        λ w. schedule-IsSilent p c submitted _ _ _ (record w { tick = suc w.tick })

  -- The submissions that an attempt may make: one, as long as the budget is not used up.
  abbrev pub allowance : Claim → ℕ
  allowance c = if leb o.max_submissions c.submit_attempts then 0 else 1

  after_started_bound :
      (c : Claim) (started : ℕ) (r : Reply TxError Bool) (w : World)
      → submissions (after_started p o c started r w).1.calls ≤ submissions w.calls + 1
  unfolding after_started
  after_started_bound c started (failed_with e) w =
      omega (arith, update_outcome-IsSilent p c (failed_with e) w)
  after_started_bound c started (replied false) w =
      omega (arith, update_outcome-IsSilent p c (replied false) w)
  after_started_bound c started (replied true) w =
      let w' = record w { tick = suc w.tick; calls = submit_call c.public_url ∷ w.calls } in
      let c' = with_delivery c λ d. record d {
        state = submitting;
        submit_attempts = d.submit_attempts + 1;
        submission_started_at = some started;
      } in
      omega (arith, after_submit-IsSilent c' (p.provider_submit w.tick c.public_url) w')

  submit_bound :
      (c : Claim) (w : World)
      → submissions (submit p o c w).1.calls ≤ submissions w.calls + allowance c
  unfolding submit now_utc
  submit_bound c w = elim (Bool-cases (leb o.max_submissions c.submit_attempts)) [
    | inl e ↦ rw e (omega (arith, dead-IsSilent p c submit_exhausted w))
    | inr e ↦
        let started = p.clock w.tick in
        let u : Updates = λ d. record d {
          state = submitting;
          submit_attempts = c.submit_attempts + 1;
          submission_started_at = some started;
          next_attempt_at = some (started + 5 * second);
          last_error_code = none;
          updated_at = started;
        } in
        let w' = record w { tick = suc w.tick } in
        let (r, w'') = update p c u w' in
        rw e (omega (arith, after_started_bound c started r w'', update-IsSilent p c u w'))
  ]

  after_ready_bound :
      (c : Claim) (r : Reply TxError Bool) (w : World)
      → submissions (after_ready p o c r w).1.calls ≤ submissions w.calls + allowance c
  unfolding after_ready
  after_ready_bound c (failed_with e) w =
      omega (arith, update_outcome-IsSilent p c (failed_with e) w)
  after_ready_bound c (replied false) w =
      omega (arith, update_outcome-IsSilent p c (replied false) w)
  after_ready_bound c (replied true) w =
      submit_bound (with_delivery c λ d. record d { state = pending_submit }) w

  le_of_silent :
      (c : Claim) (m : Processed) (w : World)
      → IsSilent m
      → submissions (m w).1.calls ≤ submissions w.calls + allowance c
  le_of_silent c m w h = omega (arith, h w)

  refused-IsSilent : (c : Claim) (e : Unit {0}) → IsSilent (after_access p o c (failed_with e))
  unfolding after_access now_utc
  refused-IsSilent c e =
      if_IsSilent (leb o.max_acl_attempts (c.acl_attempts + 1)) _ _
        (dead-IsSilent p c acl_exhausted)
        λ v. schedule-IsSilent p c pending_acl _ _ _ (record v { tick = suc v.tick })

  after_access_bound :
      (c : Claim) (r : Reply (Unit {0}) (Unit {0})) (w : World)
      → submissions (after_access p o c r w).1.calls ≤ submissions w.calls + allowance c
  unfolding after_access now_utc
  after_access_bound c (failed_with e) w =
      le_of_silent c (after_access p o c (failed_with e)) w (refused-IsSilent c e)
  after_access_bound c (replied _) w = elim (Bool-cases (not c.purge_required)) [
    | inl e ↦ rw e (omega (arith, succeed-IsSilent p c w))
    | inr e ↦
        let u : Updates = λ d. record d {
          state = pending_submit;
          next_attempt_at = some (p.clock w.tick);
          last_error_code = none;
          updated_at = p.clock (suc w.tick);
        } in
        let w' = record w { tick = suc (suc w.tick) } in
        let (r, w'') = update p c u w' in
        rw e (omega (arith, after_ready_bound c r w'', update-IsSilent p c u w'))
  ]

  process_bound :
      (s : State) (c : Claim) (w : World)
      → submissions (process p o s c w).1.calls ≤ submissions w.calls + allowance c
  unfolding process apply_acl
  process_bound pending_acl c w =
      after_access_bound c _
        (record w { tick = suc w.tick; calls = set_access c.object_key c.desired_public ∷ w.calls })
  process_bound pending_submit c w = submit_bound c w
  process_bound submitting c w =
      le_of_silent c (recover_submission p o c c.submission_started_at) w
        (recover_submission-IsSilent p o c c.submission_started_at)
  process_bound submitted c w =
      le_of_silent c (poll p o c c.provider_job_id c.submission_started_at) w
        (poll-IsSilent p o c c.provider_job_id c.submission_started_at)
  process_bound succeeded c w =
      le_of_silent c (dead p c poll_permanent) w (dead-IsSilent p c poll_permanent)
  process_bound dead_letter c w =
      le_of_silent c (dead p c poll_permanent) w (dead-IsSilent p c poll_permanent)

-- Processing any claim calls `Submit` at most once, and not at all when the claim's attempts have
-- reached the budget of submissions.
pub process_claim-submissions :
    (p : Ports) (o : Options) (c : Claim) (w : World)
    → submissions (process_claim p o c w).1.calls
      ≤ submissions w.calls + (if leb o.max_submissions c.submit_attempts then 0 else 1)
unfolding process_claim
process_claim-submissions p o c w = process_bound p o c.state c w
