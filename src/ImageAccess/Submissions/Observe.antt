-- ===== src/ImageAccess/Submissions/Observe.antt =====
-- A submission that has started is looked up, and never repeated: `recoverSubmission` and `poll`
-- of internal/service/image_access_worker.go.
use danshi_backend.Base.{
  ltb, leb, String, ◌+◌, ◌-◌, ℕ, suc, ◌≡◌, arith, not, some, ◌⊎◌, ◌&&◌, Option, none, str_eq,
}
use danshi_backend.ImageAccess.Delivery.{
  State, Claim, pending_acl, pending_submit, submitting, submitted, succeeded, dead_letter,
}
use danshi_backend.ImageAccess.Options.{Options}
use danshi_backend.ImageAccess.Ports.{
  PurgeError, TaskState, Recovery, Reply, Ports, World, processing, success, failed, timeout,
  canceled, protocol_unknown, other_state, replied, failed_with,
}
use danshi_backend.ImageAccess.Submissions.{
  submissions, IsSilent, if_IsSilent, schedule-IsSilent, succeed-IsSilent, dead-IsSilent,
  retry_submission-IsSilent, schedule_unknown-IsSilent,
}
use danshi_backend.ImageAccess.Worker.{process, process_claim}
use danshi_backend.ImageAccess.Worker.Commit.{
  is_permanent, terminal_purge_state, was_submit_retryable, now_utc,
}
use danshi_backend.ImageAccess.Worker.Observe.{
  after_found, after_grace, at_age, after_unattributed, after_recover, recover_submission,
  poll_again, still_running, after_describe, poll,
}

module _ (p : Ports) (o : Options) where
  after_found-IsSilent :
      (c : Claim) (job : String) (s : TaskState) → IsSilent (after_found p o c job s)
  unfolding after_found now_utc
  after_found-IsSilent c job success = succeed-IsSilent p c
  after_found-IsSilent c job failed = retry_submission-IsSilent p o c _
  after_found-IsSilent c job timeout = retry_submission-IsSilent p o c _
  after_found-IsSilent c job canceled = retry_submission-IsSilent p o c _
  after_found-IsSilent c job _ =
      λ w. schedule-IsSilent p c submitted _ _ _ (record w { tick = suc w.tick })

  at_age-IsSilent : (c : Claim) (r : Recovery) (age : ℕ) → IsSilent (at_age p o c r age)
  unfolding at_age after_grace
  at_age-IsSilent c r age =
      if_IsSilent (r.found && terminal_purge_state r.state) _ _ (retry_submission-IsSilent p o c _)
        (if_IsSilent (r.ambiguous && ltb age o.unknown_grace) _ _
          (schedule_unknown-IsSilent p o c _)
          (if_IsSilent (leb o.unknown_grace age) _ _
            (if_IsSilent
              (was_submit_retryable c.last_error_code
                && ltb c.submit_attempts o.max_submissions
                && not r.ambiguous)
              _ _ (retry_submission-IsSilent p o c _) (dead-IsSilent p c _))
            (schedule_unknown-IsSilent p o c _)))

  after_recover-IsSilent :
      (c : Claim) (started : ℕ) (r : Reply PurgeError Recovery)
      → IsSilent (after_recover p o c started r)
  unfolding after_recover after_unattributed now_utc
  after_recover-IsSilent c started (failed_with e) =
      if_IsSilent (is_permanent e) _ _ (dead-IsSilent p c _) (schedule_unknown-IsSilent p o c _)
  after_recover-IsSilent c started (replied r) =
      if_IsSilent r.effect_succeeded _ _ (succeed-IsSilent p c) (
        if_IsSilent (r.found && not (str_eq r.job_id "")) _ _
          (after_found-IsSilent _ r.job_id r.state)
          λ w. at_age-IsSilent c r _ (record w { tick = suc w.tick }))

  pub recover_submission-IsSilent :
      (c : Claim) (start : Option ℕ) → IsSilent (recover_submission p o c start)
  unfolding recover_submission now_utc
  recover_submission-IsSilent c none w = dead-IsSilent p c _ w
  recover_submission-IsSilent c (some started) w = after_recover-IsSilent c started _ _

  still_running-IsSilent : (c : Claim) (started : ℕ) → IsSilent (still_running p o c started)
  unfolding still_running poll_again now_utc
  still_running-IsSilent c started w =
      let w' = record w { tick = suc w.tick } in
      if_IsSilent (leb o.pending_timeout (p.clock w.tick - started)) _ _
        (retry_submission-IsSilent p o c _)
        (λ v. schedule-IsSilent p c submitted _ _ _ (record v { tick = suc v.tick })) w'

  after_describe-IsSilent :
      (c : Claim) (started : ℕ) (r : Reply PurgeError TaskState)
      → IsSilent (after_describe p o c started r)
  unfolding after_describe poll_again now_utc
  after_describe-IsSilent c started (failed_with e) =
      if_IsSilent (is_permanent e) _ _ (dead-IsSilent p c _) (
        if_IsSilent (leb o.max_poll_failures (c.poll_attempts + 1)) _ _ (dead-IsSilent p c _)
          λ v. schedule-IsSilent p c submitted _ _ _ (record v { tick = suc v.tick }))
  after_describe-IsSilent c started (replied success) = succeed-IsSilent p c
  after_describe-IsSilent c started (replied failed) = retry_submission-IsSilent p o c _
  after_describe-IsSilent c started (replied timeout) = retry_submission-IsSilent p o c _
  after_describe-IsSilent c started (replied canceled) = retry_submission-IsSilent p o c _
  after_describe-IsSilent c started (replied processing) = still_running-IsSilent c started
  after_describe-IsSilent c started (replied protocol_unknown) = still_running-IsSilent c started
  after_describe-IsSilent c started (replied (other_state _)) = dead-IsSilent p c _

  pub poll-IsSilent :
      (c : Claim) (job : Option String) (start : Option ℕ) → IsSilent (poll p o c job start)
  unfolding poll
  poll-IsSilent c (some job) (some started) w = after_describe-IsSilent c started _ _
  poll-IsSilent c none start w = dead-IsSilent p c _ w
  poll-IsSilent c (some job) none w = dead-IsSilent p c _ w

-- A claim whose submission has started, so that the provider may have accepted it already, is only
-- looked up: processing it calls `Submit` not once, whatever the provider answers.
pub process_claim_silent :
    (p : Ports) (o : Options) (c : Claim)
    → (c.state ≡ submitting) ⊎ (c.state ≡ submitted)
    → (w : World) → submissions (process_claim p o c w).1.calls ≡ submissions w.calls
unfolding process_claim
process_claim_silent p o c started w = go c.state started
  where
    go :
        (s : State)
        → (s ≡ submitting) ⊎ (s ≡ submitted)
        → submissions (process p o s c w).1.calls ≡ submissions w.calls
    go submitting h = unfold process in recover_submission-IsSilent p o c _ w
    go submitted h = unfold process in poll-IsSilent p o c _ _ w
    go pending_acl h = ground arith
    go pending_submit h = ground arith
    go succeeded h = ground arith
    go dead_letter h = ground arith
