-- ===== src/ImageAccess/Worker/Observe.antt =====
-- `recoverSubmission` and `poll` of internal/service/image_access_worker.go.
use danshi_backend.Base.{
  ltb, leb, if◌then◌else◌, String, str_eq, some, Option, ℕ, none, not, ◌+◌, ◌-◌, ◌*◌, ◌&&◌,
}
use danshi_backend.ImageAccess.Backoff.{second, retry_backoff}
use danshi_backend.ImageAccess.Delivery.{
  ErrorCode, Claim, Updates, submitted, submit_retryable, submit_unknown, discover_retryable,
  discover_permanent, discover_exhausted, poll_retryable, poll_permanent, poll_exhausted,
  provider_pending_timeout,
}
use danshi_backend.ImageAccess.Options.{Options}
use danshi_backend.ImageAccess.Ports.{
  PurgeError, TaskState, Recovery, Reply, Ports, ◌>>=◌, call, processing, success, failed, timeout,
  canceled, protocol_unknown, other_state, replied, failed_with, describe_call, recover_call,
}
use danshi_backend.ImageAccess.Worker.Commit.{
  Processed, is_permanent, provider_state_code, terminal_purge_state, was_submit_retryable,
  with_delivery, now_utc, schedule, succeed, dead, retry_submission, schedule_unknown,
}

abbrev pub record_job : String → Updates
record_job job d = record d { provider_job_id = some job }

module _ (p : Ports) (o : Options) where
  -- The submission was found under its job id.
  unfoldable pub after_found : Claim → String → TaskState → Processed
  after_found c job success = succeed p c
  after_found c job failed = retry_submission p o c (provider_state_code failed)
  after_found c job timeout = retry_submission p o c (provider_state_code timeout)
  after_found c job canceled = retry_submission p o c (provider_state_code canceled)
  after_found c job _ = do
    t ← now_utc p
    schedule p c submitted (t + 2 * second) none (record_job job)

  -- The window is over.
  unfoldable pub after_grace : Claim → Recovery → Processed
  after_grace c r =
      if was_submit_retryable c.last_error_code
        && ltb c.submit_attempts o.max_submissions
        && not r.ambiguous
      then retry_submission p o c submit_retryable
      else dead p c discover_exhausted

  unfoldable pub at_age : Claim → Recovery → ℕ → Processed
  at_age c r age =
      if r.found && terminal_purge_state r.state
      then retry_submission p o c (provider_state_code r.state)
      else (if r.ambiguous && ltb age o.unknown_grace
          then schedule_unknown p o c discover_retryable
          else (if leb o.unknown_grace age
              then after_grace c r
              else schedule_unknown p o c submit_unknown))

  -- No job id: wait while the window is open, then replay only what was refused for certain. The
  -- grace is positive, so an age below zero and the truncated age 0 are both below it.
  unfoldable pub after_unattributed : Claim → ℕ → Recovery → Processed
  after_unattributed c started r = do t ← now_utc p; at_age c r (t - started)

  unfoldable pub after_recover : Claim → ℕ → Reply PurgeError Recovery → Processed
  after_recover c started (failed_with e) =
      if is_permanent e
      then dead p c discover_permanent
      else schedule_unknown p o c discover_retryable
  after_recover c started (replied r) =
      if r.effect_succeeded
      then succeed p c
      else (if r.found && not (str_eq r.job_id "")
          then after_found (with_delivery c (record_job r.job_id)) r.job_id r.state
          else after_unattributed c started r)

  unfoldable pub recover_submission : Claim → Option ℕ → Processed
  recover_submission c none = dead p c discover_permanent
  recover_submission c (some started) = do
    ended ← now_utc p
    r ← call (recover_call c.public_url) (λ n. p.provider_recover n c.public_url started ended)
    after_recover c started r

  -- Every poll counts, answered or not.
  unfoldable pub poll_again : Claim → Option ErrorCode → Processed
  poll_again c code = do
    t ← now_utc p
    schedule p c submitted (t + retry_backoff (c.poll_attempts + 1) (2 * second) (30 * second)) code
        λ d. record d { poll_attempts = c.poll_attempts + 1 }

  -- A task that is still running, or whose report does not fit the protocol.
  unfoldable pub still_running : Claim → ℕ → Processed
  still_running c started = do
    t ← now_utc p
    if leb o.pending_timeout (t - started)
        then retry_submission p o c provider_pending_timeout
        else poll_again c none

  unfoldable pub after_describe : Claim → ℕ → Reply PurgeError TaskState → Processed
  after_describe c started (failed_with e) =
      if is_permanent e
      then dead p c poll_permanent
      else (if leb o.max_poll_failures (c.poll_attempts + 1)
          then dead p c poll_exhausted
          else poll_again c (some poll_retryable))
  after_describe c started (replied success) = succeed p c
  after_describe c started (replied failed) = retry_submission p o c (provider_state_code failed)
  after_describe c started (replied timeout) = retry_submission p o c (provider_state_code timeout)
  after_describe c started (replied canceled) =
      retry_submission p o c (provider_state_code canceled)
  after_describe c started (replied processing) = still_running c started
  after_describe c started (replied protocol_unknown) = still_running c started
  after_describe c started (replied (other_state _)) = dead p c poll_permanent

  unfoldable pub poll : Claim → Option String → Option ℕ → Processed
  poll c (some job) (some started) = do
    r ← call (describe_call c.public_url job) (λ n. p.provider_describe n c.public_url job)
    after_describe c started r
  poll c _ _ = dead p c poll_permanent
