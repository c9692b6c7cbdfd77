-- ===== src/ImageAccess/Worker/Submit.antt =====
-- `applyACL` and `submit` of internal/service/image_access_worker.go.
use danshi_backend.Base.{
  leb, if◌then◌else◌, ℕ, true, some, ◌*◌, ◌+◌, str_eq, none, Bool, not, false,
}
use danshi_backend.ImageAccess.Backoff.{second, minute, retry_backoff}
use danshi_backend.ImageAccess.Delivery.{
  Claim, pending_acl, pending_submit, submitting, submitted, acl_retryable, acl_exhausted,
  submit_retryable, submit_unknown, submit_permanent, submit_exhausted, provider_failed,
}
use danshi_backend.ImageAccess.Options.{Options}
use danshi_backend.ImageAccess.Ports.{
  PurgeError, Submission, Reply, TxError, Ports, ◌>>=◌, call, replied, failed_with, set_access,
  submit_call,
}
use danshi_backend.ImageAccess.Worker.Commit.{
  Processed, is_permanent, is_retryable, with_delivery, now_utc, update, update_outcome, schedule,
  succeed, dead,
}

module _ (p : Ports) (o : Options) where
  -- What `submit` does with the provider's answer.
  unfoldable pub after_submit : Claim → Reply PurgeError Submission → Processed
  after_submit c (failed_with e) = if is_permanent e then dead p c submit_permanent else (do
    t ← now_utc p
    schedule p c submitting (t + 5 * second)
        (some (if is_retryable e then submit_retryable else submit_unknown)) λ d. d)
  after_submit c (replied s) =
      if str_eq s.job_id ""
      then (do t ← now_utc p; schedule p c submitting (t + 5 * second) (some submit_unknown) λ d. d)
      else (do
        t ← now_utc p
        schedule p c submitted (t + 2 * second) (if s.partial then some provider_failed else none)
            λ d. record d { provider_job_id = some s.job_id })

  -- The provider is called once the row says that a submission has started.
  unfoldable pub after_started : Claim → ℕ → Reply TxError Bool → Processed
  after_started c started (failed_with e) = update_outcome p c (failed_with e)
  after_started c started (replied false) = update_outcome p c (replied false)
  after_started c started (replied true) = do
    s ← call (submit_call c.public_url) (λ n. p.provider_submit n c.public_url)
    after_submit
        (with_delivery c λ d. record d {
          state = submitting;
          submit_attempts = d.submit_attempts + 1;
          submission_started_at = some started;
        })
        s

  unfoldable pub submit : Claim → Processed
  submit c = if leb o.max_submissions c.submit_attempts then dead p c submit_exhausted else start
    where
      start : Processed
      start = do
        started ← now_utc p
        r ← update p c λ d. record d {
          state = submitting;
          submit_attempts = c.submit_attempts + 1;
          submission_started_at = some started;
          next_attempt_at = some (started + 5 * second);
          last_error_code = none;
          updated_at = started;
        }
        after_started c started r

  unfoldable pub after_ready : Claim → Reply TxError Bool → Processed
  after_ready c (failed_with e) = update_outcome p c (failed_with e)
  after_ready c (replied false) = update_outcome p c (replied false)
  after_ready c (replied true) = submit (with_delivery c λ d. record d { state = pending_submit })

  unfoldable pub after_access : Claim → Reply (Unit {0}) (Unit {0}) → Processed
  after_access c (failed_with _) =
      if leb o.max_acl_attempts attempts then dead p c acl_exhausted else again
    where
      attempts : ℕ
      attempts = c.acl_attempts + 1

      again : Processed
      again = do
        t ← now_utc p
        schedule p c pending_acl (t + retry_backoff attempts second (5 * minute))
            (some acl_retryable) λ d. record d { acl_attempts = attempts }
  after_access c (replied _) = if not c.purge_required then succeed p c else ready
    where
      ready : Processed
      ready = do
        t ← now_utc p
        t' ← now_utc p
        r ← update p c λ d. record d {
          state = pending_submit;
          next_attempt_at = some t;
          last_error_code = none;
          updated_at = t';
        }
        after_ready c r

  -- The timeout of the call, `ACLTimeout`, is one way for the port to answer with an error.
  unfoldable pub apply_acl : Claim → Processed
  apply_acl c = do
    r ←
        call (set_access c.object_key c.desired_public)
          (λ n. p.set_object_public_access n c.object_key c.desired_public)
    after_access c r
