-- ===== src/ImageAccess/Worker/Commit.antt =====
-- How the worker of internal/service/image_access_worker.go writes to a claimed row: `update`,
-- `updateOutcome`, `schedule`, `succeed`, `dead`, and the two that spend a budget. A handler is an
-- action on the world of `Ports`; it returns the outcome and the database error, if there is one.
use danshi_backend.Base.{
  leb, if◌then◌else◌, or_else, suc, Option, ◌+◌, ◌*◌, true, List, false, some, ℕ, Bool, none,
}
use danshi_backend.ImageAccess.Backoff.{second, minute, retry_backoff}
use danshi_backend.ImageAccess.Delivery.{
  State, ErrorCode, Delivery, Claim, Updates, pending_submit, submitting, succeeded, dead_letter,
  submit_retryable, submit_exhausted, discover_exhausted, provider_failed, provider_timeout,
  provider_canceled,
}
use danshi_backend.ImageAccess.Options.{Options}
use danshi_backend.ImageAccess.Outbox.{update_claim, release_superseded}
use danshi_backend.ImageAccess.Ports.{
  PurgeError, classify, TaskState, Reply, TxError, Ports, M, pure, ◌>>=◌, retryable, permanent,
  failed, timeout, canceled, replied, failed_with, tx_failed,
}

pub data Outcome : Type 0 where
  rescheduled succeeds dies superseded : Outcome

abbrev pub Processed : Type 0
Processed = M (Outcome × Option TxError)

abbrev pub is_permanent : PurgeError → Bool
is_permanent e = elim (classify e) [ permanent ↦ true | _ ↦ false ]

abbrev pub is_retryable : PurgeError → Bool
is_retryable e = elim (classify e) [ retryable ↦ true | _ ↦ false ]

unfoldable pub provider_state_code : TaskState → ErrorCode
provider_state_code timeout = provider_timeout
provider_state_code canceled = provider_canceled
provider_state_code _ = provider_failed

unfoldable pub terminal_purge_state : TaskState → Bool
terminal_purge_state failed = true
terminal_purge_state timeout = true
terminal_purge_state canceled = true
terminal_purge_state _ = false

abbrev pub was_submit_retryable : Option ErrorCode → Bool
was_submit_retryable (some submit_retryable) = true
was_submit_retryable _ = false

-- The claim with some columns changed in memory.
abbrev pub with_delivery : Claim → Updates → Claim
with_delivery c u = record c { delivery = u c.delivery }

module _ (p : Ports) where
  unfoldable pub now_utc : M ℕ
  now_utc w = (p.clock w.tick, record w { tick = suc w.tick })

  -- `update`: one transaction around `UpdateClaim`.
  unfoldable pub update : Claim → Updates → M (Reply TxError Bool)
  update c u w =
      if p.tx_fails w.tick
      then (failed_with tx_failed, record w { table = others w.tick w.table; tick = suc w.tick })
      else (replied written.1, record w { table = written.0; tick = suc w.tick })
    where
      open p use {others}

      written : List Delivery × Bool
      written = update_claim c u (others w.tick w.table)

  -- The transaction around `ReleaseSuperseded`.
  unfoldable pub release : Claim → ℕ → M (Option TxError)
  release c t w =
      if p.tx_fails w.tick
      then (some tx_failed, record w { table = others w.tick w.table; tick = suc w.tick })
      else (
        none,
        record w {
          table =
              release_superseded c.image_asset_id (or_else c.lease_token "") t
                (others w.tick w.table);
          tick = suc w.tick;
        },
      )
    where
      open p use {others}

  unfoldable pub update_outcome : Claim → Reply TxError Bool → Processed
  update_outcome c (failed_with e) = pure (rescheduled, some e)
  update_outcome c (replied true) = pure (rescheduled, none)
  update_outcome c (replied false) = do t ← now_utc; e ← release c t; pure (superseded, e)

  -- `if err != nil || !updated { return w.updateOutcome(…) }; return outcome, nil`.
  unfoldable pub settle : Claim → Outcome → Reply TxError Bool → Processed
  settle c outcome (replied true) = pure (outcome, none)
  settle c outcome (replied false) = update_outcome c (replied false)
  settle c outcome (failed_with e) = update_outcome c (failed_with e)

  unfoldable pub schedule : Claim → State → ℕ → Option ErrorCode → Updates → Processed
  schedule c state next code extra = do
    t ← now_utc
    r ← update c λ d. extra (record d {
      state = state;
      next_attempt_at = some next;
      lease_token = none;
      lease_until = none;
      last_error_code = code;
      updated_at = t;
    })
    settle c rescheduled r

  unfoldable pub succeed : Claim → Processed
  succeed c = do
    t ← now_utc
    r ← update c λ d. record d {
      state = succeeded;
      next_attempt_at = none;
      lease_token = none;
      lease_until = none;
      last_error_code = none;
      completed_at = some t;
      dead_lettered_at = none;
      updated_at = t;
    }
    settle c succeeds r

  unfoldable pub dead : Claim → ErrorCode → Processed
  dead c code = do
    t ← now_utc
    r ← update c λ d. record d {
      state = dead_letter;
      next_attempt_at = none;
      lease_token = none;
      lease_until = none;
      last_error_code = some code;
      completed_at = none;
      dead_lettered_at = some t;
      updated_at = t;
    }
    settle c dies r

module _ (p : Ports) (o : Options) where
  unfoldable pub retry_submission : Claim → ErrorCode → Processed
  retry_submission c code =
      if leb o.max_submissions c.submit_attempts then dead p c submit_exhausted else again
    where
      again : Processed
      again = do
        t ← now_utc p
        schedule p c pending_submit (t + retry_backoff c.submit_attempts (10 * second) (5 * minute))
            (some code)
            λ d. record d {
              provider_job_id = none;
              submission_started_at = none;
              poll_attempts = 0;
              unknown_checks = 0;
            }

  unfoldable pub schedule_unknown : Claim → ErrorCode → Processed
  schedule_unknown c code =
      if leb o.max_unknown_checks checks then dead p c discover_exhausted else again
    where
      checks : ℕ
      checks = c.unknown_checks + 1

      again : Processed
      again = do
        t ← now_utc p
        schedule p c submitting (t + retry_backoff checks (5 * second) (15 * second)) (some code)
            λ d. record d { unknown_checks = checks }
