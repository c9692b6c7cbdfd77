-- ===== src/ImageRetry/Worker.antt =====
-- The worker of internal/service/image_moderation_retry_worker.go. Processing a claim runs one
-- transaction at most; what it calls and does not implement is in `RetryPorts`.
use danshi_backend.Base.{
  leb, if◌then◌else◌, length, is_blank, ok, err, some, not, List, ◌&&◌, String, false, Bool, ◌+◌,
  Option, [], ◌∷◌, ℕ, none, map,
}
use danshi_backend.ImageAccess.Backoff.{retry_backoff}
use danshi_backend.ImageRetry.Queue.{
  RetryClaim, claim_due_retries, reschedule_claim, dead_letter_claim, delete_claim,
}
use danshi_backend.Moderation.Callback.{ImageModerationCallback, apply_image_result}
use danshi_backend.Moderation.Data.{
  ModerationStatus, RetryError, Retry, Store, ApiError, moderation_pending, submit_failed,
  invalid_submission,
}

pub record ImageModerationSubmission : Type 0 where
  pub provider : String
  pub provider_job_id : Option String
  pub immediate : Option ImageModerationCallback

-- The moderator's answer (none: an error or the timeout), the time, what other transactions commit
-- between the claim and the worker's transaction, and whether that transaction fails.
pub record RetryPorts : Type 0 where
  pub submit_image : ℕ → String → Option ImageModerationSubmission
  pub clock : ℕ
  pub others : Store → Store
  pub tx_fails : Bool

-- After `withImageModerationRetryDefaults`, which makes `max_attempts` at least 2.
pub record RetryOptions : Type 0 where
  pub max_attempts : ℕ
  pub base_backoff : ℕ
  pub max_backoff : ℕ

pub data RetryOutcome : Type 0 where
  retry_rescheduled retry_submitted retry_concluded retry_dead retry_superseded : RetryOutcome

pub data RetryFault : Type 0 where
  database : RetryFault
  not_applied : ApiError → RetryFault

abbrev pub Ending : Type 0
Ending = Store × RetryOutcome × Option RetryFault

module _ (p : RetryPorts) where
  -- A transaction around one statement on the queue.
  unfoldable pub run_statement : (List Retry → List Retry × Bool) → RetryOutcome → Store → Ending
  run_statement statement outcome s =
      if p.tx_fails then (p.others s, retry_rescheduled, some database) else (
        record found { retries = (statement found.retries).0 },
        (if (statement found.retries).1 then outcome else retry_superseded),
        none,
      )
    where
      found : Store
      found = p.others s

  unfoldable pub delete_retry_claim : RetryClaim → RetryOutcome → Store → Ending
  unfolding delete_claim
  delete_retry_claim c = run_statement (delete_claim c)

  unfoldable pub apply_immediate : RetryClaim → ImageModerationCallback → Store → Ending
  apply_immediate c callback s = elim (apply_image_result p.clock own false found) [
    | err e ↦ (found, retry_rescheduled, some (not_applied e))
    | ok (s', _) ↦
        if p.tx_fails
        then (found, retry_rescheduled, some database)
        else (s', retry_concluded, none)
  ]
    where
      found : Store
      found = p.others s

      own : ImageModerationCallback
      own = record callback { image_asset_id = c.retry.image_asset_id; object_key = c.object_key }

  module _ (o : RetryOptions) where
    unfoldable pub retry_failed : RetryClaim → RetryError → Store → Ending
    unfolding dead_letter_claim reschedule_claim
    retry_failed c code =
        if leb o.max_attempts attempts
        then run_statement (dead_letter_claim c attempts p.clock) retry_dead
        else run_statement (reschedule_claim c attempts next code p.clock) retry_rescheduled
      where
        attempts : ℕ
        attempts = c.retry.attempts + 1

        next : ℕ
        next = p.clock + retry_backoff attempts o.base_backoff o.max_backoff

    abbrev pub is_accepted : ImageModerationSubmission → Bool
    is_accepted submission =
        not (is_blank submission.provider)
        && (elim submission.provider_job_id [ none ↦ false | some job ↦ not (is_blank job) ])

    -- What follows the moderator's answer.
    unfoldable pub after_submission : RetryClaim → Option ImageModerationSubmission → Store → Ending
    after_submission c none = retry_failed c submit_failed
    after_submission c (some submission) = elim submission.immediate [
      | some callback ↦ apply_immediate c callback
      | none ↦
          if is_accepted submission
          then delete_retry_claim c retry_submitted
          else retry_failed c invalid_submission
    ]

    unfoldable pub process_retry_claim : RetryClaim → Store → Ending
    unfolding after_submission delete_retry_claim
    process_retry_claim c = elim c.moderation [
      | moderation_pending ↦ after_submission c (p.submit_image c.retry.image_asset_id c.object_key)
      | _ ↦ delete_retry_claim c retry_superseded
    ]

pub record RetryWorkerResult : Type 0 where
  pub claimed : ℕ
  pub submitted : ℕ
  pub concluded : ℕ
  pub rescheduled : ℕ
  pub dead_lettered : ℕ
  pub superseded : ℕ

abbrev pub count_outcome : RetryOutcome → RetryWorkerResult → RetryWorkerResult
count_outcome retry_submitted r = record r { submitted = r.submitted + 1 }
count_outcome retry_concluded r = record r { concluded = r.concluded + 1 }
count_outcome retry_dead r = record r { dead_lettered = r.dead_lettered + 1 }
count_outcome retry_superseded r = record r { superseded = r.superseded + 1 }
count_outcome retry_rescheduled r = record r { rescheduled = r.rescheduled + 1 }

-- The claims of a batch in the order in which their transactions commit, each with what it meets.
-- The goroutines of the source share nothing else.
unfoldable pub run_claims :
    RetryOptions
    → List (RetryPorts × RetryClaim)
    → Store
    → RetryWorkerResult
    → Store × RetryWorkerResult
unfolding process_retry_claim
run_claims o [] s r = (s, r)
run_claims o ((p, c) ∷ cs) s r =
    let ending = process_retry_claim p o c s in run_claims o cs ending.0 (count_outcome ending.1 r)

abbrev pub meeting : (RetryClaim → RetryPorts) → RetryClaim → RetryPorts × RetryClaim
meeting meets c = (meets c, c)

abbrev pub no_outcomes : ℕ → RetryWorkerResult
no_outcomes claims = record {
  claimed = claims;
  submitted = 0;
  concluded = 0;
  rescheduled = 0;
  dead_lettered = 0;
  superseded = 0;
}

-- `RunBatch`: the rows that are due are claimed, then each claim is processed with what it `meets`.
unfoldable pub run_batch :
    RetryOptions
    → (ℕ → String × ModerationStatus)
    → (ℕ → Bool)
    → ℕ
    → ℕ
    → String
    → ℕ
    → (RetryClaim → RetryPorts)
    → Store
    → Option (Store × RetryWorkerResult)
unfolding claim_due_retries run_claims
run_batch o asset locked now_t lease_duration token batch_size meets s =
    elim (claim_due_retries asset locked now_t (now_t + lease_duration) token batch_size
      s.retries) [
        | none ↦ none
        | some (rs, cs) ↦ some (
            run_claims o (map (meeting meets) cs) (record s { retries = rs })
              (no_outcomes (length cs)))
      ]
