-- ===== src/ImageAccess/Checks/Observe.antt =====
-- `recoverSubmission` and `poll` of internal/service/image_access_worker.go keep the constraints.
use Prim.Native.String.{len}
use danshi_backend.Base.{
  ltb, leb, All, Option, some, List, ℕ, refl, ◌∷◌, [], not, false, suc, ◌+◌, ◌&&◌, ◌≡◌, true, arith,
  ◌-◌, str_eq, String, none,
}
use danshi_backend.ImageAccess.Checks.{Row, Rows, Respects}
use danshi_backend.ImageAccess.Checks.Commit.{
  Good, if-Good, schedule-Good, succeed-Good, dead-Good, retry_submission-Good,
  schedule_unknown-Good,
}
use danshi_backend.ImageAccess.Checks.Submit.{job_fits_of_nonempty}
use danshi_backend.ImageAccess.Delivery.{submitted, ErrorCode, Delivery, Claim, submitting}
use danshi_backend.ImageAccess.Options.{Options}
use danshi_backend.ImageAccess.Ports.{
  canceled, PurgeError, TaskState, Recovery, Reply, Ports, World, processing, success, failed,
  timeout, protocol_unknown, other_state, replied, failed_with,
}
use danshi_backend.ImageAccess.Worker.Commit.{
  is_permanent, terminal_purge_state, was_submit_retryable, with_delivery, now_utc,
}
use danshi_backend.ImageAccess.Worker.Observe.{
  record_job, after_found, after_grace, at_age, after_unattributed, after_recover,
  recover_submission, poll_again, still_running, after_describe, poll,
}

-- The job id that a claim learns in memory is no part of what it shares with its row.
Row-of_job :
    (o : Options) (c : Claim) (job : String) (ds : List Delivery)
    → All (Row o c) ds
    → All (Row o (with_delivery c (record_job job))) ds
Row-of_job o c job [] h = tt
Row-of_job o c job (d ∷ ds) h = (
  record {
    valid = h.0.valid;
    current = h.0.current;
    follows = λ m. record {
      same_state = (h.0.follows m).same_state;
      same_purge = (h.0.follows m).same_purge;
    };
  },
  Row-of_job o c job ds h.1,
)

module _ (o : Options) (p : Ports) where
  after_found-Good :
      (c : Claim) (respects : Respects o p c) (job : String) (s : TaskState) (w : World)
      → c.state ≡ submitting
      → str_eq job "" ≡ false
      → leb (len job) 128 ≡ true
      → Rows o c w.table
      → Good o (after_found p o c job s w)
  unfolding after_found now_utc
  after_found-Good c respects job success w st j l h = succeed-Good o p c respects w h
  after_found-Good c respects job failed w st j l h =
      retry_submission-Good o p c respects _ w (ground arith) h
  after_found-Good c respects job timeout w st j l h =
      retry_submission-Good o p c respects _ w (ground arith) h
  after_found-Good c respects job canceled w st j l h =
      retry_submission-Good o p c respects _ w (ground arith) h
  after_found-Good c respects job _ w st j l h =
      schedule-Good o p c respects submitted _ _ _ (record w { tick = suc w.tick }) h (λ d. refl)
        (λ t d v same. ground (arith, job_fits_of_nonempty job l))

  at_age-Good :
      (c : Claim) (respects : Respects o p c) (r : Recovery) (age : ℕ) (w : World)
      → c.state ≡ submitting
      → Rows o c w.table
      → Good o (at_age p o c r age w)
  unfolding at_age after_grace
  at_age-Good c respects r age w st h =
      let retry =
        λ (code : ErrorCode). retry_submission-Good o p c respects code w (ground arith) h in
      let wait = λ (code : ErrorCode). schedule_unknown-Good o p c respects code w st h in
      if-Good o (r.found && terminal_purge_state r.state) _ _ w (λ _. retry _)
        λ _.
          if-Good o (r.ambiguous && ltb age o.unknown_grace) _ _ w (λ _. wait _)
            λ _. if-Good o (leb o.unknown_grace age) _ _ w (λ _. over) λ _. wait _
    where
      over : Good o (after_grace p o c r w)
      over =
          if-Good o
            (was_submit_retryable c.last_error_code
              && ltb c.submit_attempts o.max_submissions
              && not r.ambiguous)
            _ _ w (λ _. retry_submission-Good o p c respects _ w (ground arith) h)
            λ _. dead-Good o p c respects _ w h

  after_recover-Good :
      (c : Claim) (respects : Respects o p c) (started : ℕ) (r : Reply PurgeError Recovery)
      (w : World)
      → c.state ≡ submitting
      → ((a : Recovery) → r ≡ replied a → leb (len a.job_id) 128 ≡ true)
      → Rows o c w.table
      → Good o (after_recover p o c started r w)
  unfolding after_recover after_unattributed now_utc
  after_recover-Good c respects started (failed_with e) w st ids h =
      if-Good o (is_permanent e) _ _ w (λ _. dead-Good o p c respects _ w h)
        λ _. schedule_unknown-Good o p c respects _ w st h
  after_recover-Good c respects started (replied r) w st ids h =
      if-Good o r.effect_succeeded _ _ w (λ _. succeed-Good o p c respects w h)
        λ _.
          if-Good o (r.found && not (str_eq r.job_id "")) _ _ w
            (λ e.
              after_found-Good (with_delivery c (record_job r.job_id)) respects r.job_id r.state w
                st (ground arith) (ids r refl) (h.0, Row-of_job o c r.job_id w.table h.1))
            λ _. at_age-Good c respects r _ (record w { tick = suc w.tick }) st h

  pub recover_submission-Good :
      (c : Claim) (respects : Respects o p c) (start : Option ℕ) (w : World)
      → c.state ≡ submitting
      → Rows o c w.table
      → Good o (recover_submission p o c start w)
  unfolding recover_submission now_utc
  recover_submission-Good c respects none w st h = dead-Good o p c respects _ w h
  recover_submission-Good c respects (some started) w st h =
      after_recover-Good c respects started _ _ st (λ a e. respects.recovered_ids _ _ _ _ a e) h

  poll_again-Good :
      (c : Claim) (respects : Respects o p c) (code : Option ErrorCode) (w : World)
      → c.state ≡ submitted
      → Rows o c w.table
      → Good o (poll_again p o c code w)
  unfolding poll_again now_utc
  poll_again-Good c respects code w st h =
      schedule-Good o p c respects submitted _ code _ (record w { tick = suc w.tick }) h (λ d. refl)
        (λ t d v s. ground arith)

  still_running-Good :
      (c : Claim) (respects : Respects o p c) (started : ℕ) (w : World)
      → c.state ≡ submitted
      → Rows o c w.table
      → Good o (still_running p o c started w)
  unfolding still_running now_utc
  still_running-Good c respects started w st h =
      let w' = record w { tick = suc w.tick } in
      if-Good o (leb o.pending_timeout (p.clock w.tick - started)) _ _ w'
        (λ _. retry_submission-Good o p c respects _ w' (ground arith) h)
        λ _. poll_again-Good c respects none w' st h

  after_describe-Good :
      (c : Claim) (respects : Respects o p c) (started : ℕ) (r : Reply PurgeError TaskState)
      (w : World)
      → c.state ≡ submitted
      → Rows o c w.table
      → Good o (after_describe p o c started r w)
  unfolding after_describe
  after_describe-Good c respects started (failed_with e) w st h =
      if-Good o (is_permanent e) _ _ w (λ _. dead-Good o p c respects _ w h)
        λ _.
          if-Good o (leb o.max_poll_failures (c.poll_attempts + 1)) _ _ w
            (λ _. dead-Good o p c respects _ w h) λ _. poll_again-Good c respects _ w st h
  after_describe-Good c respects started (replied success) w st h = succeed-Good o p c respects w h
  after_describe-Good c respects started (replied failed) w st h =
      retry_submission-Good o p c respects _ w (ground arith) h
  after_describe-Good c respects started (replied timeout) w st h =
      retry_submission-Good o p c respects _ w (ground arith) h
  after_describe-Good c respects started (replied canceled) w st h =
      retry_submission-Good o p c respects _ w (ground arith) h
  after_describe-Good c respects started (replied processing) w st h =
      still_running-Good c respects started w st h
  after_describe-Good c respects started (replied protocol_unknown) w st h =
      still_running-Good c respects started w st h
  after_describe-Good c respects started (replied (other_state _)) w st h =
      dead-Good o p c respects _ w h

  pub poll-Good :
      (c : Claim) (respects : Respects o p c) (job : Option String) (start : Option ℕ) (w : World)
      → c.state ≡ submitted
      → Rows o c w.table
      → Good o (poll p o c job start w)
  unfolding poll
  poll-Good c respects (some job) (some started) w st h =
      after_describe-Good c respects started _ _ st h
  poll-Good c respects none start w st h = dead-Good o p c respects _ w h
  poll-Good c respects (some job) none w st h = dead-Good o p c respects _ w h
