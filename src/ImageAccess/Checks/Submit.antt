-- ===== src/ImageAccess/Checks/Submit.antt =====
-- `applyACL` and `submit` of internal/service/image_access_worker.go keep the constraints.
use Prim.Native.String.{len}
use danshi_backend.Base.{
  leb, some, ℕ, refl, not, false, suc, ◌+◌, ◌≢◌, ◌≡◌, true, arith, Bool, str_eq, String,
}
use danshi_backend.ImageAccess.Checks.{needs_no_purge, job_fits, ValidTable, Rows, Respects}
use danshi_backend.ImageAccess.Checks.Commit.{
  Good, if-Good, update_outcome-Good, update-Good, schedule-Good, succeed-Good, dead-Good,
}
use danshi_backend.ImageAccess.Delivery.{
  submitted, Claim, pending_acl, pending_submit, submitting, acl_exhausted, submit_permanent,
  submit_exhausted,
}
use danshi_backend.ImageAccess.Options.{Options}
use danshi_backend.ImageAccess.Ports.{
  PurgeError, Submission, Reply, TxError, Ports, World, replied, failed_with,
}
use danshi_backend.ImageAccess.Worker.Commit.{is_permanent, with_delivery, now_utc}
use danshi_backend.ImageAccess.Worker.Submit.{
  after_submit, after_started, submit, after_ready, after_access, apply_acl,
}

-- A job id that the provider gives, that is not too long and that is not empty.
pub job_fits_of_nonempty :
    (job : String) → leb (len job) 128 ≡ true → str_eq job "" ≡ false → job_fits (some job) ≡ true
job_fits_of_nonempty job l e = ground arith

module _ (o : Options) (p : Ports) where
  after_submit-Good :
      (c : Claim) (respects : Respects o p c) (s : Reply PurgeError Submission) (w : World)
      → c.state ≡ submitting
      → ((a : Submission) → s ≡ replied a → leb (len a.job_id) 128 ≡ true)
      → Rows o c w.table
      → Good o (after_submit p o c s w)
  unfolding after_submit now_utc
  after_submit-Good c respects (failed_with e) w st ids h =
      if-Good o (is_permanent e) _ _ w (λ _. dead-Good o p c respects submit_permanent w h)
        λ _.
          schedule-Good o p c respects submitting _ _ _ (record w { tick = suc w.tick }) h
            (λ d. refl) (λ t d v s. ground arith)
  after_submit-Good c respects (replied s) w st ids h =
      if-Good o (str_eq s.job_id "") _ _ w
        (λ _.
          schedule-Good o p c respects submitting _ _ _ (record w { tick = suc w.tick }) h
            (λ d. refl) (λ t d v s. ground arith))
        λ e.
          schedule-Good o p c respects submitted _ _ _ (record w { tick = suc w.tick }) h
            (λ d. refl) (λ t d v same. ground (arith, job_fits_of_nonempty s.job_id (ids s refl)))

  -- Where the start was not written, the provider is not called.
  after_started-rest :
      (c : Claim) (respects : Respects o p c) (started : ℕ) (r : Reply TxError Bool) (w : World)
      → ValidTable o w.table
      → r ≢ replied true
      → Good o (after_started p o c started r w)
  unfolding after_started
  after_started-rest c respects started (failed_with e) w h other =
      update_outcome-Good o p c respects (failed_with e) w h
  after_started-rest c respects started (replied false) w h other =
      update_outcome-Good o p c respects (replied false) w h
  after_started-rest c respects started (replied true) w h other = absurd (other refl)

  pub submit-Good :
      (c : Claim) (respects : Respects o p c) (w : World)
      → needs_no_purge c.state ≡ false
      → Rows o c w.table
      → Good o (submit p o c w)
  unfolding submit now_utc after_started
  submit-Good c respects w purged h =
      if-Good o (leb o.max_submissions c.submit_attempts) _ _ w
        (λ _. dead-Good o p c respects submit_exhausted w h)
        λ e.
          let started = p.clock w.tick in
          let c' = with_delivery c λ d. record d {
            state = submitting;
            submit_attempts = d.submit_attempts + 1;
            submission_started_at = some started;
          } in
          update-Good o p c c' respects _ (after_started p o c started)
            (record w { tick = suc w.tick }) h (λ d. refl) (λ d v s. (ground arith, ground arith))
            (λ d m. m) (λ d m. (m, m))
            (λ w' h'.
              after_submit-Good c' respects _ _ refl (λ a e. respects.submitted_ids _ _ a e) h')
            (after_started-rest c respects started)

  after_ready-rest :
      (c : Claim) (respects : Respects o p c) (r : Reply TxError Bool) (w : World)
      → ValidTable o w.table
      → r ≢ replied true
      → Good o (after_ready p o c r w)
  unfolding after_ready
  after_ready-rest c respects (failed_with e) w h other =
      update_outcome-Good o p c respects (failed_with e) w h
  after_ready-rest c respects (replied false) w h other =
      update_outcome-Good o p c respects (replied false) w h
  after_ready-rest c respects (replied true) w h other = absurd (other refl)

  after_access-Good :
      (c : Claim) (respects : Respects o p c) (r : Reply (Unit {0}) (Unit {0})) (w : World)
      → c.state ≡ pending_acl
      → Rows o c w.table
      → Good o (after_access p o c r w)
  unfolding after_access now_utc after_ready
  after_access-Good c respects (failed_with _) w st h =
      if-Good o (leb o.max_acl_attempts (c.acl_attempts + 1)) _ _ w
        (λ _. dead-Good o p c respects acl_exhausted w h)
        λ e.
          schedule-Good o p c respects pending_acl _ _ _ (record w { tick = suc w.tick }) h
            (λ d. refl) (λ t d v s. ground arith)
  after_access-Good c respects (replied _) w st h =
      if-Good o (not c.purge_required) _ _ w (λ _. succeed-Good o p c respects w h)
        λ e.
          let c' = with_delivery c λ d. record d { state = pending_submit } in
          update-Good o p c c' respects _ (after_ready p o c) (record w { tick = suc (suc w.tick) })
            h (λ d. refl) (λ d v s. (ground arith, ground arith)) (λ d m. m) (λ d m. (m, m))
            (λ w' h'. submit-Good c' respects w' refl h') (after_ready-rest c respects)

  pub apply_acl-Good :
      (c : Claim) (respects : Respects o p c) (w : World)
      → c.state ≡ pending_acl
      → Rows o c w.table
      → Good o (apply_acl p o c w)
  unfolding apply_acl
  apply_acl-Good c respects w st h = after_access-Good c respects _ _ st h
