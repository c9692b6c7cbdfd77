-- ===== src/ImageAccess/Worker.antt =====
-- `processClaim` of internal/service/image_access_worker.go.
pub mod Commit
pub mod Submit
pub mod Observe
use Commit.{Processed, dead}
use Submit.{apply_acl, submit}
use Observe.{recover_submission, poll}
use danshi_backend.ImageAccess.Delivery.{
  State, Claim, pending_acl, pending_submit, submitting, submitted, poll_permanent,
}
use danshi_backend.ImageAccess.Options.{Options}
use danshi_backend.ImageAccess.Ports.{Ports}

module _ (p : Ports) (o : Options) where
  -- The `switch` on the claim's state; the last clause is its default.
  unfoldable pub process : State → Claim → Processed
  process pending_acl c = apply_acl p o c
  process pending_submit c = submit p o c
  process submitting c = recover_submission p o c c.submission_started_at
  process submitted c = poll p o c c.provider_job_id c.submission_started_at
  process _ c = dead p c poll_permanent

  unfoldable pub process_claim : Claim → Processed
  process_claim c = process c.state c
