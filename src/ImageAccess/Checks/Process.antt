-- ===== src/ImageAccess/Checks/Process.antt =====
-- `processClaim` of internal/service/image_access_worker.go as a whole, against the constraints.
use danshi_backend.Base.{refl, ◌≡◌, arith}
use danshi_backend.ImageAccess.Checks.{ValidTable, Rows, Respects}
use danshi_backend.ImageAccess.Checks.Commit.{Good, dead-Good}
use danshi_backend.ImageAccess.Checks.Observe.{recover_submission-Good, poll-Good}
use danshi_backend.ImageAccess.Checks.Submit.{submit-Good, apply_acl-Good}
use danshi_backend.ImageAccess.Delivery.{
  submitted, State, Claim, pending_acl, pending_submit, submitting, succeeded, dead_letter,
  poll_permanent,
}
use danshi_backend.ImageAccess.Options.{Options}
use danshi_backend.ImageAccess.Ports.{Ports, World}
use danshi_backend.ImageAccess.Worker.{process, process_claim}

-- Processing a claim leaves every row of the table within the CHECK constraints and the budgets, and
-- the keys unique, whatever the storage answers and the provider answers with a job id of at most 128
-- characters, whichever transactions fail, and whatever other transactions do meanwhile, as long as
-- those keep the keys and the constraints, do not set a row that this claim's token holds back before
-- the claim's generation, and do not rewrite the state or the purge flag of a row that stays under the
-- asset, the generation and the token of the claim. Before, the same holds of the rows: they are within
-- the constraints, a row that the token holds is of the claim's generation or a later one, and a row
-- under the fence has the claim's state and purge flag.
pub process_claim-IsValid :
    (o : Options) (p : Ports) (c : Claim) (respects : Respects o p c) (w : World)
    → Rows o c w.table
    → ValidTable o (process_claim p o c w).1.table
unfolding process_claim
process_claim-IsValid o p c respects w h = process-Good c.state refl
  where
    process-Good : (s : State) → c.state ≡ s → Good o (process p o s c w)
    process-Good pending_acl e = unfold process in apply_acl-Good o p c respects w e h
    process-Good pending_submit e = unfold process in submit-Good o p c respects w (ground arith) h
    process-Good submitting e = unfold process in recover_submission-Good o p c respects _ w e h
    process-Good submitted e = unfold process in poll-Good o p c respects _ _ w e h
    process-Good succeeded e = unfold process in dead-Good o p c respects poll_permanent w h
    process-Good dead_letter e = unfold process in dead-Good o p c respects poll_permanent w h
