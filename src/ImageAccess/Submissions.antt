-- ===== src/ImageAccess/Submissions.antt =====
-- How often the worker of internal/service/image_access_worker.go calls the provider's `Submit`.
pub mod Observe
pub mod Bound
use danshi_backend.Base.{
  leb, if◌then◌else◌, if_rule, List, ℕ, ◌∷◌, ◌+◌, ◌≡◌, Bool, refl, suc, true, false, Option, ◌∙◌,
  [],
}
use danshi_backend.ImageAccess.Delivery.{
  State, ErrorCode, Claim, Updates, pending_submit, submitting, submit_exhausted,
  discover_exhausted,
}
use danshi_backend.ImageAccess.Options.{Options}
use danshi_backend.ImageAccess.Ports.{
  Reply, TxError, Call, Ports, World, ◌>>=◌, replied, failed_with, submit_call,
}
use danshi_backend.ImageAccess.Worker.Commit.{
  Outcome, Processed, now_utc, update, release, update_outcome, settle, schedule, succeed, dead,
  retry_submission, schedule_unknown, rescheduled, succeeds, dies,
}

-- The submissions among the outside calls.
abbrev pub submissions : List Call → ℕ
submissions [] = 0
submissions (submit_call _ ∷ cs) = suc (submissions cs)
submissions (_ ∷ cs) = submissions cs

-- An action that submits nothing.
abbrev pub IsSilent {ℓ} : {A : Type ℓ} → (World → A × World) → Type 0
IsSilent m = (w : World) → submissions (m w).1.calls ≡ submissions w.calls

pub if_IsSilent :
    (b : Bool) (m m' : Processed) → IsSilent m → IsSilent m' → IsSilent (if b then m else m')
if_IsSilent true m m' f g = f
if_IsSilent false m m' f g = g

module _ (p : Ports) where
  pub update-IsSilent : (c : Claim) (u : Updates) → IsSilent (update p c u)
  unfolding update
  update-IsSilent c u w =
      if_rule (λ (r : Reply TxError Bool × World). submissions r.1.calls ≡ submissions w.calls)
        (p.tx_fails w.tick) (λ _. refl) λ _. refl

  pub update_outcome-IsSilent :
      (c : Claim) (r : Reply TxError Bool) → IsSilent (update_outcome p c r)
  unfolding update_outcome now_utc release
  update_outcome-IsSilent c (failed_with e) w = refl
  update_outcome-IsSilent c (replied true) w = refl
  update_outcome-IsSilent c (replied false) w =
      if_rule (λ (r : Option TxError × World). submissions r.1.calls ≡ submissions w.calls)
        (p.tx_fails (suc w.tick)) (λ _. refl) λ _. refl

  pub settle-IsSilent :
      (c : Claim) (outcome : Outcome) (r : Reply TxError Bool) → IsSilent (settle p c outcome r)
  unfolding settle
  settle-IsSilent c outcome (failed_with e) w = update_outcome-IsSilent c (failed_with e) w
  settle-IsSilent c outcome (replied true) w = refl
  settle-IsSilent c outcome (replied false) w = update_outcome-IsSilent c (replied false) w

  write-IsSilent :
      (c : Claim) (outcome : Outcome) (u : Updates) → IsSilent (update p c u >>= settle p c outcome)
  write-IsSilent c outcome u w =
      settle-IsSilent c outcome (update p c u w).0 (update p c u w).1 ∙ update-IsSilent c u w

  pub schedule-IsSilent :
      (c : Claim) (s : State) (next : ℕ) (code : Option ErrorCode) (extra : Updates)
      → IsSilent (schedule p c s next code extra)
  unfolding schedule now_utc
  schedule-IsSilent c s next code extra w =
      write-IsSilent c rescheduled _ (record w { tick = suc w.tick })

  pub succeed-IsSilent : (c : Claim) → IsSilent (succeed p c)
  unfolding succeed now_utc
  succeed-IsSilent c w = write-IsSilent c succeeds _ (record w { tick = suc w.tick })

  pub dead-IsSilent : (c : Claim) (code : ErrorCode) → IsSilent (dead p c code)
  unfolding dead now_utc
  dead-IsSilent c code w = write-IsSilent c dies _ (record w { tick = suc w.tick })

module _ (p : Ports) (o : Options) where
  pub retry_submission-IsSilent :
      (c : Claim) (code : ErrorCode) → IsSilent (retry_submission p o c code)
  unfolding retry_submission now_utc
  retry_submission-IsSilent c code =
      if_IsSilent (leb o.max_submissions c.submit_attempts) _ _ (dead-IsSilent p c submit_exhausted)
        λ w. schedule-IsSilent p c pending_submit _ _ _ (record w { tick = suc w.tick })

  pub schedule_unknown-IsSilent :
      (c : Claim) (code : ErrorCode) → IsSilent (schedule_unknown p o c code)
  unfolding schedule_unknown now_utc
  schedule_unknown-IsSilent c code =
      if_IsSilent (leb o.max_unknown_checks (c.unknown_checks + 1)) _ _
        (dead-IsSilent p c discover_exhausted)
        λ w. schedule-IsSilent p c submitting _ _ _ (record w { tick = suc w.tick })
