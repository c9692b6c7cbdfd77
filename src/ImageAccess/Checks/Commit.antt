-- ===== src/ImageAccess/Checks/Commit.antt =====
-- The writes of the worker keep the constraints (`update`, `updateOutcome`, `schedule`, `succeed`,
-- `dead` of internal/service/image_access_worker.go).
use danshi_backend.Base.{
  leb, ◌==◌, if◌then◌else◌, Bool-cases, or_else, refl, Bool, none, suc, String, Option, ◌+◌, inr,
  arith, ◌≡◌, true, some, ◌≢◌, ℕ, inl, false,
}
use danshi_backend.Accounts.Requests.{done}
use danshi_backend.ImageAccess.Checks.{
  needs_no_purge, IsValid, Same, Current, Row, ValidTable, Rows, Respects, Row-IsValid,
}
use danshi_backend.ImageAccess.Delivery.{
  State, ErrorCode, Delivery, Claim, Updates, pending_submit, submitting, submit_exhausted,
  discover_exhausted,
}
use danshi_backend.ImageAccess.Keys.{update_where-IsUnique}
use danshi_backend.ImageAccess.Options.{Options}
use danshi_backend.ImageAccess.Outbox.{
  update_where, affected, fenced, update_claim, held_by, unleased, release_superseded,
}
use danshi_backend.ImageAccess.Ports.{
  ◌>>=◌, Reply, TxError, Ports, World, M, replied, failed_with, tx_failed,
}
use danshi_backend.ImageAccess.Tables.{All-update_where}
use danshi_backend.ImageAccess.Worker.Commit.{
  rescheduled, succeeds, Outcome, Processed, now_utc, update, release, update_outcome, settle,
  schedule, succeed, dead, retry_submission, schedule_unknown, dies,
}

-- The table after an action.
abbrev pub Good {ℓ} : Options → {A : Type ℓ} → A × World → Type 0
Good o r = ValidTable o r.1.table

pub if-Good :
    (o : Options) (b : Bool) (m m' : Processed) (w : World)
    → (b ≡ true → Good o (m w))
    → (b ≡ false → Good o (m' w))
    → Good o ((if b then m else m') w)
if-Good o true m m' w f g = f refl
if-Good o false m m' w f g = g refl

-- A leased row is not terminal, so that it may be given a next attempt.
pub unleased-IsValid :
    (o : Options) (asset : ℕ) (token : String) (t : ℕ) (d : Delivery)
    → IsValid o d
    → held_by asset token d ≡ true
    → IsValid o (unleased t d)
unleased-IsValid o asset token t d v m = ground arith

module _ (o : Options) (p : Ports) where
  release-Good :
      (c : Claim) (respects : Respects o p c) (t : ℕ) (w : World)
      → ValidTable o w.table
      → Good o (release p c t w)
  unfolding release release_superseded
  release-Good c respects t w h =
      let token = or_else c.lease_token "" in
      let kept = respects.keep_valid w.tick w.table h in
      let freed : ValidTable o
          (update_where (held_by c.image_asset_id token) (unleased t) (p.others w.tick w.table)) =
        (
          update_where-IsUnique (held_by c.image_asset_id token) (unleased t)
              (p.others w.tick w.table) (λ d. refl) kept.0,
          All-update_where (IsValid o) (IsValid o) (held_by c.image_asset_id token) (unleased t)
              (p.others w.tick w.table) (unleased-IsValid o c.image_asset_id token t) (λ d v _. v)
              kept.1,
        ) in
      elim (Bool-cases (p.tx_fails w.tick)) [ inl e ↦ rw e kept | inr e ↦ rw e freed ]

  pub update_outcome-Good :
      (c : Claim) (respects : Respects o p c) (r : Reply TxError Bool) (w : World)
      → ValidTable o w.table
      → Good o (update_outcome p c r w)
  unfolding update_outcome now_utc
  update_outcome-Good c respects (failed_with e) w h = h
  update_outcome-Good c respects (replied true) w h = h
  update_outcome-Good c respects (replied false) w h = release-Good c respects _ _ h

  settle-Good :
      (c : Claim) (respects : Respects o p c) (outcome : Outcome) (r : Reply TxError Bool)
      (w : World)
      → ValidTable o w.table
      → Good o (settle p c outcome r w)
  unfolding settle
  settle-Good c respects outcome (failed_with e) w h =
      update_outcome-Good c respects (failed_with e) w h
  settle-Good c respects outcome (replied true) w h = h
  settle-Good c respects outcome (replied false) w h =
      update_outcome-Good c respects (replied false) w h

  -- A fenced write, and what comes after it.
  pub update-Good :
      {A : Type 0} (c c' : Claim) (respects : Respects o p c) (u : Updates)
      (k : Reply TxError Bool → M A) (w : World)
      → Rows o c w.table
      → ((d : Delivery) → (u d).image_asset_id ≡ d.image_asset_id)
      → ((d : Delivery) → IsValid o d → Same c d → IsValid o (u d) × Same c' (u d))
      → ((d : Delivery) → fenced c d ≡ false → fenced c' d ≡ false)
      → ((d : Delivery) → Current c d → Current c' d × Current c' (u d))
      → ((w' : World) → Rows o c' w'.table → Good o (k (replied true) w'))
      → ((r : Reply TxError Bool) (w' : World)
          → ValidTable o w'.table
          → r ≢ replied true
          → Good o (k r w'))
      → Good o ((update p c u >>= k) w)
  unfolding update update_claim
  update-Good c c' respects u k w h own keep key cur done rest =
      let kept = respects.keep_rows c refl refl refl w.tick w.table h in
      let written : Rows o c' (update_where (fenced c) u (p.others w.tick w.table)) = (
        update_where-IsUnique (fenced c) u (p.others w.tick w.table) own kept.0,
        All-update_where (Row o c) (Row o c') (fenced c) u (p.others w.tick w.table)
            (λ d r m.
              let (v, s) = keep d r.valid (r.follows m) in
              record { valid = v; current = (cur d r.current).1; follows = λ _. s })
            (λ d r m. record {
              valid = r.valid;
              current = (cur d r.current).0;
              follows = λ m'. cc (key d m);
            })
            kept.1,
      ) in
      elim (Bool-cases (p.tx_fails w.tick)) [
        | inl e ↦ rw (e, ◌>>=◌, update) (rest _ _ (kept.0, Row-IsValid o c _ kept.1) (λ x. cc))
        | inr e ↦
            rw (e, ◌>>=◌, update)
              (elim (Bool-cases (affected (fenced c) (p.others w.tick w.table) == 1)) [
                | inl one ↦ rw one (done _ written)
                | inr other ↦
                    rw other (rest _ _ (written.0, Row-IsValid o c' _ written.1) (λ x. cc))
              ])
      ]

  -- A last write: only the constraints have to hold after it.
  final-Good :
      (c : Claim) (respects : Respects o p c) (outcome : Outcome) (u : Updates) (w : World)
      → Rows o c w.table
      → ((d : Delivery) → (u d).image_asset_id ≡ d.image_asset_id)
      → ((d : Delivery) → IsValid o d → Same c d → IsValid o (u d))
      → Good o ((update p c u >>= settle p c outcome) w)
  unfolding update update_claim
  final-Good c respects outcome u w h own keep =
      let kept = respects.keep_rows c refl refl refl w.tick w.table h in
      let written : ValidTable o (update_where (fenced c) u (p.others w.tick w.table)) = (
        update_where-IsUnique (fenced c) u (p.others w.tick w.table) own kept.0,
        All-update_where (Row o c) (IsValid o) (fenced c) u (p.others w.tick w.table)
            (λ d r m. keep d r.valid (r.follows m)) (λ d r m. r.valid) kept.1,
      ) in
      elim (Bool-cases (p.tx_fails w.tick)) [
        | inl e ↦
            rw (e, ◌>>=◌, update)
              (settle-Good c respects outcome (failed_with tx_failed) _
                (kept.0, Row-IsValid o c _ kept.1))
        | inr e ↦ rw (e, ◌>>=◌, update) (settle-Good c respects outcome _ _ written)
      ]

  pub schedule-Good :
      (c : Claim) (respects : Respects o p c) (state : State) (next : ℕ) (code : Option ErrorCode)
      (extra : Updates) (w : World)
      → Rows o c w.table
      → ((d : Delivery) → (extra d).image_asset_id ≡ d.image_asset_id)
      → ((t : ℕ) (d : Delivery)
          → IsValid o d
          → Same c d
          → IsValid o (
              extra (record d {
                state = state;
                next_attempt_at = some next;
                lease_token = none;
                lease_until = none;
                last_error_code = code;
                updated_at = t;
              })))
      → Good o (schedule p c state next code extra w)
  unfolding schedule now_utc
  schedule-Good c respects state next code extra w h own keep =
      final-Good c respects rescheduled _ (record w { tick = suc w.tick }) h (λ d. own _)
        (keep (p.clock w.tick))

  pub succeed-Good :
      (c : Claim) (respects : Respects o p c) (w : World)
      → Rows o c w.table
      → Good o (succeed p c w)
  unfolding succeed now_utc
  succeed-Good c respects w h =
      final-Good c respects succeeds _ (record w { tick = suc w.tick }) h (λ d. refl)
        (λ d v s. ground arith)

  pub dead-Good :
      (c : Claim) (respects : Respects o p c) (code : ErrorCode) (w : World)
      → Rows o c w.table
      → Good o (dead p c code w)
  unfolding dead now_utc
  dead-Good c respects code w h =
      final-Good c respects dies _ (record w { tick = suc w.tick }) h (λ d. refl)
        (λ d v s. ground arith)

  -- Submissions are only retried on rows whose cache is to be purged.
  pub retry_submission-Good :
      (c : Claim) (respects : Respects o p c) (code : ErrorCode) (w : World)
      → needs_no_purge c.state ≡ false
      → Rows o c w.table
      → Good o (retry_submission p o c code w)
  unfolding retry_submission now_utc
  retry_submission-Good c respects code w purged h =
      if-Good o (leb o.max_submissions c.submit_attempts) _ _ w
        (λ _. dead-Good c respects submit_exhausted w h)
        λ _.
          schedule-Good c respects pending_submit _ (some code) _ (record w { tick = suc w.tick }) h
            (λ d. refl) (λ t d v s. ground arith)

  pub schedule_unknown-Good :
      (c : Claim) (respects : Respects o p c) (code : ErrorCode) (w : World)
      → c.state ≡ submitting
      → Rows o c w.table
      → Good o (schedule_unknown p o c code w)
  unfolding schedule_unknown now_utc
  schedule_unknown-Good c respects code w st h =
      if-Good o (leb o.max_unknown_checks (c.unknown_checks + 1)) _ _ w
        (λ _. dead-Good c respects discover_exhausted w h)
        λ e.
          schedule-Good c respects submitting _ (some code) _ (record w { tick = suc w.tick }) h
            (λ d. refl) (λ t d v s. ground arith)
