-- ===== src/Accounts/Rounds.antt =====
-- How the delivery worker of internal/service/email_delivery.go ends: `RunBatch` over and over, with
-- the operations of internal/repository/email_delivery.go.
use danshi_backend.Base.{
  ltb, List, ℕ, none, ◌≤◌, Bool, Option, ◌∷◌, String, some, ◌≡◌, ◌+◌, false, ◌⊎◌, ◌<◌, true, [],
}
use danshi_backend.Accounts.Data.{EmailDelivery, Accounts}
use danshi_backend.Accounts.Deliveries.{
  DeliveryOptions, day, is_unsent, is_deliverable, claim_deliveries, clear_invalid_codes,
}
use danshi_backend.Accounts.Externals.{Externals}
use danshi_backend.Accounts.Sending.{decide_delivery, settle_delivery}

-- A run of the worker: when it claims, when it decides, its token, what the sender answers, and the
-- rows that the clearing of invalid codes takes.
pub record Round : Type 0 where
  pub now : ℕ
  pub later : ℕ
  pub token : String
  pub answer : Bool
  pub chosen : EmailDelivery → Bool

module _ (x : Externals) (o : DeliveryOptions) where
  -- The claims of a batch, one after the other: the two transactions of each.
  abbrev pub handle_claims : Round → List EmailDelivery → Accounts → Accounts
  handle_claims r [] s = s
  handle_claims r (c ∷ cs) s =
      handle_claims r cs (settle_delivery (decide_delivery x o r.answer c r.later s) s)

  abbrev pub handle_batch : Round → Option (Accounts × List EmailDelivery) → Accounts → Accounts
  handle_batch r none s = s
  handle_batch r (some (s1, claims)) s = handle_claims r claims s1

  -- `RunBatch`, where no other transaction is in progress.
  abbrev pub run_round : Round → Accounts → Accounts
  run_round r s =
      handle_batch r
        (claim_deliveries (λ id. false) r.now (r.now + o.lease_duration) r.token o.batch_size
          (clear_invalid_codes r.chosen r.now s))
        s

  abbrev pub run_rounds : List Round → Accounts → Accounts
  run_rounds [] s = s
  run_rounds (r ∷ rs) s = run_rounds rs (run_round r s)

  -- The only delivery is settled (sent, cancelled or given up), or has attempts left and can be
  -- claimed from the time `t` on.
  abbrev pub IsWaiting : ℕ → EmailDelivery → Type 0
  IsWaiting t d = (ltb d.attempts o.max_attempts ≡ true) × (is_deliverable t d ≡ true)

  abbrev pub Progresses : ℕ → ℕ → Accounts → Type 0
  Progresses t left s =
      (d : EmailDelivery) × (s.deliveries ≡ d ∷ [])
      × ((is_unsent d.state ≡ false) ⊎ (IsWaiting t d × (o.max_attempts ≤ d.attempts + left)))

  -- Each round comes a day or more after the one before, and decides while its lease lasts.
  abbrev pub Spaced : ℕ → List Round → Type 0
  Spaced t [] = Unit {0}
  Spaced t (r ∷ rs) = (t ≤ r.now) × (r.later < r.now + o.lease_duration) × Spaced (r.later + day) rs

  -- What is left of a claim: nothing to do, or an attempt less and a time within a day.
  abbrev Settles : ℕ → EmailDelivery → EmailDelivery → Type 0
  Settles later d d' =
      (is_unsent d'.state ≡ false) ⊎ (IsWaiting (later + day) d' × (d'.attempts ≡ d.attempts + 1))
