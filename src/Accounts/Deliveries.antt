-- ===== src/Accounts/Deliveries.antt =====
-- The delivery of one-time codes: internal/repository/email_delivery.go and
-- internal/service/email_delivery.go. Each transaction of the worker is an operation of its own.
use danshi_backend.Base.{
  ltb, leb, ◌==◌, if◌then◌else◌, is_some, or_else, take, filter, any, ℤ, pos, negsuc, find_first,
  update_rows, [], ℕ, ◌&&◌, suc, ◌-◌, ◌||◌, false, none, ◌*◌, ◌∷◌, List, some, Bool, String, Option,
  str_eq, map, zero, not, true,
}
use danshi_backend.Accounts.Codes.{max_failed_attempts, drop_code}
use danshi_backend.Accounts.Data.{
  EmailVerificationCode, DeliveryState, EmailDelivery, Accounts, delivery_pending, delivery_sending,
}
use danshi_backend.ImageAccess.Backoff.{second}

pub record DeliveryOptions : Type 0 where
  pub batch_size : ℕ
  pub lease_duration : ℕ
  pub max_attempts : ℕ
  pub retry_delay : ℕ

-- What `NewVerificationEmailDeliveryWorker` is given; its timeout bounds a call that is no step here.
pub record RawDeliveryOptions : Type 0 where
  pub batch_size : ℤ
  pub lease_duration : ℤ
  pub max_attempts : ℤ
  pub retry_delay : ℤ

abbrev pub positive_or : ℕ → ℤ → ℕ
positive_or value (pos zero) = value
positive_or value (pos (suc n)) = suc n
positive_or value (negsuc n) = value

unfoldable pub delivery_options : RawDeliveryOptions → DeliveryOptions
delivery_options raw = record {
  batch_size = let size = positive_or 4 raw.batch_size in if ltb 100 size then 4 else size;
  lease_duration = positive_or (60 * second) raw.lease_duration;
  max_attempts = positive_or 8 raw.max_attempts;
  retry_delay = positive_or (30 * second) raw.retry_delay;
}

abbrev pub day : ℕ
day = 24 * (3600 * second)

-- The loop of `retryDelay`, over the rounds that are left.
unfoldable pub doubled : ℕ → ℕ → ℕ
doubled zero delay = delay
doubled (suc rounds) delay =
    let rest = doubled rounds (delay * 2) in if ltb delay day then rest else delay

-- `retryDelay`.
unfoldable pub retry_delay_of : ℕ → ℕ → ℕ
unfolding doubled
retry_delay_of base attempts =
    let delay = doubled (attempts - 1) base in if ltb day delay then day else delay

abbrev pub is_sending : DeliveryState → Bool
is_sending delivery_sending = true
is_sending _ = false

abbrev pub is_unsent : DeliveryState → Bool
is_unsent delivery_pending = true
is_unsent delivery_sending = true
is_unsent _ = false

abbrev pub reached_by : ℕ → Option ℕ → Bool
reached_by now none = false
reached_by now (some t) = leb t now

abbrev pub lease_over : ℕ → Option ℕ → Bool
lease_over now none = true
lease_over now (some t) = leb t now

-- The WHERE clause of `ClaimDue`.
abbrev pub is_deliverable : ℕ → EmailDelivery → Bool
is_deliverable now d =
    is_unsent d.state && reached_by now d.next_attempt_at && lease_over now d.lease_until

abbrev pub deliver_before : EmailDelivery → EmailDelivery → Bool
deliver_before c d =
    ltb (or_else c.next_attempt_at 0) (or_else d.next_attempt_at 0)
    || or_else c.next_attempt_at 0 == or_else d.next_attempt_at 0 && ltb c.id d.id

unfoldable pub insert_delivery : EmailDelivery → List EmailDelivery → List EmailDelivery
insert_delivery d [] = d ∷ []
insert_delivery d (c ∷ cs) = if deliver_before d c then d ∷ c ∷ cs else c ∷ insert_delivery d cs

unfoldable pub order_deliveries : List EmailDelivery → List EmailDelivery
unfolding insert_delivery
order_deliveries [] = []
order_deliveries (d ∷ ds) = insert_delivery d (order_deliveries ds)

-- The rows that `ClaimDue` takes: due, not locked by a transaction in progress, the first `limit`.
unfoldable pub delivery_candidates : (ℕ → Bool) → ℕ → ℕ → List EmailDelivery → List EmailDelivery
unfolding order_deliveries
delivery_candidates locked now limit ds =
    take limit (order_deliveries (filter (λ d. is_deliverable now d && not (locked d.id)) ds))

abbrev pub leased_delivery : ℕ → String → ℕ → EmailDelivery → EmailDelivery
leased_delivery until token now d = record d {
  state = delivery_sending;
  lease_token = some token;
  lease_until = some until;
  updated_at = now;
}

abbrev pub is_among_deliveries : List EmailDelivery → EmailDelivery → Bool
is_among_deliveries cs d = any (λ (c : EmailDelivery). c.id == d.id) cs

-- `ClaimDue`: the deliveries are left as leased; the claims are the candidates, leased.
unfoldable pub claim_deliveries :
    (ℕ → Bool) → ℕ → ℕ → String → ℕ → Accounts → Option (Accounts × List EmailDelivery)
unfolding delivery_candidates
claim_deliveries locked now until token limit s =
    if limit == 0 || ltb 1000 limit
    then none
    else (let cs = delivery_candidates locked now limit s.deliveries in
        some (
          record s {
            deliveries =
                update_rows (is_among_deliveries cs) (leased_delivery until token now) s.deliveries;
          },
          map (leased_delivery until token now) cs,
        ))

-- A code that `ClearInvalidCodes` clears.
abbrev pub is_invalid : ℕ → List EmailVerificationCode → EmailDelivery → Bool
is_invalid now codes d =
    is_some d.code
    && elim (find_first (λ (c : EmailVerificationCode). c.id == d.challenge_id) codes) [
      | none ↦ false
      | some c ↦
          leb c.expires_at now
          || is_some c.consumed_at
          || not (str_eq c.code_digest d.code_digest)
          || leb max_failed_attempts c.failed_attempts
    ]

-- `ClearInvalidCodes`, on the rows that its LIMIT and the locks leave to it.
unfoldable pub clear_invalid_codes : (EmailDelivery → Bool) → ℕ → Accounts → Accounts
clear_invalid_codes chosen now s = record s {
  deliveries = update_rows (λ d. is_invalid now s.codes d && chosen d) drop_code s.deliveries;
}
