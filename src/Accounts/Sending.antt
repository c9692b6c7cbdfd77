-- ===== src/Accounts/Sending.antt =====
-- The worker on one claim: internal/service/email_delivery.go, with RefreshClaim and UpdateClaim of
-- internal/repository/email_delivery.go.
use danshi_backend.Base.{
  ltb, leb, ◌==◌, if◌then◌else◌, is_some, or_else, any, find_first, update_rows, count_rows, ℕ,
  str_eq, Option, false, true, ◌+◌, Bool, none, ◌&&◌, ◌||◌, not, String, some,
}
use danshi_backend.Accounts.Codes.{is_live, same_email}
use danshi_backend.Accounts.Data.{
  is_purpose, User, EmailVerificationCode, EmailDelivery, Accounts, registration, delivery_pending,
  delivery_sent, delivery_canceled, delivery_dead, stale_challenge, provider_error,
  delivery_exhausted,
}
use danshi_backend.Accounts.Deliveries.{DeliveryOptions, retry_delay_of, is_sending}
use danshi_backend.Accounts.Externals.{Externals}

abbrev pub is_leased_to : EmailDelivery → EmailDelivery → Bool
is_leased_to claim d =
    d.id == claim.id
    && is_sending d.state
    && str_eq (or_else d.lease_token "") (or_else claim.lease_token "")

-- `RefreshClaim`.
unfoldable pub refresh_claim : EmailDelivery → ℕ → Accounts → Option EmailDelivery
refresh_claim claim now s =
    find_first (λ d. is_leased_to claim d && ltb now (or_else d.lease_until 0)) s.deliveries

module _ (x : Externals) where
  abbrev pub has_account : String → Accounts → Bool
  has_account email s =
      any (λ (u : User). same_email x u.email email && not (is_some u.deleted_at)) s.users

  abbrev pub current_digest_of :
      ℕ → Accounts → EmailDelivery → Option EmailVerificationCode → String
  current_digest_of now s d none = ""
  current_digest_of now s d (some c) =
      if str_eq c.code_digest d.code_digest
        && is_live now c
        && (is_purpose d.purpose registration || has_account d.email s)
      then c.code_digest
      else ""

  -- The digest of the challenge while the delivery's code would still be taken, and "" otherwise.
  abbrev pub current_digest : ℕ → Accounts → EmailDelivery → String
  current_digest now s d =
      current_digest_of now s d
        (find_first (λ (c : EmailVerificationCode). c.id == d.challenge_id) s.codes)

  -- Whether a refreshed claim is delivered, and not cancelled.
  abbrev pub is_current : ℕ → Accounts → EmailDelivery → Bool
  is_current now s claim =
      is_some claim.code
      && not (str_eq (current_digest now s claim) "")
      && str_eq (current_digest now s claim) claim.code_digest

-- `UpdateClaim`: the row, if it is still leased to the claim, and the number of rows written.
unfoldable pub update_delivery :
    EmailDelivery → (EmailDelivery → EmailDelivery) → Accounts → ℕ × Accounts
update_delivery claim u s = (
  count_rows (is_leased_to claim) s.deliveries,
  record s { deliveries = update_rows (is_leased_to claim) u s.deliveries },
)

-- What the worker writes of a claim: cancelled, sent, given up, or to be tried again.
abbrev pub canceled : ℕ → EmailDelivery → EmailDelivery
canceled now d = record d {
  state = delivery_canceled;
  lease_token = none;
  lease_until = none;
  next_attempt_at = none;
  last_error_code = some stale_challenge;
  canceled_at = some now;
  updated_at = now;
  code = none;
}

abbrev pub delivered : ℕ → EmailDelivery → EmailDelivery
delivered now d = record d {
  state = delivery_sent;
  lease_token = none;
  lease_until = none;
  next_attempt_at = none;
  last_error_code = none;
  sent_at = some now;
  updated_at = now;
}

abbrev pub given_up : EmailDelivery → ℕ → EmailDelivery → EmailDelivery
given_up claim now d = record d {
  state = delivery_dead;
  attempts = claim.attempts + 1;
  next_attempt_at = none;
  lease_token = none;
  lease_until = none;
  last_error_code = some delivery_exhausted;
  dead_lettered_at = some now;
  updated_at = now;
  code = none;
}

abbrev pub postponed : DeliveryOptions → EmailDelivery → ℕ → EmailDelivery → EmailDelivery
postponed o claim now d = record d {
  state = delivery_pending;
  attempts = claim.attempts + 1;
  next_attempt_at = some (now + retry_delay_of o.retry_delay (claim.attempts + 1));
  lease_token = none;
  lease_until = none;
  last_error_code = some provider_error;
  updated_at = now;
}

-- What becomes of a claim that is delivered, by the answer of the sender.
abbrev pub after_sending :
    DeliveryOptions → EmailDelivery → ℕ → Bool → EmailDelivery → EmailDelivery
after_sending o claim now true = delivered now
after_sending o claim now false =
    if leb o.max_attempts (claim.attempts + 1) then given_up claim now else postponed o claim now

-- What is to be written of a claim that is still the worker's.
abbrev pub decision :
    Externals
    → DeliveryOptions
    → Bool
    → ℕ
    → Accounts
    → Option EmailDelivery
    → Option (EmailDelivery × (EmailDelivery → EmailDelivery))
decision x o answer now s none = none
decision x o answer now s (some current) = some (
  current,
  if is_current x now s current then after_sending o current now answer else canceled now,
)

-- The first transaction that the worker spends on a claim, and the call of the sender: whether the
-- claim is still the worker's, and then the claim as it is now with what is to be written of it.
-- `answer` is whether the sender accepts the message, if it is asked.
unfoldable pub decide_delivery :
    Externals
    → DeliveryOptions
    → Bool
    → EmailDelivery
    → ℕ
    → Accounts
    → Option (EmailDelivery × (EmailDelivery → EmailDelivery))
decide_delivery x o answer claim now s = decision x o answer now s (refresh_claim claim now s)

-- The second transaction, on the tables as they are by then.
unfoldable pub settle_delivery :
    Option (EmailDelivery × (EmailDelivery → EmailDelivery)) → Accounts → Accounts
unfolding update_delivery
settle_delivery none s = s
settle_delivery (some (claim, u)) s = (update_delivery claim u s).1
