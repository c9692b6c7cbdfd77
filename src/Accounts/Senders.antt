-- ===== src/Accounts/Senders.antt =====
-- Sending one-time codes: `SendVerificationCode`, `SendPasswordResetCode`, `enforceSendRate` and
-- `enqueueVerificationEmail` of internal/service/auth.go, and `Enqueue` of
-- internal/repository/email_delivery.go.
use danshi_backend.Base.{
  ltb, leb, ◌==◌, if◌then◌else◌, is_some, Result, ok, err, find_first, ℕ, ◌++◌, Option, false, true,
  ◌/◌, ◌+◌, Bool, none, ◌-◌, ◌&&◌, ◌||◌, not, ◌∷◌, String, some, [],
}
use danshi_backend.Accounts.Codes.{
  verification_code_ttl, verification_send_cooldown, verification_send_window, max_sends_per_window,
  save_state, digest_of, same_email, lock_or_create,
}
use danshi_backend.Accounts.Data.{
  VerificationPurpose, User, EmailVerificationCode, EmailDelivery, Accounts, registration,
  password_reset, delivery_pending,
}
use danshi_backend.Accounts.Externals.{Externals, Config}
use danshi_backend.Accounts.Requests.{
  ◌>>=◌, AccountError, Request, ◌>>◌, done, refuse, check, read, lift, write, service_unavailable,
  verify_code_too_many,
}
use danshi_backend.Accounts.Validation.{normalize_email, domain_allowed}
use danshi_backend.ImageAccess.Backoff.{second}

-- `rateLimitError`: whole seconds, rounded up, and at least one.
abbrev pub rate_limit_error : ℕ → AccountError
rate_limit_error remaining =
    let seconds = (remaining + second - 1) / second in
    verify_code_too_many (if seconds == 0 then 1 else seconds)

-- The fixed window: a send an hour after its start opens another.
abbrev pub renew_window : ℕ → EmailVerificationCode → EmailVerificationCode
renew_window now c =
    if leb (c.send_window_started_at + verification_send_window) now
    then record c { send_window_started_at = now; send_count = 0 }
    else c

abbrev pub cools_until : Option ℕ → ℕ
cools_until none = 0
cools_until (some last) = last + verification_send_cooldown

-- `enforceSendRate`, which changes the challenge it is given.
unfoldable pub enforce_send_rate :
    ℕ → EmailVerificationCode → Result AccountError EmailVerificationCode
enforce_send_rate now c =
    let renewed = renew_window now c in
    if ltb now (cools_until c.last_sent_at)
    then err (rate_limit_error (cools_until c.last_sent_at - now))
    else if leb max_sends_per_window renewed.send_count
    then err (rate_limit_error (renewed.send_window_started_at + verification_send_window - now))
    else ok renewed

-- The challenge that a sender saves.
abbrev pub sent : String → ℕ → EmailVerificationCode → EmailVerificationCode
sent digest now c = record c {
  code_digest = digest;
  expires_at = now + verification_code_ttl;
  last_sent_at = some now;
  send_count = c.send_count + 1;
  failed_attempts = 0;
  consumed_at = none;
}

abbrev pub new_delivery_of :
    EmailVerificationCode → String → VerificationPurpose → String → String → ℕ → ℕ → EmailDelivery
new_delivery_of c email purpose digest code now id = record {
  id = id;
  challenge_id = c.id;
  email = email;
  purpose = purpose;
  code_digest = digest;
  code = some code;
  state = delivery_pending;
  attempts = 0;
  next_attempt_at = some now;
  lease_token = none;
  lease_until = none;
  last_error_code = none;
  sent_at = none;
  canceled_at = none;
  dead_lettered_at = none;
  updated_at = now;
}

-- `enqueueVerificationEmail`: the row, and a wake-up of the worker after the commit.
unfoldable pub enqueue_email :
    EmailVerificationCode → String → VerificationPurpose → String → String → ℕ → Accounts → Accounts
enqueue_email c email purpose digest code now s = record s {
  deliveries = s.deliveries ++ (new_delivery_of c email purpose digest code now s.next_id ∷ []);
  next_id = s.next_id + 1;
  kicks = s.kicks + 1;
}

-- What a request draws at random: six digits, and 32 bytes.
pub record Drawn : Type 0 where
  pub code : String
  pub noise : String

module _ (x : Externals) (cfg : Config) where
  -- A query on users by address; `deleted` says whether deleted users count.
  abbrev pub find_by_email : Bool → String → Accounts → Option User
  find_by_email deleted email s =
      find_first
        (λ (u : User). same_email x u.email email && (deleted || not (is_some u.deleted_at)))
        s.users

  -- The end of both senders, from the locked challenge on: with `send` the code goes into a
  -- delivery, and without it nobody learns a code.
  abbrev pub challenge_with :
      VerificationPurpose
      → String
      → String
      → Bool
      → Drawn
      → ℕ
      → EmailVerificationCode
      → Request (Unit {0})
  challenge_with purpose email address send drawn now c =
      let digest = if send then digest_of x purpose email drawn.code else x.sha256 drawn.noise in
      do
        write (save_state (sent digest now c) now)
        if send
            then write (enqueue_email (sent digest now c) address purpose digest drawn.code now)
            else done tt

  -- From the lock on. Nobody learns a new code for an address that is registered.
  unfoldable pub renew_registration : String → Bool → Drawn → ℕ → Request (Unit {0})
  renew_registration email known drawn now = do
    row ← lock_or_create x email registration now
    c ← lift (enforce_send_rate now row)
    challenge_with registration email email (not known) drawn now c

  abbrev pub sends_registration : String → Drawn → ℕ → Request (Unit {0})
  sends_registration email drawn now = do
    user ← read (find_by_email true email)
    renew_registration email (is_some user) drawn now

  -- `SendVerificationCode`.
  unfoldable pub send_verification_code : String → Drawn → ℕ → Request (Unit {0})
  send_verification_code raw_email drawn now = do
    email ← lift (normalize_email x raw_email)
    if not cfg.email_verification_required || not (domain_allowed x cfg email)
        then done tt
        else if not (cfg.sender_configured && cfg.has_deliveries)
        then refuse service_unavailable
        else sends_registration email drawn now

  -- A code whose rate is exceeded is not sent, and the answer does not tell.
  abbrev pub sends_reset :
      String
      → Option User
      → Drawn
      → ℕ
      → Result AccountError EmailVerificationCode
      → Request (Unit {0})
  sends_reset email user drawn now (err e) = done tt
  sends_reset email user drawn now (ok c) =
      challenge_with password_reset email (elim user [ none ↦ "" | some u ↦ u.email ])
        (is_some user) drawn now c

  unfoldable pub renew_reset : String → Option User → Drawn → ℕ → Request (Unit {0})
  renew_reset email user drawn now = do
    row ← lock_or_create x email password_reset now
    sends_reset email user drawn now (enforce_send_rate now row)

  -- `SendPasswordResetCode`, where the account is read and locked at once.
  unfoldable pub send_password_reset_code : String → Drawn → ℕ → Request (Unit {0})
  send_password_reset_code raw_email drawn now = do
    email ← lift (normalize_email x raw_email)
    check cfg.email_verification_required service_unavailable
    check (cfg.reset_sender_configured && cfg.has_deliveries) service_unavailable
    user ← read (find_by_email false email)
    renew_reset email user drawn now
