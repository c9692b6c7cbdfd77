-- ===== src/Accounts/Codes.antt =====
-- One-time codes: `VerificationCodeRepository` of internal/repository/auth.go, and `codeDigest` and
-- `consumeVerification` of internal/service/auth.go.
use danshi_backend.Base.{
  ltb, leb, ◌==◌, if◌then◌else◌, is_some, ◌+++◌, find_first, update_rows, ℕ, str_eq, ◌++◌, Option,
  ◌*◌, ◌+◌, Bool, none, ◌&&◌, ◌||◌, not, ◌∷◌, String, some, [],
}
use danshi_backend.Accounts.Data.{
  VerificationPurpose, is_purpose, EmailVerificationCode, EmailDelivery, Accounts, registration,
  password_reset,
}
use danshi_backend.Accounts.Externals.{Externals}
use danshi_backend.Accounts.Requests.{
  ◌>>=◌, found, internal, Request, ◌>>◌, refuse, read, write, verify_code_invalid, persisted,
}
use danshi_backend.ImageAccess.Backoff.{second}

abbrev pub verification_code_ttl : ℕ
verification_code_ttl = 600 * second

abbrev pub verification_send_cooldown : ℕ
verification_send_cooldown = 60 * second

abbrev pub verification_send_window : ℕ
verification_send_window = 3600 * second

abbrev pub max_sends_per_window : ℕ
max_sends_per_window = 5

abbrev pub max_failed_attempts : ℕ
max_failed_attempts = 5

abbrev pub purpose_text : VerificationPurpose → String
purpose_text registration = "registration"
purpose_text password_reset = "password_reset"

abbrev pub zero_digest : String
zero_digest = "0000000000000000000000000000000000000000000000000000000000000000"

abbrev pub new_challenge : ℕ → String → VerificationPurpose → ℕ → EmailVerificationCode
new_challenge id email purpose now = record {
  id = id;
  email = email;
  purpose = purpose;
  code_digest = zero_digest;
  expires_at = now;
  last_sent_at = none;
  send_window_started_at = now;
  send_count = 0;
  failed_attempts = 0;
  consumed_at = none;
  updated_at = now;
}

abbrev pub is_live : ℕ → EmailVerificationCode → Bool
is_live now c =
    not (is_some c.consumed_at) && ltb now c.expires_at && ltb c.failed_attempts max_failed_attempts

-- The columns that `SaveState` writes.
abbrev pub saved : EmailVerificationCode → ℕ → EmailVerificationCode → EmailVerificationCode
saved c now row = record c {
  id = row.id;
  email = row.email;
  purpose = row.purpose;
  updated_at = now;
}

abbrev pub drop_code : EmailDelivery → EmailDelivery
drop_code d = record d { code = none }

-- The deliveries whose plaintext code goes: all of the challenge's, or those of older codes while
-- the challenge is live.
abbrev pub loses_code : EmailVerificationCode → ℕ → EmailDelivery → Bool
loses_code c now d =
    d.challenge_id == c.id
    && is_some d.code
    && (not (is_live now c) || not (str_eq d.code_digest c.code_digest))

-- `SaveState`.
unfoldable pub save_state : EmailVerificationCode → ℕ → Accounts → Accounts
save_state c now s = record s {
  codes = update_rows (λ (row : EmailVerificationCode). row.id == c.id) (saved c now) s.codes;
  deliveries = update_rows (loses_code c now) drop_code s.deliveries;
}

module _ (x : Externals) where
  -- `codeDigest`.
  abbrev pub digest_of : VerificationPurpose → String → String → String
  digest_of purpose email code = x.hmac (purpose_text purpose +++ ":" +++ email +++ ":" +++ code)

  abbrev pub same_email : String → String → Bool
  same_email a b = str_eq (x.lower a) (x.lower b)

  -- The WHERE clause of both queries for a challenge.
  abbrev pub is_challenge : String → VerificationPurpose → EmailVerificationCode → Bool
  is_challenge email purpose c = same_email c.email email && is_purpose c.purpose purpose

  -- INSERT ON CONFLICT DO NOTHING: the unique index is on the lowered email and the purpose.
  abbrev pub insert_challenge : String → VerificationPurpose → ℕ → Accounts → Accounts
  insert_challenge email purpose now s =
      if is_some (find_first (is_challenge email purpose) s.codes) then s else record s {
        codes = s.codes ++ (new_challenge s.next_id email purpose now ∷ []);
        next_id = s.next_id + 1;
      }

  -- `LockExisting`.
  abbrev pub lock_existing : String → VerificationPurpose → Accounts → Option EmailVerificationCode
  lock_existing email purpose s = find_first (is_challenge email purpose) s.codes

  -- `LockOrCreate`: the row is there after the INSERT, in the unique index of its key.
  unfoldable pub lock_or_create : String → VerificationPurpose → ℕ → Request EmailVerificationCode
  lock_or_create email purpose now = do
    write (insert_challenge email purpose now)
    challenge ← read (lock_existing email purpose)
    found challenge internal

  -- What `consumeVerification` decides about the locked challenge.
  abbrev pub judge :
      VerificationPurpose → String → String → ℕ → EmailVerificationCode → Request (Unit {0})
  judge purpose email code now c =
      if is_some c.consumed_at || leb c.expires_at now || leb max_failed_attempts c.failed_attempts
      then refuse verify_code_invalid
      else if not (str_eq c.code_digest (digest_of purpose email code))
      then (do
        write (save_state (record c { failed_attempts = c.failed_attempts + 1 }) now)
        refuse (persisted verify_code_invalid))
      else write (save_state (record c { consumed_at = some now }) now)

  -- `consumeVerification`, at the time `now`.
  unfoldable pub consume_verification :
      VerificationPurpose → String → String → ℕ → Request (Unit {0})
  consume_verification purpose email code now = do
    row ← read (lock_existing email purpose)
    c ← found row verify_code_invalid
    judge purpose email code now c
