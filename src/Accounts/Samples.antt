-- ===== src/Accounts/Samples.antt =====
-- Concrete inputs for the tests of accounts.
use danshi_backend.Base.{leb, if◌then◌else◌, pos, str_eq, false, true, ◌*◌, none, ◌∷◌, some, []}
use danshi_backend.Accounts.Data.{
  User, EmailVerificationCode, UserSession, EmailDelivery, Accounts, password_reset,
}
use danshi_backend.Accounts.Deliveries.{DeliveryOptions}
use danshi_backend.Accounts.Externals.{Externals, Config, access, refresh}
use danshi_backend.Accounts.Senders.{new_delivery_of}
use danshi_backend.ImageAccess.Backoff.{second}

-- Functions that stand in for what the services call; two tokens are signed.
abbrev pub externals : Externals
externals = record {
  lower = λ s. s;
  to_lower = λ s. s;
  is_letter_or_number = λ c. leb 48 c;
  parse_address = λ s. some s;
  nfkc = λ s. s;
  hmac = λ s. s;
  sha256 = λ s. s;
  bcrypt = λ s. s;
  bcrypt_matches = str_eq;
  sign = λ c. "signed";
  verify_token = λ now token.
      if str_eq token "access-7"
      then some (record { subject = some (pos 1); type = access; session_id = pos 7; expires = 99 })
      else if str_eq token "refresh-7"
      then some
          (record { subject = some (pos 1); type = refresh; session_id = pos 7; expires = 99 })
      else none;
}

abbrev pub config : Config
config = record {
  email_verification_required = true;
  email_domains = "b.cn" ∷ [];
  sender_configured = true;
  reset_sender_configured = true;
  has_deliveries = true;
  access_token_ttl = 1000;
  refresh_token_ttl = 9000;
}

abbrev pub user1 : User
user1 = record {
  id = 1;
  email = "a@b.cn";
  password_hash = "old password";
  username = "someone";
  gender = none;
  ban_is_permanent = false;
  banned_until = none;
  ban_reason = none;
  banned_by = none;
  deleted_at = none;
}

abbrev pub challenge1 : EmailVerificationCode
challenge1 = record {
  id = 4;
  email = "a@b.cn";
  purpose = password_reset;
  code_digest = "password_reset:a@b.cn:123456";
  expires_at = 900;
  last_sent_at = some 100;
  send_window_started_at = 100;
  send_count = 1;
  failed_attempts = 3;
  consumed_at = none;
  updated_at = 100;
}

abbrev pub session7 : UserSession
session7 = record {
  id = 7;
  user_id = 1;
  refresh_token_digest = "refresh-7";
  device_label = "phone";
  created_at = 10;
  last_seen_at = 20;
  expires_at = 5000;
  revoked_at = none;
}

abbrev pub delivery9 : EmailDelivery
delivery9 =
    record (new_delivery_of challenge1 "a@b.cn" password_reset challenge1.code_digest "123456" 100
      9) { attempts = 7 }

abbrev pub accounts : Accounts
accounts = record {
  users = user1 ∷ [];
  username_claims = [];
  codes = challenge1 ∷ [];
  deliveries = delivery9 ∷ [];
  sessions = session7 ∷ [];
  role_bindings = [];
  role_records = [];
  ban_records = [];
  name_reviews = [];
  touches = [];
  next_id = 10;
  kicks = 0;
}

abbrev pub delivery_defaults : DeliveryOptions
delivery_defaults = record {
  batch_size = 4;
  lease_duration = 60 * second;
  max_attempts = 8;
  retry_delay = 30 * second;
}
