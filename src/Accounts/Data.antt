-- ===== src/Accounts/Data.antt =====
-- The tables of accounts: internal/model/user.go and internal/model/email_delivery.go. A table is the
-- list of its rows; times count nanoseconds. One counter stands for the identity sequences.
use danshi_backend.Base.{ℕ, Option, false, true, List, Bool, String}
use danshi_backend.Access.Authz.{UserRole}

pub data Gender : Type 0 where
  male female other_gender : Gender

pub data VerificationPurpose : Type 0 where
  registration password_reset : VerificationPurpose

abbrev pub is_purpose : VerificationPurpose → VerificationPurpose → Bool
is_purpose registration registration = true
is_purpose password_reset password_reset = true
is_purpose _ _ = false

pub record User : Type 0 where
  pub id : ℕ
  pub email : String
  pub password_hash : String
  pub username : String
  pub gender : Option Gender
  pub ban_is_permanent : Bool
  pub banned_until : Option ℕ
  pub ban_reason : Option String
  pub banned_by : Option ℕ
  pub deleted_at : Option ℕ

pub record UsernameClaim : Type 0 where
  pub user_id : ℕ
  pub username : String

pub record EmailVerificationCode : Type 0 where
  pub id : ℕ
  pub email : String
  pub purpose : VerificationPurpose
  pub code_digest : String
  pub expires_at : ℕ
  pub last_sent_at : Option ℕ
  pub send_window_started_at : ℕ
  pub send_count : ℕ
  pub failed_attempts : ℕ
  pub consumed_at : Option ℕ
  pub updated_at : ℕ

pub record UserSession : Type 0 where
  pub id : ℕ
  pub user_id : ℕ
  pub refresh_token_digest : String
  pub device_label : String
  pub created_at : ℕ
  pub last_seen_at : ℕ
  pub expires_at : ℕ
  pub revoked_at : Option ℕ

pub data DeliveryState : Type 0 where
  delivery_pending delivery_sending delivery_sent delivery_canceled delivery_dead : DeliveryState

pub data DeliveryError : Type 0 where
  stale_challenge provider_error delivery_exhausted : DeliveryError

pub record EmailDelivery : Type 0 where
  pub id : ℕ
  pub challenge_id : ℕ
  pub email : String
  pub purpose : VerificationPurpose
  pub code_digest : String
  pub code : Option String
  pub state : DeliveryState
  pub attempts : ℕ
  pub next_attempt_at : Option ℕ
  pub lease_token : Option String
  pub lease_until : Option ℕ
  pub last_error_code : Option DeliveryError
  pub sent_at : Option ℕ
  pub canceled_at : Option ℕ
  pub dead_lettered_at : Option ℕ
  pub updated_at : ℕ

pub data BanAction : Type 0 where
  ban unban : BanAction

pub record UserBanRecord : Type 0 where
  pub user_id : ℕ
  pub action : BanAction
  pub ban_is_permanent : Bool
  pub banned_until : Option ℕ
  pub reason : Option String
  pub actor_id : ℕ

pub data RoleAction : Type 0 where
  grant revoke_role : RoleAction

pub record UserRoleBinding : Type 0 where
  pub user_id : ℕ
  pub role : UserRole
  pub granted_by : ℕ

pub record UserRoleRecord : Type 0 where
  pub user_id : ℕ
  pub role : UserRole
  pub action : RoleAction
  pub actor_id : ℕ

-- What a request's transaction reads and writes. `kicks` counts the wake-ups of the delivery worker
-- that the transaction registers, and that happen only if it is committed; `touches` are the sessions
-- to touch before the commit, and when; `name_reviews` are the users whose name has a review record.
pub record Accounts : Type 0 where
  pub users : List User
  pub username_claims : List UsernameClaim
  pub codes : List EmailVerificationCode
  pub deliveries : List EmailDelivery
  pub sessions : List UserSession
  pub role_bindings : List UserRoleBinding
  pub role_records : List UserRoleRecord
  pub ban_records : List UserBanRecord
  pub name_reviews : List ℕ
  pub touches : List (ℕ × ℕ)
  pub next_id : ℕ
  pub kicks : ℕ
