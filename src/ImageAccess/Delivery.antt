-- ===== src/ImageAccess/Delivery.antt =====
-- The rows of the outbox: internal/model/image_access.go, and the claim of
-- internal/repository/image_access.go. Times are numbers of nanoseconds since a fixed origin.
use danshi_backend.Base.{ℕ, String, Bool, true, false, Option}

pub data State : Type 0 where
  pending_acl pending_submit submitting submitted succeeded dead_letter : State

-- The values of `last_error_code`.
pub data ErrorCode : Type 0 where
  acl_retryable acl_exhausted : ErrorCode
  submit_retryable submit_unknown submit_permanent submit_exhausted : ErrorCode
  discover_retryable discover_permanent discover_exhausted : ErrorCode
  poll_retryable poll_permanent poll_exhausted : ErrorCode
  provider_failed provider_timeout provider_canceled provider_pending_timeout : ErrorCode

-- One intent per moderation record; never rewritten.
pub record Intent : Type 0 where
  pub id : ℕ
  pub image_asset_id : ℕ
  pub source_moderation_record_id : ℕ
  pub desired_public : Bool
  pub created_at : ℕ

-- A nullable column is an option.
pub record Delivery : Type 0 where
  pub image_asset_id : ℕ
  pub desired_intent_id : ℕ
  pub desired_public : Bool
  pub purge_required : Bool
  pub generation : ℕ
  pub state : State
  pub acl_attempts : ℕ
  pub submit_attempts : ℕ
  pub poll_attempts : ℕ
  pub unknown_checks : ℕ
  pub provider_job_id : Option String
  pub submission_started_at : Option ℕ
  pub next_attempt_at : Option ℕ
  pub lease_token : Option String
  pub lease_until : Option ℕ
  pub last_error_code : Option ErrorCode
  pub completed_at : Option ℕ
  pub dead_lettered_at : Option ℕ
  pub created_at : ℕ
  pub updated_at : ℕ

-- A claimed row with the key and URL that the join reads from `image_assets`.
pub record Claim : Type 0 where
  pub delivery : Delivery
  pub open delivery use *
  pub object_key : String
  pub public_url : String

-- The SET clause of an UPDATE.
abbrev pub Updates : Type 0
Updates = Delivery → Delivery

abbrev pub is_terminal : State → Bool
is_terminal succeeded = true
is_terminal dead_letter = true
is_terminal _ = false
