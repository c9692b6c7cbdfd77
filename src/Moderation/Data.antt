-- ===== src/Moderation/Data.antt =====
-- The tables that moderation reads and writes: internal/model/post.go, image.go, moderation.go and
-- image_moderation_retry.go, with the columns that the modelled code uses. A table is the list of
-- its rows; where a statement orders them, the order is written out. Times are numbers of
-- nanoseconds.
use danshi_backend.Base.{ends_with, Option, ◌&&◌, starts_with, ℕ, true, String, Bool, false, List}
use danshi_backend.ImageAccess.Outbox.{Tables}

-- `ModerationVerdict`, a text in the source.
pub data Verdict : Type 0 where
  verdict_pass verdict_review verdict_block : Verdict
  other_verdict : String → Verdict

pub data ModerationStatus : Type 0 where
  moderation_pending moderation_pass moderation_review moderation_block : ModerationStatus

pub data PostStatus : Type 0 where
  draft pending approved rejected : PostStatus

pub data ImageStatus : Type 0 where
  image_pending image_ready image_retired : ImageStatus

pub data ImagePurpose : Type 0 where
  purpose_post purpose_avatar : ImagePurpose

pub record Post : Type 0 where
  pub id : ℕ
  pub status : PostStatus
  pub current_revision : ℕ
  pub deleted_at : Option ℕ

pub record ImageAsset : Type 0 where
  pub id : ℕ
  pub uploader_id : Option ℕ
  pub purpose : ImagePurpose
  pub object_key : String
  pub public_url : String
  pub image_status : ImageStatus
  pub moderation : ModerationStatus

pub record PostImage : Type 0 where
  pub post_id : ℕ
  pub position : ℕ
  pub image_asset_id : ℕ

pub record ModerationRecord : Type 0 where
  pub id : ℕ
  pub post_id : Option ℕ
  pub image_asset_id : Option ℕ
  pub content_revision : Option ℕ
  pub provider : String
  pub provider_job_id : Option String
  pub verdict : Verdict
  pub labels : List String
  pub reviewer_id : Option ℕ
  pub supersedes_id : Option ℕ
  pub created_at : ℕ

pub data RetryState : Type 0 where
  retry_pending retry_dead_letter : RetryState

pub data RetryError : Type 0 where
  submit_failed invalid_submission submissions_exhausted : RetryError

pub record Retry : Type 0 where
  pub image_asset_id : ℕ
  pub state : RetryState
  pub attempts : ℕ
  pub next_attempt_at : Option ℕ
  pub lease_token : Option String
  pub lease_until : Option ℕ
  pub last_error_code : RetryError
  pub dead_lettered_at : Option ℕ
  pub created_at : ℕ
  pub updated_at : ℕ

pub record ModerationAlert : Type 0 where
  pub target_id : ℕ
  pub provider : String
  pub provider_job_id : Option String
  pub verdict : Verdict
  pub labels : List String

-- The database, and the alerts that were raised, the latest first.
pub record Store : Type 0 where
  pub posts : List Post
  pub post_images : List PostImage
  pub assets : List ImageAsset
  pub records : List ModerationRecord
  pub next_record_id : ℕ
  pub outbox : Tables
  pub retries : List Retry
  pub alerts : List ModerationAlert

pub data ApiError : Type 0 where
  callback_invalid callback_conflict image_not_found record_not_found internal : ApiError
  invalid_field post_not_found post_deleted not_pending only_unpassed already_reviewed : ApiError

abbrev pub is_verdict_pass : Verdict → Bool
is_verdict_pass verdict_pass = true
is_verdict_pass _ = false

abbrev pub is_verdict_review : Verdict → Bool
is_verdict_review verdict_review = true
is_verdict_review _ = false

abbrev pub is_verdict_block : Verdict → Bool
is_verdict_block verdict_block = true
is_verdict_block _ = false

abbrev pub is_pending_image : ImageAsset → Bool
is_pending_image a = elim a.moderation [ moderation_pending ↦ true | _ ↦ false ]

abbrev pub is_pass_image : ImageAsset → Bool
is_pass_image a = elim a.moderation [ moderation_pass ↦ true | _ ↦ false ]

abbrev pub is_review_image : ImageAsset → Bool
is_review_image a = elim a.moderation [ moderation_review ↦ true | _ ↦ false ]

abbrev pub is_block_image : ImageAsset → Bool
is_block_image a = elim a.moderation [ moderation_block ↦ true | _ ↦ false ]

-- `IsPurgedImageURL`.
abbrev pub is_purged_image_url : String → Bool
is_purged_image_url value =
    starts_with value "urn:danshi:image-asset:" && ends_with value ":retired"
