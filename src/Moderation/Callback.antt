-- ===== src/Moderation/Callback.antt =====
-- `ApplyImageCallback` and `ApplyImageResult` of internal/service/moderation_callback.go, with the
-- intent that they append to the outbox (internal/service/image_access_controller.go). A result is
-- the transaction's new store or an error, after which the caller rolls back. `now_t` is the time
-- of the call.
use danshi_backend.Base.{
  ◌==◌, if◌then◌else◌, is_blank, Result, ◌>>=◌, ok, err, not, some, ◌&&◌, none, [], ℕ, ◌||◌, true,
  ◌∷◌, String, str_eq, Bool, false, List,
}
use danshi_backend.ImageAccess.Outbox.{enqueue}
use danshi_backend.Moderation.Data.{
  Verdict, ImageAsset, ModerationRecord, Store, ApiError, is_verdict_pass, is_pass_image,
  is_review_image, is_block_image, is_purged_image_url, other_verdict, callback_invalid,
  callback_conflict, image_not_found, internal,
}
use danshi_backend.Moderation.Repository.{
  same_id, unique_moderation_ids, reconcile_pending_posts, pending_posts,
  lock_pending_posts_for_image, lock_images_for_posts, find_record,
  find_machine_record_by_provider_job_id, create_machine_record_if_new, update_image_moderation,
  delete_for_asset,
}

pub record ImageModerationCallback : Type 0 where
  pub image_asset_id : ℕ
  pub object_key : String
  pub provider : String
  pub provider_job_id : String
  pub verdict : Verdict
  pub labels : List String

pub record ImageModerationApplyResult : Type 0 where
  pub duplicate : Bool
  pub approved : ℕ
  pub rejected : ℕ

pub record ImageAccessChange : Type 0 where
  pub image_asset_id : ℕ
  pub source_moderation_record_id : ℕ
  pub public : Bool
  pub purge_required : Bool

abbrev pub is_known_verdict : Verdict → Bool
is_known_verdict (other_verdict _) = false
is_known_verdict _ = true

unfoldable pub validate_image_callback : ImageModerationCallback → Bool → Result ApiError (Unit {0})
validate_image_callback c require_job_id =
    if c.image_asset_id == 0 || is_blank c.provider
    then err callback_invalid
    else if require_job_id && is_blank c.provider_job_id
    then err callback_invalid
    else if not (is_known_verdict c.verdict)
    then err callback_invalid
    else ok tt

unfoldable pub validate_callback_asset :
    ImageModerationCallback → List ImageAsset → Result ApiError ImageAsset
validate_callback_asset c [] = err image_not_found
validate_callback_asset c (a ∷ as') =
    if not (a.id == c.image_asset_id)
    then validate_callback_asset c as'
    else if not (str_eq c.object_key "") && not (str_eq c.object_key a.object_key)
    then err callback_conflict
    else if str_eq a.public_url "" || is_purged_image_url a.public_url
    then err callback_conflict
    else ok a

abbrev pub image_moderation_record : ImageModerationCallback → ℕ → ModerationRecord
image_moderation_record c now_t = record {
  id = 0;
  post_id = none;
  image_asset_id = some c.image_asset_id;
  content_revision = none;
  provider = c.provider;
  provider_job_id = if str_eq c.provider_job_id "" then none else some c.provider_job_id;
  verdict = c.verdict;
  labels = c.labels;
  reviewer_id = none;
  supersedes_id = none;
  created_at = now_t;
}

-- `DurableImageAccessController.Apply`.
unfoldable pub apply_access : ℕ → ImageAccessChange → Store → Result ApiError Store
apply_access now_t change s =
    if change.image_asset_id == 0 || change.source_moderation_record_id == 0
    then err internal
    else ok (record s {
      outbox =
          (enqueue change.image_asset_id change.source_moderation_record_id change.public
            change.purge_required now_t s.outbox).0;
    })

abbrev pub image_access_purge_required : Bool → ImageAsset → Bool
image_access_purge_required public previous =
    not public || is_block_image previous || is_review_image previous

abbrev pub apply_image_access : ℕ → ImageAsset → ℕ → Verdict → Store → Result ApiError Store
apply_image_access now_t asset source verdict =
    let public = is_verdict_pass verdict in
    apply_access now_t record {
      image_asset_id = asset.id;
      source_moderation_record_id = source;
      public = public;
      purge_required = image_access_purge_required public asset;
    }

abbrev pub reconcile_image_access : ℕ → ImageAsset → ℕ → Store → Result ApiError Store
reconcile_image_access now_t asset source =
    let public = is_pass_image asset in
    apply_access now_t record {
      image_asset_id = asset.id;
      source_moderation_record_id = source;
      public = public;
      purge_required = image_access_purge_required public asset;
    }

unfoldable pub reconcile_duplicate_image_result :
    ℕ
    → ImageModerationCallback
    → ImageAsset
    → Store
    → Result ApiError (Store × ImageModerationApplyResult)
unfolding apply_access find_record
reconcile_duplicate_image_result now_t c asset s =
    elim (find_machine_record_by_provider_job_id c.provider c.provider_job_id s) [
      | none ↦ err internal
      | some existing ↦
          if not (same_id existing.image_asset_id c.image_asset_id)
          then err callback_conflict
          else (do
            s' ← reconcile_image_access now_t asset existing.id s
            ok (
              delete_for_asset c.image_asset_id s',
              record { duplicate = true; approved = 0; rejected = 0 },
            ))
    ]

-- The alert of a verdict that is not `pass`.
abbrev pub alert_verdict : ImageModerationCallback → Store → Store
alert_verdict c s = record s {
  alerts =
      if is_verdict_pass c.verdict
      then s.alerts
      else record {
        target_id = c.image_asset_id;
        provider = c.provider;
        provider_job_id = some c.provider_job_id;
        verdict = c.verdict;
        labels = c.labels;
      }
        ∷ s.alerts;
}

-- What follows once the record of the callback, `source`, is new.
unfoldable pub apply_new_image_result :
    ℕ
    → ImageModerationCallback
    → List ℕ
    → ImageAsset
    → ℕ
    → Store
    → Result ApiError (Store × ImageModerationApplyResult)
unfolding update_image_moderation reconcile_pending_posts apply_access
apply_new_image_result now_t c post_ids asset source s = do
  moderated ← update_image_moderation c.image_asset_id c.verdict s
  let reconciled = reconcile_pending_posts post_ids moderated
  accessed ← apply_image_access now_t asset source c.verdict (alert_verdict c reconciled.0)
  ok (
    delete_for_asset c.image_asset_id accessed,
    record {
      duplicate = false;
      approved = reconciled.1.approved_posts;
      rejected = reconciled.1.rejected_posts;
    },
  )

unfoldable pub apply_image_result :
    ℕ
    → ImageModerationCallback
    → Bool
    → Store
    → Result ApiError (Store × ImageModerationApplyResult)
unfolding validate_image_callback validate_callback_asset create_machine_record_if_new
    reconcile_duplicate_image_result apply_new_image_result pending_posts unique_moderation_ids
apply_image_result now_t c require_job_id s = do
  _ ← validate_image_callback c require_job_id
  let post_ids = lock_pending_posts_for_image c.image_asset_id s
  asset ← validate_callback_asset c (lock_images_for_posts c.image_asset_id post_ids s)
  let created = create_machine_record_if_new (image_moderation_record c now_t) s
  if created.1
      then apply_new_image_result now_t c post_ids asset s.next_record_id created.0
      else reconcile_duplicate_image_result now_t c asset created.0
