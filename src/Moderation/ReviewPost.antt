-- ===== src/Moderation/ReviewPost.antt =====
-- The effects of `ManualReviewPost` of internal/service/moderation_callback.go: the images, the
-- posts that show them, the outbox and the alerts.
use danshi_backend.Base.{
  ◌==◌, if◌then◌else◌, or_else, filter, any, Result, ◌>>=◌, ok, reverse, ◌&&◌, some, ◌∷◌, ℕ, map,
  List, [], ◌++◌, none,
}
use danshi_backend.Moderation.Callback.{apply_access, apply_image_access}
use danshi_backend.Moderation.Data.{
  Verdict, Post, ImageAsset, PostImage, ModerationRecord, ModerationAlert, Store, ApiError,
  is_verdict_block,
}
use danshi_backend.Moderation.Repository.{
  unique_from, is_in, reconcile_pending_posts, is_pending_post, update_image_moderation,
}
use danshi_backend.Moderation.Review.{
  ManualPostReviewInput, PostReviewSnapshot, manual_provider, validate_manual_post_review_input,
  lock_post_review_snapshot, asset_by_id, create_post_manual_records, record_images,
}

-- The loop over the images.
unfoldable pub update_images : List ℕ → Verdict → Store → Result ApiError Store
unfolding update_image_moderation
update_images [] v s = ok s
update_images (n ∷ ns) v s = do updated ← update_image_moderation n v s; update_images ns v updated

-- The loop over the records of images.
unfoldable pub apply_accesses :
    ℕ → List ImageAsset → Verdict → List ModerationRecord → Store → Result ApiError Store
unfolding apply_access
apply_accesses now_t assets v [] s = ok s
apply_accesses now_t assets v (r ∷ rs) s = elim r.image_asset_id [
  | none ↦ apply_accesses now_t assets v rs s
  | some n ↦ elim (asset_by_id n assets) [
    | none ↦ apply_accesses now_t assets v rs s
    | some a ↦ do
      applied ← apply_image_access now_t a r.id v s
      apply_accesses now_t assets v rs applied
  ]
]

-- `PendingPostIDsForImages`.
abbrev pub pending_post_ids_for_images : List ℕ → Store → List ℕ
pending_post_ids_for_images images s =
    map (λ (p : Post). p.id)
      (filter
        (λ p.
          is_pending_post p
          && any (λ (l : PostImage). l.post_id == p.id && is_in images l.image_asset_id)
              s.post_images)
        s.posts)

unfoldable pub apply_post_manual_verdict :
    ℕ
    → ManualPostReviewInput
    → PostReviewSnapshot
    → List ModerationRecord
    → Store
    → Result ApiError Store
unfolding update_images apply_accesses reconcile_pending_posts unique_from
apply_post_manual_verdict now_t input snapshot rs s = do
  let images = unique_from [] (record_images rs)
  updated ← update_images images input.verdict s
  let post_ids = pending_post_ids_for_images images updated ++ input.post_id ∷ []
  apply_accesses now_t snapshot.assets input.verdict rs (reconcile_pending_posts post_ids updated).0

-- The alert of each record, by `moderationRecordTarget`.
abbrev pub manual_review_alert : ManualPostReviewInput → ModerationRecord → ModerationAlert
manual_review_alert input r = record {
  target_id = or_else r.post_id (or_else r.image_asset_id 0);
  provider = manual_provider;
  provider_job_id = none;
  verdict = input.verdict;
  labels = [];
}

abbrev pub alert_records : ManualPostReviewInput → List ModerationRecord → Store → Store
alert_records input rs s = record s {
  alerts =
      if is_verdict_block input.verdict
      then reverse (map (manual_review_alert input) rs) ++ s.alerts
      else s.alerts;
}

unfoldable pub manual_review_post :
    ℕ → ManualPostReviewInput → Store → Result ApiError (Store × List ModerationRecord)
unfolding validate_manual_post_review_input lock_post_review_snapshot create_post_manual_records
    apply_post_manual_verdict
manual_review_post now_t input s = do
  _ ← validate_manual_post_review_input input
  snapshot ← lock_post_review_snapshot input.post_id s
  created ← create_post_manual_records now_t input snapshot s
  applied ← apply_post_manual_verdict now_t input snapshot created.1 created.0
  ok (alert_records input created.1 applied, created.1)
