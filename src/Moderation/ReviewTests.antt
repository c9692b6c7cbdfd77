-- ===== src/Moderation/ReviewTests.antt =====
-- `ManualReviewPost` (internal/service/moderation_callback.go) at a concrete store: the text of post
-- 1 and its image 7 were both left for review.
use danshi_backend.Base.{All, ok, err, ◌++◌, reverse, some, List, refl, [], ◌≡◌, true, ◌∷◌, none}
use danshi_backend.ImageAccess.Outbox.{enqueue}
use danshi_backend.Moderation.Audit.{Reviews, manual_review_post-Reviews}
use danshi_backend.Moderation.Callback.{apply_access}
use danshi_backend.Moderation.Data.{
  Post, ImageAsset, ModerationRecord, Store, verdict_pass, verdict_review, moderation_pass,
  moderation_review, pending, approved, image_ready, purpose_post, not_pending,
}
use danshi_backend.Moderation.Repository.{
  joined_images, latest, unique_from, reconcile_pending_posts, update_image_moderation,
}
use danshi_backend.Moderation.Review.{
  ManualPostReviewInput, validate_manual_post_review_input, order_records,
  validate_post_review_assets, lock_post_review_snapshot, post_manual_record, create_manual_record,
  create_records, create_post_manual_records,
}
use danshi_backend.Moderation.ReviewPost.{
  update_images, apply_accesses, apply_post_manual_verdict, manual_review_post,
}

abbrev asset : ImageAsset
asset = record {
  id = 7;
  uploader_id = some 3;
  purpose = purpose_post;
  object_key = "posts/7.jpg";
  public_url = "https://img.example/7.jpg";
  image_status = image_ready;
  moderation = moderation_review;
}

abbrev text_record : ModerationRecord
text_record = record {
  id = 20;
  post_id = some 1;
  image_asset_id = none;
  content_revision = some 1;
  provider = "text";
  provider_job_id = none;
  verdict = verdict_review;
  labels = [];
  reviewer_id = none;
  supersedes_id = none;
  created_at = 5;
}

abbrev image_record : ModerationRecord
image_record = record text_record {
  id = 21;
  post_id = none;
  image_asset_id = some 7;
  content_revision = none;
  provider = "ims";
  provider_job_id = some "job-9";
}

abbrev post : Post
post = record { id = 1; status = pending; current_revision = 1; deleted_at = none }

abbrev store : Store
store = record {
  posts = post ∷ [];
  post_images = record { post_id = 1; position = 0; image_asset_id = 7 } ∷ [];
  assets = asset ∷ [];
  records = image_record ∷ text_record ∷ [];
  next_record_id = 22;
  outbox = record { intents = []; next_intent_id = 1; deliveries = [] };
  retries = [];
  alerts = [];
}

abbrev input : ManualPostReviewInput
input = record { post_id = 1; reviewer_id = 2; verdict = verdict_pass; valid_response = true }

abbrev decisions : List ModerationRecord
decisions =
    post_manual_record 100 input text_record 22 ∷ post_manual_record 100 input image_record 23 ∷ []

abbrev decided : Store
decided = record store {
  posts = record post { status = approved } ∷ [];
  assets = record asset { moderation = moderation_pass } ∷ [];
  records = reverse decisions ++ store.records;
  next_record_id = 24;
  outbox = (enqueue 7 23 true true 100 store.outbox).0;
}

-- The verdict `pass` publishes the post and its image.
review_runs : manual_review_post 100 input store ≡ ok (decided, decisions)
unfolding manual_review_post validate_manual_post_review_input lock_post_review_snapshot
    create_post_manual_records apply_post_manual_verdict validate_post_review_assets order_records
    joined_images latest create_records create_manual_record update_images apply_accesses
    reconcile_pending_posts unique_from apply_access update_image_moderation
review_runs = refl

-- A second review finds the post decided.
review_again : manual_review_post 200 input decided ≡ err not_pending
unfolding manual_review_post validate_manual_post_review_input lock_post_review_snapshot
review_again = refl

manual_review_post-Reviews_example :
    (decided.records ≡ reverse decisions ++ store.records) × All (Reviews store input) decisions
manual_review_post-Reviews_example =
    manual_review_post-Reviews 100 input store decided decisions review_runs
