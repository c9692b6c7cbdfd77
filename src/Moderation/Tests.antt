-- ===== src/Moderation/Tests.antt =====
-- The callbacks of internal/service/moderation_callback.go at a concrete store: post 1 awaits the
-- verdict on its image 7, post 2 was rejected.
use danshi_backend.Base.{ok, err, some, refl, ◌≡◌, ◌∷◌, none, true, arith, false, [], map}
use danshi_backend.Moderation.Aggregate.{aggregate_post_moderation}
use danshi_backend.Moderation.Agreement.{IsConsistent, apply_image_result-IsConsistent}
use danshi_backend.Moderation.Callback.{
  ImageModerationCallback, validate_image_callback, validate_callback_asset,
  image_moderation_record, apply_access, apply_new_image_result, apply_image_result,
}
use danshi_backend.Moderation.Data.{
  ImageAsset, ModerationRecord, Store, verdict_pass, verdict_block, other_verdict,
  moderation_pending, moderation_pass, pending, rejected, image_ready, purpose_post,
  callback_invalid,
}
use danshi_backend.Moderation.Duplicates.{apply_image_result-again}
use danshi_backend.Moderation.Effects.{after_new}
use danshi_backend.Moderation.Reconcile.{conclude, settled, reconcile_pending_posts-settled}
use danshi_backend.Moderation.Repository.{
  unique_moderation_ids, set_status, count_posts, reconcile_pending_posts, pending_posts,
  create_machine_record_if_new, update_image_moderation,
}

abbrev asset : ImageAsset
asset = record {
  id = 7;
  uploader_id = some 3;
  purpose = purpose_post;
  object_key = "posts/7.jpg";
  public_url = "https://img.example/7.jpg";
  image_status = image_ready;
  moderation = moderation_pending;
}

abbrev text_record : ModerationRecord
text_record = record {
  id = 20;
  post_id = some 1;
  image_asset_id = none;
  content_revision = some 1;
  provider = "text";
  provider_job_id = none;
  verdict = verdict_pass;
  labels = [];
  reviewer_id = none;
  supersedes_id = none;
  created_at = 5;
}

abbrev store : Store
store = record {
  posts =
      record { id = 1; status = pending; current_revision = 1; deleted_at = none }
      ∷ record { id = 2; status = rejected; current_revision = 1; deleted_at = none }
      ∷ [];
  post_images = record { post_id = 1; position = 0; image_asset_id = 7 } ∷ [];
  assets = asset ∷ [];
  records = text_record ∷ [];
  next_record_id = 21;
  outbox = record { intents = []; next_intent_id = 1; deliveries = [] };
  retries = [];
  alerts = [];
}

abbrev callback : ImageModerationCallback
callback = record {
  image_asset_id = 7;
  object_key = "posts/7.jpg";
  provider = "ims";
  provider_job_id = "job-9";
  verdict = verdict_pass;
  labels = [];
}

abbrev final : Store
final = after_new 100 callback (1 ∷ []) asset 21 moderation_pass record store {
  records = record (image_moderation_record callback 100) { id = 21 } ∷ store.records;
  next_record_id = 22;
}

abbrev blocked : ImageModerationCallback
blocked = record callback { verdict = verdict_block }

-- One post is published.
callback_runs :
    apply_image_result 100 callback true store
    ≡ ok (final, record { duplicate = false; approved = 1; rejected = 0 })
unfolding apply_image_result validate_image_callback validate_callback_asset pending_posts
    unique_moderation_ids create_machine_record_if_new apply_new_image_result
    update_image_moderation reconcile_pending_posts apply_access conclude aggregate_post_moderation
    set_status count_posts
callback_runs = refl

-- An unknown verdict is refused.
unknown_verdict :
    apply_image_result 100 (record callback { verdict = other_verdict "maybe" }) true store
    ≡ err callback_invalid
unfolding apply_image_result validate_image_callback
unknown_verdict = refl

store-IsConsistent : IsConsistent store
store-IsConsistent = record {
  unique = tt;
  sources = tt;
  numbers = (omega arith, tt);
  agrees = λ x a h. tt;
  delivered = λ x a h k. absurd (ground (arith, h, k));
}

reconcile_pending_posts-settled_example :
    (reconcile_pending_posts (1 ∷ 0 ∷ []) store).0
    ≡ record store { posts = map (settled (1 ∷ 0 ∷ []) store) store.posts }
reconcile_pending_posts-settled_example = reconcile_pending_posts-settled (1 ∷ 0 ∷ []) store

apply_image_result-again_example :
    apply_image_result 300 callback true final
    ≡ ok (final, record { duplicate = true; approved = 0; rejected = 0 })
apply_image_result-again_example =
    apply_image_result-again 100 300 callback store final
      (record { duplicate = false; approved = 1; rejected = 0 }) callback_runs

apply_image_result-IsConsistent_example : IsConsistent final
apply_image_result-IsConsistent_example =
    apply_image_result-IsConsistent 100 callback true store final
      (record { duplicate = false; approved = 1; rejected = 0 }) store-IsConsistent callback_runs
