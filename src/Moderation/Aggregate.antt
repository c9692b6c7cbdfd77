-- ===== src/Moderation/Aggregate.antt =====
-- `aggregatePostModeration` of internal/service/post_write.go: the status of a post from the verdict
-- on its text and the moderation of its images.
use danshi_backend.Base.{if◌then◌else◌, any, Result, ok, err, ◌||◌, List, not}
use danshi_backend.Moderation.Data.{
  Verdict, PostStatus, ImageAsset, ApiError, is_verdict_pass, is_verdict_review, is_verdict_block,
  is_pending_image, is_review_image, is_block_image, pending, approved, rejected, internal,
}

unfoldable pub aggregate_post_moderation : Verdict → List ImageAsset → Result ApiError PostStatus
aggregate_post_moderation verdict images =
    if is_verdict_block verdict || any is_block_image images
    then ok rejected
    else if is_verdict_review verdict || any is_review_image images || any is_pending_image images
    then ok pending
    else if not (is_verdict_pass verdict)
    then err internal
    else ok approved
