-- ===== src/Posts/Tests.antt =====
-- The images of a post of user 3 (internal/service/post_write.go).
use danshi_backend.Base.{All, ok, err, map, List, [], ℕ, ◌∷◌, true, ◌↔◌, ◌≡◌, refl, some, String}
use danshi_backend.Moderation.Aggregate.{aggregate_post_moderation}
use danshi_backend.Moderation.Data.{
  ImageAsset, is_verdict_pass, is_pass_image, verdict_pass, moderation_pass, approved, image_ready,
  purpose_post,
}
use danshi_backend.Posts.Accepted.{
  IsUsable, validate_and_order_images-IsUsable, aggregate_post_moderation-approved,
}
use danshi_backend.Posts.Images.{
  by_url, check_image, order_images, validate_and_order_images, not_owned,
}

abbrev image : ℕ → String → ImageAsset
image n url = record {
  id = n;
  uploader_id = some 3;
  purpose = purpose_post;
  object_key = "posts/a.jpg";
  public_url = url;
  image_status = image_ready;
  moderation = moderation_pass;
}

abbrev assets : List ImageAsset
assets = image 7 "https://img.example/a.jpg" ∷ image 8 "https://img.example/b.jpg" ∷ []

abbrev urls : List String
urls = "https://img.example/b.jpg" ∷ "https://img.example/a.jpg" ∷ []

abbrev ordered : List ImageAsset
ordered = image 8 "https://img.example/b.jpg" ∷ image 7 "https://img.example/a.jpg" ∷ []

images_run : validate_and_order_images urls assets 3 ≡ ok (ordered, 8 ∷ 7 ∷ [])
unfolding validate_and_order_images order_images by_url check_image
images_run = refl

-- Somebody else's image is refused.
images_of_another : validate_and_order_images urls assets 4 ≡ err not_owned
unfolding validate_and_order_images order_images by_url check_image
images_of_another = refl

validate_and_order_images-IsUsable_example :
    (map (λ (a : ImageAsset). a.public_url) ordered ≡ urls)
    × (map (λ (a : ImageAsset). a.id) ordered ≡ 8 ∷ 7 ∷ [])
    × All (IsUsable 3) ordered
validate_and_order_images-IsUsable_example =
    validate_and_order_images-IsUsable urls assets 3 ordered (8 ∷ 7 ∷ []) images_run

aggregate_post_moderation-approved_example :
    (aggregate_post_moderation verdict_pass ordered ≡ ok approved)
    ↔ ((is_verdict_pass verdict_pass ≡ true) × All (λ a. is_pass_image a ≡ true) ordered)
aggregate_post_moderation-approved_example = aggregate_post_moderation-approved verdict_pass ordered
