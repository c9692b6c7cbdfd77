-- ===== src/Posts/Images.antt =====
-- `validateAndOrderImages` of internal/service/post_write.go.
use danshi_backend.Base.{
  if◌then◌else◌, Result, ◌>>=◌, ok, err, List, true, Bool, ◌∷◌, [], str_eq, false, String, Option,
  ◌+◌, not, ℕ, some, none,
}
use danshi_backend.Moderation.Data.{
  ImageStatus, ImagePurpose, ImageAsset, is_block_image, is_purged_image_url, image_pending,
  image_ready, image_retired, purpose_post, purpose_avatar,
}
use danshi_backend.Moderation.Repository.{same_id}

-- `at` is the place of the image in the post, from 1, and `upload` its number.
pub data ImageError : Type 0 where
  no_such_image not_referable not_owned wrong_purpose : ImageError
  not_passed : (at upload : ℕ) → ImageError

-- The map from URLs to assets: a later asset with the same URL replaces an earlier one.
unfoldable pub by_url : String → List ImageAsset → Option ImageAsset
by_url url [] = none
by_url url (a ∷ as') = elim (by_url url as') [
  | some b ↦ some b
  | none ↦ if str_eq a.public_url url then some a else none
]

abbrev pub is_referable : ImageStatus → Bool
is_referable image_pending = true
is_referable image_ready = true
is_referable image_retired = false

abbrev pub is_for_posts : ImagePurpose → Bool
is_for_posts purpose_post = true
is_for_posts purpose_avatar = false

-- The tests of one image, in the order of the source; `at` is the place of the image.
unfoldable pub check_image : ℕ → ℕ → Option ImageAsset → Result ImageError ImageAsset
check_image author at none = err no_such_image
check_image author at (some a) =
    if is_purged_image_url a.public_url
    then err no_such_image
    else if not (is_referable a.image_status)
    then err not_referable
    else if not (same_id a.uploader_id author)
    then err not_owned
    else if not (is_for_posts a.purpose)
    then err wrong_purpose
    else if is_block_image a
    then err (not_passed at a.id)
    else ok a

-- The loop, for the images from the place `at` on.
unfoldable pub order_images :
    List ImageAsset → ℕ → ℕ → List String → Result ImageError (List ImageAsset × List ℕ)
unfolding by_url check_image
order_images assets author at [] = ok ([], [])
order_images assets author at (url ∷ urls) = do
  a ← check_image author at (by_url url assets)
  rest ← order_images assets author (at + 1) urls
  ok (a ∷ rest.0, a.id ∷ rest.1)

unfoldable pub validate_and_order_images :
    List String → List ImageAsset → ℕ → Result ImageError (List ImageAsset × List ℕ)
unfolding order_images
validate_and_order_images urls assets author = order_images assets author 1 urls
