-- ===== src/Posts/Accepted.antt =====
-- What a post may show: the images that internal/service/post_write.go lets through.
use text.Mathlib.TextEquality.{eq_iff}
use danshi_backend.Base.{
  Bool-cases, Option-cases, any, All, bind-eq_ok, ok, ℕ, ◌+◌, ◌↔◌, str_eq, false, refl, ◌≡◌, subst,
  ◌||◌, map, String, inl, true, List, ◌∷◌, some, inr, none, arith, ◌∙◌, ap, Option, [],
}
use danshi_backend.Moderation.Aggregate.{aggregate_post_moderation}
use danshi_backend.Moderation.Data.{
  Verdict, ImageAsset, is_verdict_pass, is_pending_image, is_pass_image, is_review_image,
  is_block_image, is_purged_image_url, approved,
}
use danshi_backend.Moderation.Repository.{same_id}
use danshi_backend.Posts.Images.{
  by_url, is_referable, is_for_posts, check_image, order_images, validate_and_order_images,
}

-- An image that the author may use in a post.
pub record IsUsable (author : ℕ) (a : ImageAsset) : Type 0 where
  pub present : is_purged_image_url a.public_url ≡ false
  pub referable : is_referable a.image_status ≡ true
  pub owned : same_id a.uploader_id author ≡ true
  pub for_posts : is_for_posts a.purpose ≡ true
  pub not_blocked : is_block_image a ≡ false

check_image-IsUsable :
    (author at : ℕ) (o : Option ImageAsset) (a : ImageAsset)
    → check_image author at o ≡ ok a
    → (o ≡ some a) × IsUsable author a
unfolding check_image
check_image-IsUsable author at none a h = cc h
check_image-IsUsable author at (some b) a h =
    let same : b ≡ a = ground (arith, h) in
    (
      ap some same,
      subst (IsUsable author) same (record {
        present = ground (arith, h);
        referable = ground (arith, h);
        owned = ground (arith, h);
        for_posts = ground (arith, h);
        not_blocked = ground (arith, h);
      }),
    )

by_url-public_url :
    (url : String) (as' : List ImageAsset) (a : ImageAsset)
    → by_url url as' ≡ some a
    → a.public_url ≡ url
unfolding by_url
by_url-public_url url [] a h = cc h
by_url-public_url url (b ∷ as') a h = elim (Option-cases (by_url url as')) [
  | inr (b', e) ↦
      let same : b' ≡ a = cc (rw (by_url, e) at h) in by_url-public_url url as' a (e ∙ ap some same)
  | inl e ↦ elim (Bool-cases (str_eq b.public_url url)) [
    | inl k ↦
        let same : b ≡ a = cc (rw (by_url, e, k) at h) in
        subst (λ (x : ImageAsset). x.public_url ≡ url) same ((eq_iff b.public_url url).0 k)
    | inr k ↦ cc (rw (by_url, e, k) at h)
  ]
]

order_images-IsUsable :
    (assets : List ImageAsset) (author at : ℕ) (urls : List String) (ordered : List ImageAsset)
    (ids : List ℕ)
    → order_images assets author at urls ≡ ok (ordered, ids)
    → (map (λ (a : ImageAsset). a.public_url) ordered ≡ urls)
      × (map (λ (a : ImageAsset). a.id) ordered ≡ ids)
      × All (IsUsable author) ordered
unfolding order_images
order_images-IsUsable assets author at [] ordered ids h =
    let left : [] ≡ ordered =
      ap (λ (x : List ImageAsset × List ℕ). x.0) {x = ([], [])} {y = (ordered, ids)} (cc h) in
    let right : [] ≡ ids = cc h in
    (
      subst (λ (xs : List ImageAsset). map (λ (b : ImageAsset). b.public_url) xs ≡ []) left refl,
      subst (λ (xs : List ImageAsset). map (λ (b : ImageAsset). b.id) xs ≡ ids) left right,
      subst (All (IsUsable author)) left tt,
    )
order_images-IsUsable assets author at (url ∷ urls) ordered ids h =
    let (a, e, next_step) = bind-eq_ok (check_image author at (by_url url assets)) _ h in
    let (rest, e', done) = bind-eq_ok (order_images assets author (at + 1) urls) _ next_step in
    let (found, usable) = check_image-IsUsable author at (by_url url assets) a e in
    let (us, is, all) = order_images-IsUsable assets author (at + 1) urls rest.0 rest.1 e' in
    let first : a ∷ rest.0 ≡ ordered = cc done in
    let numbers : a.id ∷ rest.1 ≡ ids = cc done in
    (
      subst (λ (xs : List ImageAsset). map (λ (b : ImageAsset). b.public_url) xs ≡ url ∷ urls) first
          (cc (by_url-public_url url assets a found, us)),
      subst (λ (xs : List ImageAsset). map (λ (b : ImageAsset). b.id) xs ≡ ids) first
          (ap (λ ks. a.id ∷ ks) is ∙ numbers),
      subst (All (IsUsable author)) first (usable, all),
    )

-- Where the images of a post are accepted, the post shows one image for each URL given, in that
-- order, and each is the author's own, meant for posts, not retired or deleted, and not blocked.
pub validate_and_order_images-IsUsable :
    (urls : List String) (assets : List ImageAsset) (author : ℕ) (ordered : List ImageAsset)
    (ids : List ℕ)
    → validate_and_order_images urls assets author ≡ ok (ordered, ids)
    → (map (λ (a : ImageAsset). a.public_url) ordered ≡ urls)
      × (map (λ (a : ImageAsset). a.id) ordered ≡ ids)
      × All (IsUsable author) ordered
unfolding validate_and_order_images
validate_and_order_images-IsUsable urls assets author = order_images-IsUsable assets author 1 urls

approved_images :
    (as' : List ImageAsset)
    → any is_block_image as' ≡ false
    → (any is_review_image as' || any is_pending_image as') ≡ false
    → All (λ a. is_pass_image a ≡ true) as'
approved_images [] b h = tt
approved_images (a ∷ as') b h =
    (ground (arith, b, h), approved_images as' (ground (arith, b)) (ground (arith, h)))

passed_images :
    (as' : List ImageAsset)
    → All (λ a. is_pass_image a ≡ true) as'
    → (any is_block_image as' ≡ false)
      × ((any is_review_image as' || any is_pending_image as') ≡ false)
passed_images [] h = (refl, refl)
passed_images (a ∷ as') h =
    let rest = passed_images as' h.1 in (ground (arith, h.0, rest), ground (arith, h.0, rest))

-- A post is approved exactly if its text and each of its images have passed.
pub aggregate_post_moderation-approved :
    (v : Verdict) (images : List ImageAsset)
    → (aggregate_post_moderation v images ≡ ok approved)
      ↔ ((is_verdict_pass v ≡ true) × All (λ a. is_pass_image a ≡ true) images)
unfolding aggregate_post_moderation
aggregate_post_moderation-approved v images = (
  (λ h. (ground (arith, h), approved_images images (ground (arith, h)) (ground (arith, h)))),
  (λ h. let rest = passed_images images h.1 in ground (arith, h.0, rest)),
)
