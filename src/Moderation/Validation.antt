-- ===== src/Moderation/Validation.antt =====
-- The checks of a callback in internal/service/moderation_callback.go: what passing them means.
use danshi_backend.Base.{
  ◌==◌, ==_iff, Bool-cases, if_rule, filter, is_blank, ok, inr, inl, ◌∙◌, arith, ◌≡◌, ◌∷◌, sym,
  Bool, subst, refl, true, List, false, [], ℕ,
}
use danshi_backend.Moderation.Callback.{
  ImageModerationCallback, validate_image_callback, validate_callback_asset,
}
use danshi_backend.Moderation.Data.{ModerationStatus, ImageAsset, Store}
use danshi_backend.Moderation.Reconcile.{is_in-unique_moderation_ids}
use danshi_backend.Moderation.Repository.{
  unique_moderation_ids, is_in, lock_images_for_posts, set_moderation,
}

-- Of the locked images, `validateCallbackAsset` looks at the callback's own.
validate_callback_asset-filter :
    (c : ImageModerationCallback) (ids : List ℕ) (as' : List ImageAsset)
    → is_in ids c.image_asset_id ≡ true
    → validate_callback_asset c (filter (λ (a : ImageAsset). is_in ids a.id) as')
      ≡ validate_callback_asset c as'
unfolding validate_callback_asset
validate_callback_asset-filter c ids [] h = refl
validate_callback_asset-filter c ids (a ∷ as') h = elim (Bool-cases (a.id == c.image_asset_id)) [
  | inl e ↦
      let same : a.id ≡ c.image_asset_id = (==_iff _ _).0 e in
      rw (subst (λ n. is_in ids n ≡ true) (sym same) h, e) refl
  | inr e ↦
      let rest = validate_callback_asset-filter c ids as' h in
      if_rule (λ xs. validate_callback_asset c xs ≡ validate_callback_asset c (a ∷ as'))
        (is_in ids a.id) (λ _. rw e rest) (λ _. rw e rest)
]

-- Once its moderation is set, the asset passes the same checks.
pub validate_callback_asset-set_moderation :
    (c : ImageModerationCallback) (m : ModerationStatus) (as' : List ImageAsset) (a : ImageAsset)
    → validate_callback_asset c as' ≡ ok a
    → validate_callback_asset c (set_moderation c.image_asset_id m as')
      ≡ ok (record a { moderation = m })
unfolding validate_callback_asset set_moderation
validate_callback_asset-set_moderation c m [] a h = cc h
validate_callback_asset-set_moderation c m (b ∷ as') a h =
    ground (arith, h, validate_callback_asset-set_moderation c m as' a)

pub validate_callback_asset-id :
    (c : ImageModerationCallback) (as' : List ImageAsset) (a : ImageAsset)
    → validate_callback_asset c as' ≡ ok a
    → a.id ≡ c.image_asset_id
unfolding validate_callback_asset
validate_callback_asset-id c [] a h = cc h
validate_callback_asset-id c (b ∷ as') a h = ground (arith, h, validate_callback_asset-id c as' a)

-- The callback's own image is among the locked ones.
locked :
    (c : ImageModerationCallback) (related : List ℕ)
    → (c.image_asset_id == 0) ≡ false
    → is_in (unique_moderation_ids (c.image_asset_id ∷ related)) c.image_asset_id ≡ true
locked c related nz =
    is_in-unique_moderation_ids (c.image_asset_id ∷ related) c.image_asset_id ∙ ground (arith, nz)

pub valid_locked :
    (c : ImageModerationCallback) (posts : List ℕ) (s : Store)
    → (c.image_asset_id == 0) ≡ false
    → validate_callback_asset c (lock_images_for_posts c.image_asset_id posts s)
      ≡ validate_callback_asset c s.assets
valid_locked c posts s nz = validate_callback_asset-filter c _ s.assets (locked c _ nz)

-- What the check of the identifiers establishes.
pub valid_callback-id :
    (c : ImageModerationCallback) (require_job_id : Bool) (u : Unit {0})
    → validate_image_callback c require_job_id ≡ ok u
    → (c.image_asset_id == 0) ≡ false
unfolding validate_image_callback
valid_callback-id c require_job_id u h = ground (arith, h)

pub valid_callback-job :
    (c : ImageModerationCallback) (u : Unit {0})
    → validate_image_callback c true ≡ ok u
    → is_blank c.provider_job_id ≡ false
unfolding validate_image_callback
valid_callback-job c u h = ground (arith, h)
