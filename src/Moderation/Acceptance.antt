-- ===== src/Moderation/Acceptance.antt =====
-- The ways in which a callback is accepted (internal/service/moderation_callback.go).
use danshi_backend.Base.{
  ◌==◌, Bool-cases, bind-eq_ok, ok, inr, Bool, ap, ◌⊎◌, ◌∷◌, ◌+◌, some, ℕ, false, sym, inl, ◌≡◌,
  ◌∙◌, refl, true,
}
use danshi_backend.Moderation.Callback.{
  ImageModerationCallback, ImageModerationApplyResult, validate_image_callback,
  validate_callback_asset, image_moderation_record, apply_image_result,
}
use danshi_backend.Moderation.Data.{ModerationStatus, ImageAsset, ModerationRecord, Store}
use danshi_backend.Moderation.Effects.{
  after_new, apply_new_image_result-eq_ok, after_duplicate, reconcile_duplicate-eq_ok,
}
use danshi_backend.Moderation.Repository.{
  same_id, lock_pending_posts_for_image, lock_images_for_posts,
  find_machine_record_by_provider_job_id, conflicts, create_machine_record_if_new, to_status,
  delete_for_asset,
}
use danshi_backend.Moderation.Validation.{valid_locked, valid_callback-id}

-- The store in which the callback's record is already the newest.
abbrev pub recorded : ℕ → ImageModerationCallback → Store → Store
recorded now_t c s = record s {
  records = record (image_moderation_record c now_t) { id = s.next_record_id } ∷ s.records;
  next_record_id = s.next_record_id + 1;
}

-- The record is new, or the table has one of its job and stays as it is.
create_machine_record-cases :
    (now_t : ℕ) (c : ImageModerationCallback) (s : Store)
    → let created = create_machine_record_if_new (image_moderation_record c now_t) s in
      (created ≡ (recorded now_t c s, true)) ⊎ (created ≡ (s, false))
unfolding create_machine_record_if_new
create_machine_record-cases now_t c s =
    elim (Bool-cases (conflicts (image_moderation_record c now_t) s)) [
      | inl e ↦ inr (rw e refl)
      | inr e ↦ inl (rw e refl)
    ]

-- The two ways in which a callback is accepted.
pub data Accepted (now_t : ℕ) (c : ImageModerationCallback) (s s' : Store) : Type 0 where
  concluded :
      (asset : ImageAsset) (m : ModerationStatus)
      → validate_callback_asset c s.assets ≡ ok asset
      → to_status c.verdict ≡ some m
      → (s.next_record_id == 0) ≡ false
      → s'
        ≡ after_new now_t c
            (lock_pending_posts_for_image c.image_asset_id s)
            asset
            s.next_record_id
            m
            (recorded now_t c s)
      → Accepted now_t c s s'
  repeated :
      (asset : ImageAsset) (existing : ModerationRecord)
      → validate_callback_asset c s.assets ≡ ok asset
      → find_machine_record_by_provider_job_id c.provider c.provider_job_id s ≡ some existing
      → same_id existing.image_asset_id c.image_asset_id ≡ true
      → (existing.id == 0) ≡ false
      → s' ≡ after_duplicate now_t c asset existing s
      → Accepted now_t c s s'

pub apply_image_result-eq_ok :
    (now_t : ℕ) (c : ImageModerationCallback) (require_job_id : Bool) (s s' : Store)
    (r : ImageModerationApplyResult)
    → apply_image_result now_t c require_job_id s ≡ ok (s', r)
    → (validate_image_callback c require_job_id ≡ ok tt) × Accepted now_t c s s'
unfolding apply_image_result
apply_image_result-eq_ok now_t c require_job_id s s' r h =
    let (u, v, checked) = bind-eq_ok (validate_image_callback c require_job_id) _ h in
    let posts = lock_pending_posts_for_image c.image_asset_id s in
    let (asset, found, rest) =
      bind-eq_ok (validate_callback_asset c (lock_images_for_posts c.image_asset_id posts s)) _
        checked in
    let nz = valid_callback-id c require_job_id u v in
    let valid = sym (valid_locked c posts s nz) ∙ found in
    elim (create_machine_record-cases now_t c s) [
      | inl e ↦
          let (m, status, numbered, final) =
            apply_new_image_result-eq_ok now_t c posts asset s.next_record_id (recorded now_t c s)
              s' r (rw e at rest) in
          (v, concluded asset m valid status numbered final)
      | inr e ↦
          let (existing, known, own, numbered, final) =
            reconcile_duplicate-eq_ok now_t c asset s s' r (rw e at rest) in
          (v, repeated asset existing valid known own numbered final)
    ]

-- An accepted callback removes the image from the queue of retries, and no other.
pub Accepted-retries :
    (now_t : ℕ) (c : ImageModerationCallback) (s s' : Store)
    → Accepted now_t c s s'
    → s'.retries ≡ (delete_for_asset c.image_asset_id s).retries
Accepted-retries now_t c s s' (concluded _ _ _ _ _ final) = ap (λ (x : Store). x.retries) final
Accepted-retries now_t c s s' (repeated _ _ _ _ _ _ final) = ap (λ (x : Store). x.retries) final
