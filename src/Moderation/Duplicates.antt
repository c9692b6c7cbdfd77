-- ===== src/Moderation/Duplicates.antt =====
-- Callbacks that are delivered again (internal/service/moderation_callback.go): providers retry, so
-- the same callback may come any number of times.
use text.Mathlib.TextPositions.{eq_refl}
use danshi_backend.Base.{
  ◌==◌, Bool-cases, filter, any, is_blank, is_blank-empty, ok, ap, List, not, refl, ◌||◌, sym, ℕ,
  Bool, arith, inl, ◌∷◌, [], ◌≡◌, subst, some, true, false, inr,
}
use danshi_backend.ImageAccess.Outbox.{Tables, has_source, enqueue}
use danshi_backend.Moderation.Acceptance.{
  concluded, recorded, Accepted, apply_image_result-eq_ok, repeated,
}
use danshi_backend.Moderation.Callback.{
  ImageModerationCallback, ImageModerationApplyResult, ImageAccessChange, validate_image_callback,
  validate_callback_asset, image_moderation_record, apply_access, image_access_purge_required,
  reconcile_duplicate_image_result, apply_image_result,
}
use danshi_backend.Moderation.Data.{
  ModerationStatus, ImageAsset, ModerationRecord, Retry, Store, is_pass_image,
}
use danshi_backend.Moderation.Effects.{after_new, after_duplicate}
use danshi_backend.Moderation.Repository.{
  same_id, lock_pending_posts_for_image, has_job, find_record,
  find_machine_record_by_provider_job_id, create_machine_record_if_new, delete_for_asset,
}
use danshi_backend.Moderation.Validation.{
  validate_callback_asset-set_moderation, validate_callback_asset-id, valid_locked,
  valid_callback-id, valid_callback-job,
}

find_record-any :
    (test : ModerationRecord → Bool) (rs : List ModerationRecord) (r : ModerationRecord)
    → find_record test rs ≡ some r
    → any test rs ≡ true
unfolding find_record
find_record-any test [] r h = cc h
find_record-any test (q ∷ rs) r h = ground (arith, find_record-any test rs r)

filter_idem :
    (x : ℕ) (rs : List Retry)
    → let f = filter (λ (r : Retry). not (r.image_asset_id == x)) in f (f rs) ≡ f rs
filter_idem x [] = refl
filter_idem x (r ∷ rs) = ground (arith, filter_idem x rs)

-- The store knows the callback's job: its record, the record's intent, and no retry is left.
pub record Absorbed (c : ImageModerationCallback) (s : Store) : Type 0 where
  pub asset : ImageAsset
  pub valid : validate_callback_asset c s.assets ≡ ok asset
  pub existing : ModerationRecord
  pub found : find_machine_record_by_provider_job_id c.provider c.provider_job_id s ≡ some existing
  pub same : same_id existing.image_asset_id c.image_asset_id ≡ true
  pub numbered : (existing.id == 0) ≡ false
  pub known : any (has_source existing.id) s.outbox.intents ≡ true
  pub cleared : (delete_for_asset c.image_asset_id s).retries ≡ s.retries

apply_access-known :
    (now_t : ℕ) (change : ImageAccessChange) (s : Store)
    → (change.image_asset_id == 0 || change.source_moderation_record_id == 0) ≡ false
    → any (has_source change.source_moderation_record_id) s.outbox.intents ≡ true
    → apply_access now_t change s ≡ ok s
unfolding apply_access enqueue
apply_access-known now_t change s h k = rw (h, k) refl

reconcile_duplicate-Absorbed :
    (now_t : ℕ) (c : ImageModerationCallback) (s : Store) (h : Absorbed c s)
    → (c.image_asset_id == 0) ≡ false
    → reconcile_duplicate_image_result now_t c h.asset s
      ≡ ok (s, record { duplicate = true; approved = 0; rejected = 0 })
unfolding reconcile_duplicate_image_result
reconcile_duplicate-Absorbed now_t c s h nz =
    let change : ImageAccessChange = record {
      image_asset_id = h.asset.id;
      source_moderation_record_id = h.existing.id;
      public = is_pass_image h.asset;
      purge_required = image_access_purge_required (is_pass_image h.asset) h.asset;
    } in
    let same_asset : h.asset.id ≡ c.image_asset_id =
      validate_callback_asset-id c s.assets h.asset h.valid in
    rw (reconcile_duplicate_image_result, h.found, h.same)
      (rw (apply_access-known now_t change s (rw (same_asset, nz, h.numbered) refl) h.known) (
        ap
          (λ rs.
            ok (record s { retries = rs }, record { duplicate = true; approved = 0; rejected = 0 }))
          h.cleared))

known_job :
    (c : ImageModerationCallback) (now_t : ℕ) (s : Store)
    → is_blank c.provider_job_id ≡ false
    → any (has_job c.provider c.provider_job_id) s.records ≡ true
    → create_machine_record_if_new (image_moderation_record c now_t) s ≡ (s, false)
unfolding create_machine_record_if_new
known_job c now_t s blank h = rw (is_blank-empty c.provider_job_id blank, h) refl

-- A callback whose job is known changes nothing.
apply_image_result-Absorbed :
    (now_t : ℕ) (c : ImageModerationCallback) (s : Store)
    → Absorbed c s
    → validate_image_callback c true ≡ ok tt
    → apply_image_result now_t c true s
      ≡ ok (s, record { duplicate = true; approved = 0; rejected = 0 })
unfolding apply_image_result
apply_image_result-Absorbed now_t c s h v =
    let nz = valid_callback-id c true tt v in
    let blank = valid_callback-job c tt v in
    rw
      (
        v,
        valid_locked c (lock_pending_posts_for_image c.image_asset_id s) s nz,
        h.valid,
        known_job c now_t s blank (find_record-any _ s.records h.existing h.found),
      )
      (reconcile_duplicate-Absorbed now_t c s h nz)

enqueue-has_source :
    (asset source : ℕ) (public purge : Bool) (now_t : ℕ) (t : Tables)
    → any (has_source source) (enqueue asset source public purge now_t t).0.intents ≡ true
unfolding enqueue
enqueue-has_source asset source public purge now_t t =
    elim (Bool-cases (any (has_source source) t.intents)) [
      | inl e ↦ rw (e, e) refl
      | inr e ↦ rw e (ground arith)
    ]

after_duplicate-Absorbed :
    (now_t : ℕ) (c : ImageModerationCallback) (s : Store) (asset : ImageAsset)
    (existing : ModerationRecord)
    → validate_callback_asset c s.assets ≡ ok asset
    → find_machine_record_by_provider_job_id c.provider c.provider_job_id s ≡ some existing
    → same_id existing.image_asset_id c.image_asset_id ≡ true
    → (existing.id == 0) ≡ false
    → Absorbed c (after_duplicate now_t c asset existing s)
after_duplicate-Absorbed now_t c s asset existing valid found same numbered = record {
  asset = asset;
  valid = valid;
  existing = existing;
  found = found;
  same = same;
  numbered = numbered;
  known = enqueue-has_source asset.id existing.id _ _ now_t s.outbox;
  cleared = filter_idem c.image_asset_id s.retries;
}

after_new-Absorbed :
    (now_t : ℕ) (c : ImageModerationCallback) (post_ids : List ℕ) (s : Store) (asset : ImageAsset)
    (m : ModerationStatus)
    → validate_callback_asset c s.assets ≡ ok asset
    → is_blank c.provider_job_id ≡ false
    → (s.next_record_id == 0) ≡ false
    → Absorbed c (after_new now_t c post_ids asset s.next_record_id m (recorded now_t c s))
unfolding find_record
after_new-Absorbed now_t c post_ids s asset m valid blank numbered = record {
  asset = record asset { moderation = m };
  valid = validate_callback_asset-set_moderation c m s.assets asset valid;
  existing = record (image_moderation_record c now_t) { id = s.next_record_id };
  found =
      rw (is_blank-empty c.provider_job_id blank, eq_refl c.provider, eq_refl c.provider_job_id)
        refl;
  same = ground arith;
  numbered = numbered;
  known = enqueue-has_source asset.id s.next_record_id _ _ now_t s.outbox;
  cleared = filter_idem c.image_asset_id s.retries;
}

Accepted-Absorbed :
    (now_t : ℕ) (c : ImageModerationCallback) (s s' : Store)
    → is_blank c.provider_job_id ≡ false
    → Accepted now_t c s s'
    → Absorbed c s'
Accepted-Absorbed now_t c s s' blank (concluded asset m valid status numbered final) =
    subst (Absorbed c) (sym final) (after_new-Absorbed now_t c _ s asset m valid blank numbered)
Accepted-Absorbed now_t c s s' blank (repeated asset existing valid found same numbered final) =
    subst (Absorbed c) (sym final)
      (after_duplicate-Absorbed now_t c s asset existing valid found same numbered)

-- A callback that the endpoint has accepted may come again, now or after: the second time it is
-- reported as a duplicate, and nothing is written at all.
pub apply_image_result-again :
    (now_t later : ℕ) (c : ImageModerationCallback) (s s' : Store) (r : ImageModerationApplyResult)
    → apply_image_result now_t c true s ≡ ok (s', r)
    → apply_image_result later c true s'
      ≡ ok (s', record { duplicate = true; approved = 0; rejected = 0 })
apply_image_result-again now_t later c s s' r h =
    let (v, accepted) = apply_image_result-eq_ok now_t c true s s' r h in
    apply_image_result-Absorbed later c s'
      (Accepted-Absorbed now_t c s s' (valid_callback-job c tt v) accepted) v
