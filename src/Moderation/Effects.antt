-- ===== src/Moderation/Effects.antt =====
-- What a callback has done once it is accepted (internal/service/moderation_callback.go).
use danshi_backend.Base.{
  ◌==◌, Bool-cases, Option-cases, bind-eq_ok, guard-eq_ok, ok, List, not, ◌∙◌, some, map, refl, ap,
  inl, ◌||◌, false, true, arith, ℕ, inr, ◌≡◌,
}
use danshi_backend.ImageAccess.Outbox.{enqueue}
use danshi_backend.Moderation.Callback.{
  ImageModerationCallback, ImageModerationApplyResult, ImageAccessChange, apply_access,
  image_access_purge_required, reconcile_duplicate_image_result, alert_verdict,
  apply_new_image_result,
}
use danshi_backend.Moderation.Data.{
  Verdict, ModerationStatus, ImageAsset, ModerationRecord, Store, is_verdict_pass, is_pass_image,
  verdict_pass, verdict_review, verdict_block, other_verdict, moderation_pass, moderation_review,
  moderation_block,
}
use danshi_backend.Moderation.Reconcile.{settled, reconcile_pending_posts-settled}
use danshi_backend.Moderation.Repository.{
  same_id, find_machine_record_by_provider_job_id, to_status, set_moderation,
  update_image_moderation, delete_for_asset,
}

pub apply_access-eq_ok :
    (now_t : ℕ) (change : ImageAccessChange) (s s' : Store)
    → apply_access now_t change s ≡ ok s'
    → ((change.source_moderation_record_id == 0) ≡ false)
      × (s' ≡ record s {
        outbox =
            (enqueue change.image_asset_id change.source_moderation_record_id change.public
              change.purge_required now_t s.outbox).0;
      })
unfolding apply_access
apply_access-eq_ok now_t change s s' h =
    elim (Bool-cases (change.image_asset_id == 0 || change.source_moderation_record_id == 0)) [
      | inl e ↦ cc (rw e at h)
      | inr e ↦ (ground (arith, e), cc (rw e at h))
    ]

pub update_image_moderation-eq_ok :
    (image : ℕ) (v : Verdict) (s s' : Store)
    → update_image_moderation image v s ≡ ok s'
    → (m : ModerationStatus) × (to_status v ≡ some m)
      × (s' ≡ record s { assets = set_moderation image m s.assets })
unfolding update_image_moderation
update_image_moderation-eq_ok image verdict_pass s s' h =
    (moderation_pass, refl, (guard-eq_ok _ _ h).1)
update_image_moderation-eq_ok image verdict_review s s' h =
    (moderation_review, refl, (guard-eq_ok _ _ h).1)
update_image_moderation-eq_ok image verdict_block s s' h =
    (moderation_block, refl, (guard-eq_ok _ _ h).1)
update_image_moderation-eq_ok image (other_verdict _) s s' h = cc h

-- The store after a callback whose record is new, and has the number `source`.
abbrev pub after_new :
    ℕ → ImageModerationCallback → List ℕ → ImageAsset → ℕ → ModerationStatus → Store → Store
after_new now_t c post_ids asset source m s =
    let moderated : Store = record s { assets = set_moderation c.image_asset_id m s.assets } in
    record moderated {
      posts = map (settled post_ids moderated) s.posts;
      outbox =
          (enqueue asset.id source (is_verdict_pass c.verdict)
            (image_access_purge_required (is_verdict_pass c.verdict) asset) now_t s.outbox).0;
      retries = (delete_for_asset c.image_asset_id s).retries;
      alerts = (alert_verdict c s).alerts;
    }

pub apply_new_image_result-eq_ok :
    (now_t : ℕ) (c : ImageModerationCallback) (post_ids : List ℕ) (asset : ImageAsset) (source : ℕ)
    (s s' : Store) (r : ImageModerationApplyResult)
    → apply_new_image_result now_t c post_ids asset source s ≡ ok (s', r)
    → (m : ModerationStatus) × (to_status c.verdict ≡ some m)
      × ((source == 0) ≡ false)
      × (s' ≡ after_new now_t c post_ids asset source m s)
unfolding apply_new_image_result
apply_new_image_result-eq_ok now_t c post_ids asset source s s' r h =
    let (moderated, e, rest) = bind-eq_ok _ _ h in
    let (accessed, e', done) = bind-eq_ok _ _ rest in
    let (m, status, set) = update_image_moderation-eq_ok _ _ s moderated e in
    let (numbered, written) = apply_access-eq_ok now_t _ _ accessed e' in
    let intent : Store → Store = λ st. record (alert_verdict c st) {
      outbox =
          (enqueue asset.id source (is_verdict_pass c.verdict)
            (image_access_purge_required (is_verdict_pass c.verdict) asset) now_t st.outbox).0;
    } in
    let all : Store → Store = λ st. delete_for_asset c.image_asset_id (intent st) in
    let deleted : s' ≡ delete_for_asset c.image_asset_id accessed = cc done in
    (
      m,
      status,
      numbered,
      deleted
          ∙ (ap (delete_for_asset c.image_asset_id) written
              ∙ (ap all (reconcile_pending_posts-settled post_ids moderated)
                  ∙ ap (λ mo. all (record mo { posts = map (settled post_ids mo) mo.posts })) set)),
    )

-- The store after a callback whose job has the record `existing`.
abbrev pub after_duplicate :
    ℕ → ImageModerationCallback → ImageAsset → ModerationRecord → Store → Store
after_duplicate now_t c asset existing s = record s {
  outbox =
      (enqueue asset.id existing.id (is_pass_image asset)
        (image_access_purge_required (is_pass_image asset) asset) now_t s.outbox).0;
  retries = (delete_for_asset c.image_asset_id s).retries;
}

pub reconcile_duplicate-eq_ok :
    (now_t : ℕ) (c : ImageModerationCallback) (asset : ImageAsset) (s s' : Store)
    (r : ImageModerationApplyResult)
    → reconcile_duplicate_image_result now_t c asset s ≡ ok (s', r)
    → (existing : ModerationRecord) × (find_machine_record_by_provider_job_id c.provider
          c.provider_job_id s
        ≡ some existing)
      × (same_id existing.image_asset_id c.image_asset_id ≡ true)
      × ((existing.id == 0) ≡ false)
      × (s' ≡ after_duplicate now_t c asset existing s)
unfolding reconcile_duplicate_image_result
reconcile_duplicate-eq_ok now_t c asset s s' r h =
    elim (Option-cases (find_machine_record_by_provider_job_id c.provider c.provider_job_id s)) [
      | inl e ↦ cc (rw (reconcile_duplicate_image_result, e) at h)
      | inr (existing, e) ↦
          elim (Bool-cases (not (same_id existing.image_asset_id c.image_asset_id))) [
            | inl b ↦ cc (rw (reconcile_duplicate_image_result, e, b) at h)
            | inr b ↦
                let own : same_id existing.image_asset_id c.image_asset_id ≡ true =
                  ground (arith, b) in
                let (accessed, e', done) =
                  bind-eq_ok _ _ (rw (reconcile_duplicate_image_result, e, b) at h) in
                let (numbered, written) = apply_access-eq_ok now_t _ s accessed e' in
                let deleted : s' ≡ delete_for_asset c.image_asset_id accessed = cc done in
                (
                  existing,
                  e,
                  own,
                  numbered,
                  deleted ∙ ap (delete_for_asset c.image_asset_id) written,
                )
          ]
    ]
