-- ===== src/Moderation/Histories.antt =====
-- The steps of a manual review (internal/service/moderation_callback.go) that write no history.
use danshi_backend.Base.{
  Option-cases, bind-eq_ok, ok, ◌∙◌, ◌++◌, List, ap, inr, inl, sym, ℕ, ◌≡◌, ◌∷◌, [],
}
use danshi_backend.Moderation.Callback.{apply_image_access}
use danshi_backend.Moderation.Data.{Verdict, ImageAsset, ModerationRecord, Store}
use danshi_backend.Moderation.Effects.{apply_access-eq_ok, update_image_moderation-eq_ok}
use danshi_backend.Moderation.Reconcile.{reconcile_pending_posts-settled}
use danshi_backend.Moderation.Repository.{
  unique_from, reconcile_pending_posts, update_image_moderation,
}
use danshi_backend.Moderation.Review.{
  ManualPostReviewInput, PostReviewSnapshot, asset_by_id, record_images,
}
use danshi_backend.Moderation.ReviewPost.{
  update_images, apply_accesses, pending_post_ids_for_images, apply_post_manual_verdict,
}

update_images-records :
    (ns : List ℕ) (v : Verdict) (s s' : Store)
    → update_images ns v s ≡ ok s'
    → s'.records ≡ s.records
unfolding update_images
update_images-records [] v s s' h =
    let same : s ≡ s' = cc h in sym (ap (λ (x : Store). x.records) same)
update_images-records (n ∷ ns) v s s' h =
    let (updated, first, rest) = bind-eq_ok (update_image_moderation n v s) _ h in
    let (_, _, set) = update_image_moderation-eq_ok n v s updated first in
    update_images-records ns v updated s' rest ∙ ap (λ (x : Store). x.records) set

apply_image_access-records :
    (now_t : ℕ) (a : ImageAsset) (source : ℕ) (v : Verdict) (s s' : Store)
    → apply_image_access now_t a source v s ≡ ok s'
    → s'.records ≡ s.records
apply_image_access-records now_t a source v s s' h =
    ap (λ (x : Store). x.records) (apply_access-eq_ok now_t _ s s' h).1

apply_accesses-records :
    (now_t : ℕ) (assets : List ImageAsset) (v : Verdict) (rs : List ModerationRecord) (s s' : Store)
    → apply_accesses now_t assets v rs s ≡ ok s'
    → s'.records ≡ s.records
unfolding apply_accesses
apply_accesses-records now_t assets v [] s s' h =
    let same : s ≡ s' = cc h in sym (ap (λ (x : Store). x.records) same)
apply_accesses-records now_t assets v (r ∷ rs) s s' h = elim (Option-cases r.image_asset_id) [
  | inl e ↦ apply_accesses-records now_t assets v rs s s' (rw (apply_accesses, e) at h)
  | inr (n, e) ↦ elim (Option-cases (asset_by_id n assets)) [
    | inl k ↦ apply_accesses-records now_t assets v rs s s' (rw (apply_accesses, e, k) at h)
    | inr (a, k) ↦
        let (applied, first, rest) =
          bind-eq_ok (apply_image_access now_t a r.id v s) _ (rw (apply_accesses, e, k) at h) in
        apply_accesses-records now_t assets v rs applied s' rest
        ∙ apply_image_access-records now_t a r.id v s applied first
  ]
]

pub apply_post_manual_verdict-records :
    (now_t : ℕ) (input : ManualPostReviewInput) (snapshot : PostReviewSnapshot)
    (rs : List ModerationRecord) (s s' : Store)
    → apply_post_manual_verdict now_t input snapshot rs s ≡ ok s'
    → s'.records ≡ s.records
unfolding apply_post_manual_verdict
apply_post_manual_verdict-records now_t input snapshot rs s s' h =
    let images = unique_from [] (record_images rs) in
    let (updated, first, rest) = bind-eq_ok (update_images images input.verdict s) _ h in
    let ids = pending_post_ids_for_images images updated ++ input.post_id ∷ [] in
    apply_accesses-records now_t snapshot.assets input.verdict rs
      (reconcile_pending_posts ids updated).0 s' rest
    ∙ (ap (λ (x : Store). x.records) (reconcile_pending_posts-settled ids updated)
        ∙ update_images-records images input.verdict s updated first)
