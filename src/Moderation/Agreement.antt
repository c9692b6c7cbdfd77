-- ===== src/Moderation/Agreement.antt =====
-- The outbox agrees with the moderation of the images: what a callback leaves in
-- `image_access_deliveries` (internal/repository/image_access.go) is what the conclusion in
-- `image_assets` asks for.
use danshi_backend.Base.{
  ◌==◌, if◌then◌else◌, ==_iff, Bool-cases, Option-cases, any, All, ok, ◌<◌, refl, ap, Bool, ◌∷◌,
  none, Option, sym, inr, arith, ◌∙◌, ◌≡◌, true, some, ◌⊎◌, ℕ, inl, subst, false, List, [],
}
use danshi_backend.Accounts.Requests.{found}
use danshi_backend.ImageAccess.Checks.Statements.{upsert-IsUnique}
use danshi_backend.ImageAccess.Delivery.{Intent}
use danshi_backend.ImageAccess.Keys.{IsUnique}
use danshi_backend.ImageAccess.Outbox.{has_source, enqueue}
use danshi_backend.Moderation.Acceptance.{concluded, recorded, apply_image_result-eq_ok, repeated}
use danshi_backend.Moderation.Callback.{
  ImageModerationCallback, ImageModerationApplyResult, validate_callback_asset,
  image_access_purge_required, apply_image_result,
}
use danshi_backend.Moderation.Data.{
  Verdict, ModerationStatus, ImageAsset, ModerationRecord, Store, is_verdict_pass, is_pass_image,
  verdict_pass, verdict_review, verdict_block, other_verdict, moderation_pending,
}
use danshi_backend.Moderation.Desires.{Desires, is_delivered, upsert-agrees, upsert-delivers}
use danshi_backend.Moderation.Effects.{after_new, after_duplicate}
use danshi_backend.Moderation.Repository.{
  find_record, find_machine_record_by_provider_job_id, to_status, set_moderation,
}
use danshi_backend.Moderation.Validation.{validate_callback_asset-id}

-- The row of an asset, by the primary key.
abbrev pub find_asset : ℕ → List ImageAsset → Option ImageAsset
find_asset x [] = none
find_asset x (a ∷ as') = if a.id == x then some a else find_asset x as'

valid-find_asset :
    (c : ImageModerationCallback) (as' : List ImageAsset) (a : ImageAsset)
    → validate_callback_asset c as' ≡ ok a
    → find_asset c.image_asset_id as' ≡ some a
unfolding validate_callback_asset
valid-find_asset c [] a h = cc h
valid-find_asset c (b ∷ as') a h = ground (arith, h, valid-find_asset c as' a)

find_asset-set_moderation :
    (x y : ℕ) (m : ModerationStatus) (as' : List ImageAsset)
    → find_asset x (set_moderation y m as') ≡ elim (find_asset x as') [
      | none ↦ none
      | some a ↦ some (if x == y then record a { moderation = m } else a)
    ]
unfolding set_moderation
find_asset-set_moderation x y m [] = refl
find_asset-set_moderation x y m (a ∷ as') = ground (arith, find_asset-set_moderation x y m as')

abbrev pub is_concluded : ModerationStatus → Bool
is_concluded moderation_pending = false
is_concluded _ = true

-- The outbox has a row for each image with a conclusion and agrees with it, and no number of a record is used ahead of time.
pub record IsConsistent (s : Store) : Type 0 where
  pub unique : IsUnique s.outbox.deliveries
  pub sources : All (λ i. i.source_moderation_record_id < s.next_record_id) s.outbox.intents
  pub numbers : All (λ (r : ModerationRecord). r.id < s.next_record_id) s.records
  pub agrees :
      (x : ℕ) (a : ImageAsset)
      → find_asset x s.assets ≡ some a
      → Desires x (is_pass_image a) s.outbox.deliveries
  -- migrations/00012_image_access_outbox.sql queues the images that were concluded before it.
  pub delivered :
      (x : ℕ) (a : ImageAsset)
      → find_asset x s.assets ≡ some a
      → is_concluded a.moderation ≡ true
      → is_delivered x s.outbox.deliveries ≡ true

fresh_source :
    (n : ℕ) (is : List Intent)
    → All (λ i. i.source_moderation_record_id < n) is
    → any (has_source n) is ≡ false
fresh_source n [] h = refl
fresh_source n (i ∷ is) h = ground (arith, h.0, fresh_source n is h.1)

find_record-number :
    (test : ModerationRecord → Bool) (n : ℕ) (rs : List ModerationRecord) (r : ModerationRecord)
    → All (λ (q : ModerationRecord). q.id < n) rs
    → find_record test rs ≡ some r
    → r.id < n
unfolding find_record
find_record-number test n [] r all h = cc h
find_record-number test n (q ∷ rs) r all h = elim (Bool-cases (test q)) [
  | inl e ↦
      let same : q ≡ r = cc (rw e at h) in subst (λ (k : ModerationRecord). k.id < n) same all.0
  | inr e ↦ find_record-number test n rs r all.1 (rw e at h)
]

All-weaken :
    {A : Type 0} (P Q : A → Type 0) (xs : List A) → ((x : A) → P x → Q x) → All P xs → All Q xs
All-weaken P Q [] f h = tt
All-weaken P Q (x ∷ xs) f h = (f x h.0, All-weaken P Q xs f h.1)

is_pass-to_status :
    (v : Verdict) (m : ModerationStatus) (a : ImageAsset)
    → to_status v ≡ some m
    → is_pass_image (record a { moderation = m }) ≡ is_verdict_pass v
is_pass-to_status verdict_pass m a h = ground (arith, h)
is_pass-to_status verdict_review m a h = ground (arith, h)
is_pass-to_status verdict_block m a h = ground (arith, h)
is_pass-to_status (other_verdict _) m a h = cc h

-- An asset after a conclusion: the concluded one, or as it was.
moderated_asset :
    (c : ImageModerationCallback) (as' : List ImageAsset) (asset : ImageAsset)
    (m : ModerationStatus) (x : ℕ) (a : ImageAsset)
    → validate_callback_asset c as' ≡ ok asset
    → to_status c.verdict ≡ some m
    → find_asset x (set_moderation c.image_asset_id m as') ≡ some a
    → ((c.image_asset_id ≡ x) × (is_pass_image a ≡ is_verdict_pass c.verdict))
      ⊎ (((c.image_asset_id == x) ≡ false) × (find_asset x as' ≡ some a))
moderated_asset c as' asset m x a valid status found =
    let step = find_asset-set_moderation x c.image_asset_id m as' in
    elim (Option-cases (find_asset x as')) [
      | inl e ↦ cc (found, rw e at step)
      | inr (b, e) ↦ elim (Bool-cases (x == c.image_asset_id)) [
        | inl k ↦
            let set : record b { moderation = m } ≡ a = cc (found, rw (e, k) at step) in
            inl (
              sym ((==_iff _ _).0 k),
              ap is_pass_image (sym set) ∙ is_pass-to_status c.verdict m b status,
            )
        | inr k ↦ inr (ground (arith, k), cc (e, found, rw (e, k) at step))
      ]
    ]

concluded-IsConsistent :
    (now_t : ℕ) (c : ImageModerationCallback) (ids : List ℕ) (s : Store) (asset : ImageAsset)
    (m : ModerationStatus)
    → validate_callback_asset c s.assets ≡ ok asset
    → to_status c.verdict ≡ some m
    → IsConsistent s
    → IsConsistent (after_new now_t c ids asset s.next_record_id m (recorded now_t c s))
unfolding enqueue
concluded-IsConsistent now_t c ids s asset m valid status h =
    let fresh = fresh_source s.next_record_id s.outbox.intents h.sources in
    let own : asset.id ≡ c.image_asset_id = validate_callback_asset-id c s.assets asset valid in
    record {
      unique = rw fresh (upsert-IsUnique asset.id _ _ _ now_t s.outbox.deliveries h.unique);
      sources =
          rw fresh
            (omega arith, All-weaken _ _ s.outbox.intents (λ i k. omega (arith, k)) h.sources);
      numbers = (omega arith, All-weaken _ _ s.records (λ r k. omega (arith, k)) h.numbers);
      agrees = λ x a found. rw fresh (
          upsert-agrees asset.id s.outbox.next_intent_id (is_verdict_pass c.verdict)
            (image_access_purge_required (is_verdict_pass c.verdict) asset) now_t x
            (is_pass_image a) s.outbox.deliveries h.unique
            (elim (moderated_asset c s.assets asset m x a valid status found) [
              | inl (same, pass) ↦ inl (own ∙ same, pass)
              | inr (other, before) ↦
                  inr (subst (λ n. (n == x) ≡ false) (sym own) other, h.agrees x a before)
            ]));
      delivered = λ x a found k. rw fresh (
          upsert-delivers asset.id _ _ _ now_t x s.outbox.deliveries
            (elim (moderated_asset c s.assets asset m x a valid status found) [
              | inl (same, pass) ↦ inl (own ∙ same)
              | inr (other, before) ↦ inr (h.delivered x a before k)
            ]));
    }

only :
    (c : ImageModerationCallback) (s : Store) (asset : ImageAsset) (x : ℕ) (a : ImageAsset)
    → validate_callback_asset c s.assets ≡ ok asset
    → asset.id ≡ x
    → find_asset x s.assets ≡ some a
    → a ≡ asset
only c s asset x a valid same found =
    let own : asset.id ≡ c.image_asset_id = validate_callback_asset-id c s.assets asset valid in
    cc (
      valid-find_asset c s.assets asset valid,
      ap (λ n. find_asset n s.assets) (sym own ∙ same),
      found,
    )

-- Where the intent is known already, nothing is written, and else the deliveries are as upserted.
repeated-IsConsistent :
    (now_t : ℕ) (c : ImageModerationCallback) (s : Store) (asset : ImageAsset)
    (existing : ModerationRecord)
    → validate_callback_asset c s.assets ≡ ok asset
    → find_machine_record_by_provider_job_id c.provider c.provider_job_id s ≡ some existing
    → IsConsistent s
    → IsConsistent (after_duplicate now_t c asset existing s)
unfolding enqueue
repeated-IsConsistent now_t c s asset existing valid found h =
    elim (Bool-cases (any (has_source existing.id) s.outbox.intents)) [
      | inl e ↦ record {
        unique = rw e h.unique;
        sources = rw e h.sources;
        numbers = h.numbers;
        agrees = λ x a k. rw e (h.agrees x a k);
        delivered = λ x a k b. rw e (h.delivered x a k b);
      }
      | inr e ↦ record {
        unique = rw e (upsert-IsUnique asset.id _ _ _ now_t s.outbox.deliveries h.unique);
        sources = rw e (find_record-number _ _ s.records existing h.numbers found, h.sources);
        numbers = h.numbers;
        agrees = λ x a k. rw e (
            upsert-agrees asset.id s.outbox.next_intent_id (is_pass_image asset)
              (image_access_purge_required (is_pass_image asset) asset) now_t x (is_pass_image a)
              s.outbox.deliveries h.unique
              (elim (Bool-cases (asset.id == x)) [
                | inl same ↦ inl (
                  (==_iff _ _).0 same,
                  ap is_pass_image (only c s asset x a valid ((==_iff _ _).0 same) k),
                )
                | inr other ↦ inr (other, h.agrees x a k)
              ]));
        delivered = λ x a k b. rw e (
            upsert-delivers asset.id _ _ _ now_t x s.outbox.deliveries (inr (h.delivered x a k b)));
      }
    ]

-- An accepted callback, new or repeated, leaves the outbox in agreement with the images, if it was so
-- before: every image that has a conclusion has a delivery, and what a delivery desires of an object
-- in storage is public access exactly if its image has passed. A delivery that the first conclusion
-- of an image needs is thus created.
pub apply_image_result-IsConsistent :
    (now_t : ℕ) (c : ImageModerationCallback) (require_job_id : Bool) (s s' : Store)
    (r : ImageModerationApplyResult)
    → IsConsistent s
    → apply_image_result now_t c require_job_id s ≡ ok (s', r)
    → IsConsistent s'
apply_image_result-IsConsistent now_t c require_job_id s s' r h e =
    elim (apply_image_result-eq_ok now_t c require_job_id s s' r e).1 [
      | concluded asset m valid status _ final ↦
          subst IsConsistent (sym final) (concluded-IsConsistent now_t c _ s asset m valid status h)
      | repeated asset existing valid found _ _ final ↦
          subst IsConsistent (sym final)
            (repeated-IsConsistent now_t c s asset existing valid found h)
    ]
