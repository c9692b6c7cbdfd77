-- ===== src/Moderation/Audit.antt =====
-- The history of moderation (internal/service/moderation_callback.go): what a manual review writes
-- into it, and what it leaves.
use danshi_backend.Base.{
  Bool-cases, any, All, bind-eq_ok, ok, inr, reverse, ◌++◌, reverse_aux-eq, reverse_aux, some, ◌∷◌,
  ◌∙◌, not, inl, refl, subst, ap, ◌+◌, arith, sym, [], ◌≡◌, false, ℕ, List,
}
use danshi_backend.ImageAccess.Backoff.{second}
use danshi_backend.Moderation.Data.{ModerationRecord, Store}
use danshi_backend.Moderation.Histories.{apply_post_manual_verdict-records}
use danshi_backend.Moderation.Review.{
  ManualPostReviewInput, PostReviewSnapshot, manual_provider, validate_manual_post_review_input,
  is_machine_unpassed, supersedes, lock_post_review_snapshot, post_manual_record,
  create_manual_record, is_effective, create_records, is_empty, create_post_manual_records,
}
use danshi_backend.Moderation.ReviewPost.{
  apply_post_manual_verdict, alert_records, manual_review_post,
}

-- A record that may be written over `original` once more.
pub record Reviews (s : Store) (input : ManualPostReviewInput) (r : ModerationRecord) : Type 0 where
  pub by_hand : r.provider ≡ manual_provider
  pub decided : r.verdict ≡ input.verdict
  pub reviewer : r.reviewer_id ≡ some input.reviewer_id
  pub original : ℕ
  pub superseded : r.supersedes_id ≡ some original
  pub once : any (supersedes original) s.records ≡ false

create_manual_record-eq_ok :
    (r : ModerationRecord) (original : ℕ) (s s' : Store)
    → create_manual_record r original s ≡ ok s'
    → (any (supersedes original) s.records ≡ false) × (s'.records ≡ r ∷ s.records)
unfolding create_manual_record
create_manual_record-eq_ok r original s s' h =
    elim (Bool-cases (any (supersedes original) s.records)) [
      | inl e ↦ cc (rw (create_manual_record, e) at h)
      | inr e ↦
          let final : record s { records = r ∷ s.records; next_record_id = s.next_record_id + 1 }
              ≡ s' =
            cc (rw (create_manual_record, e) at h) in
          (e, sym (ap (λ (x : Store). x.records) final))
    ]

-- What was not superseded with one more record was not before.
Reviews-weaken :
    (input : ManualPostReviewInput) (q : ModerationRecord) (s s' : Store)
    → s'.records ≡ q ∷ s.records
    → (rs : List ModerationRecord) → All (Reviews s' input) rs
    → All (Reviews s input) rs
Reviews-weaken input q s s' e [] h = tt
Reviews-weaken input q s s' e (r ∷ rs) h =
    let longer : any (supersedes h.0.original) (q ∷ s.records) ≡ false =
      subst (λ qs. any (supersedes h.0.original) qs ≡ false) e h.0.once in
    (
      record {
        by_hand = h.0.by_hand;
        decided = h.0.decided;
        reviewer = h.0.reviewer;
        original = h.0.original;
        superseded = h.0.superseded;
        once = ground (arith, longer);
      },
      Reviews-weaken input q s s' e rs h.1,
    )

-- One more record, and then the rest.
Reviews-step :
    (input : ManualPostReviewInput) (q : ModerationRecord) (s made : Store)
    (ending : Store × List ModerationRecord) (s' : Store) (created : List ModerationRecord)
    → Reviews s input q
    → made.records ≡ q ∷ s.records
    → ending.0.records ≡ reverse_aux ending.1 made.records
    → All (Reviews made input) ending.1
    → ◌≡◌ {A = Store × List ModerationRecord} (ending.0, q ∷ ending.1) (s', created)
    → (s'.records ≡ reverse_aux created s.records) × All (Reviews s input) created
Reviews-step input q s made ending s' created h longer grown reviewed pair =
    subst
      (λ (x : Store × List ModerationRecord).
        (x.0.records ≡ reverse_aux x.1 s.records) × All (Reviews s input) x.1)
      pair
      (
        grown ∙ ap (reverse_aux ending.1) longer,
        (h, Reviews-weaken input q s made longer ending.1 reviewed),
      )

create_records-audit :
    (now_t : ℕ) (input : ManualPostReviewInput) (snapshot : PostReviewSnapshot)
    (rs : List ModerationRecord) (s s' : Store) (created : List ModerationRecord)
    → create_records now_t input snapshot rs s ≡ ok (s', created)
    → (s'.records ≡ reverse_aux created s.records) × All (Reviews s input) created
unfolding create_records
create_records-audit now_t input snapshot [] s s' created h =
    let same : s ≡ s' = cc h in
    let none_made : [] ≡ created = cc h in
    (
      subst (λ cs. s'.records ≡ reverse_aux cs s.records) none_made
          (sym (ap (λ (x : Store). x.records) same)),
      subst (All (Reviews s input)) none_made tt,
    )
create_records-audit now_t input snapshot (r ∷ rs) s s' created h =
    elim (Bool-cases (not (is_machine_unpassed r))) [
      | inl e ↦ cc (rw (create_records, e) at h)
      | inr e ↦ elim (Bool-cases (not (is_effective snapshot r))) [
        | inl k ↦
            create_records-audit now_t input snapshot rs s s' created
              (rw (create_records, e, k) at h)
        | inr k ↦
            let made_record = post_manual_record now_t input r s.next_record_id in
            let (made, first, next_step) =
              bind-eq_ok (create_manual_record made_record r.id s) _
                (rw (create_records, e, k) at h) in
            let (rest, others, done) =
              bind-eq_ok (create_records now_t input snapshot rs made) _ next_step in
            let (once, longer) = create_manual_record-eq_ok made_record r.id s made first in
            let (grown, reviewed) =
              create_records-audit now_t input snapshot rs made rest.0 rest.1 others in
            Reviews-step input made_record s made rest s' created
              (record {
                by_hand = refl;
                decided = refl;
                reviewer = refl;
                original = r.id;
                superseded = refl;
                once = once;
              })
              longer grown reviewed (cc done)
      ]
    ]

create_post_manual_records-audit :
    (now_t : ℕ) (input : ManualPostReviewInput) (snapshot : PostReviewSnapshot) (s : Store)
    (created : Store × List ModerationRecord)
    → create_post_manual_records now_t input snapshot s ≡ ok created
    → (created.0.records ≡ reverse_aux created.1 s.records) × All (Reviews s input) created.1
unfolding create_post_manual_records
create_post_manual_records-audit now_t input snapshot s created h =
    let (made, first, rest) =
      bind-eq_ok (create_records now_t input snapshot snapshot.pending s) _ h in
    elim (Bool-cases (is_empty made.1)) [
      | inl e ↦ cc (rw e at rest)
      | inr e ↦
          let same : made ≡ created = cc (rw e at rest) in
          create_records-audit now_t input snapshot snapshot.pending s created.0 created.1
            (first ∙ ap ok same)
    ]

alert_records-audit :
    (input : ManualPostReviewInput) (s applied : Store) (made : Store × List ModerationRecord)
    (s' : Store) (created : List ModerationRecord)
    → made.0.records ≡ reverse_aux made.1 s.records
    → All (Reviews s input) made.1
    → applied.records ≡ made.0.records
    → ◌≡◌ {A = Store × List ModerationRecord}
        (alert_records input made.1 applied, made.1)
        (s', created)
    → (s'.records ≡ reverse created ++ s.records) × All (Reviews s input) created
alert_records-audit input s applied made s' created grown reviewed kept pair =
    subst
      (λ (x : Store × List ModerationRecord).
        (x.0.records ≡ reverse x.1 ++ s.records) × All (Reviews s input) x.1)
      pair (kept ∙ (grown ∙ reverse_aux-eq made.1 s.records), reviewed)

-- A manual review only appends to the history, and only decisions by hand: each has the verdict and
-- the reviewer of the request, and supersedes a record that no record had superseded before.
pub manual_review_post-Reviews :
    (now_t : ℕ) (input : ManualPostReviewInput) (s s' : Store) (created : List ModerationRecord)
    → manual_review_post now_t input s ≡ ok (s', created)
    → (s'.records ≡ reverse created ++ s.records) × All (Reviews s input) created
unfolding manual_review_post
manual_review_post-Reviews now_t input s s' created h =
    let (_, _, rest) = bind-eq_ok (validate_manual_post_review_input input) _ h in
    let (snapshot, _, rest') = bind-eq_ok (lock_post_review_snapshot input.post_id s) _ rest in
    let (made, first, rest'') =
      bind-eq_ok (create_post_manual_records now_t input snapshot s) _ rest' in
    let (applied, second, done) =
      bind-eq_ok (apply_post_manual_verdict now_t input snapshot made.1 made.0) _ rest'' in
    let (grown, reviewed) = create_post_manual_records-audit now_t input snapshot s made first in
    alert_records-audit input s applied made s' created grown reviewed
      (apply_post_manual_verdict-records now_t input snapshot made.1 made.0 applied second)
      (cc done)
