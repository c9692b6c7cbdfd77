-- ===== src/Moderation/Review.antt =====
-- `ManualReviewPost` of internal/service/moderation_callback.go: an administrator's verdict on a post
-- with all its images, and the statements of internal/repository/moderation.go for it.
use danshi_backend.Base.{
  leb, ◌==◌, if◌then◌else◌, is_some, filter, any, Result, ◌>>=◌, ok, err, List, Option, ◌||◌, true,
  ℕ, false, some, none, [], Bool, ◌∷◌, str_eq, not, ◌+◌, ◌&&◌, String,
}
use danshi_backend.Moderation.Data.{
  Verdict, Post, ImageAsset, PostImage, ModerationRecord, Store, ApiError, is_verdict_pass,
  is_verdict_review, is_verdict_block, is_pending_image, is_pass_image, is_review_image,
  is_block_image, verdict_pass, verdict_review, verdict_block, other_verdict, invalid_field,
  post_not_found, post_deleted, not_pending, only_unpassed, already_reviewed,
}
use danshi_backend.Moderation.Repository.{
  joined_images, images_of, same_id, is_current_record, latest, is_open_post,
}

-- `valid_response` says that the raw response is empty or valid JSON.
pub record ManualPostReviewInput : Type 0 where
  pub post_id : ℕ
  pub reviewer_id : ℕ
  pub verdict : Verdict
  pub valid_response : Bool

pub record PostReviewSnapshot : Type 0 where
  pub assets : List ImageAsset
  pub latest_text : ModerationRecord
  pub pending : List ModerationRecord

abbrev pub manual_provider : String
manual_provider = "manual"

unfoldable pub validate_manual_post_review_input :
    ManualPostReviewInput → Result ApiError (Unit {0})
validate_manual_post_review_input input =
    if input.post_id == 0 || input.reviewer_id == 0
    then err invalid_field
    else if not (is_verdict_pass input.verdict) && not (is_verdict_block input.verdict)
    then err invalid_field
    else if not input.valid_response
    then err invalid_field
    else ok tt

-- What `validateMachineReviewRecord` lets through.
abbrev pub is_machine_unpassed : ModerationRecord → Bool
is_machine_unpassed r =
    not (str_eq r.provider manual_provider)
    && (is_verdict_review r.verdict || is_verdict_block r.verdict)

abbrev pub find_post : ℕ → List Post → Option Post
find_post n [] = none
find_post n (p ∷ ps) = if p.id == n then some p else find_post n ps

abbrev pub supersedes : ℕ → ModerationRecord → Bool
supersedes n r = same_id r.supersedes_id n

-- `pendingModerationQuery`. A record of a post or an image has no comment, so the condition on
-- comments holds of it.
abbrev pub is_pending_review : Store → ModerationRecord → Bool
is_pending_review s r =
    is_machine_unpassed r && not (any (supersedes r.id) s.records) && (elim r.post_id [
      | none ↦ true
      | some n ↦ elim (find_post n s.posts) [
        | none ↦ false
        | some p ↦ same_id r.content_revision p.current_revision
      ]
    ])

abbrev pub is_about : Store → ℕ → ModerationRecord → Bool
is_about s post r =
    same_id r.post_id post
    || any (λ (l : PostImage). l.post_id == post && same_id r.image_asset_id l.image_asset_id)
        s.post_images

-- ORDER BY mr.id.
unfoldable pub insert_record : ModerationRecord → List ModerationRecord → List ModerationRecord
insert_record r [] = r ∷ []
insert_record r (q ∷ qs) = if leb r.id q.id then r ∷ q ∷ qs else q ∷ insert_record r qs

unfoldable pub order_records : List ModerationRecord → List ModerationRecord
unfolding insert_record
order_records [] = []
order_records (r ∷ rs) = insert_record r (order_records rs)

abbrev pub lock_pending_review_records_for_post : ℕ → Store → List ModerationRecord
lock_pending_review_records_for_post post s =
    order_records (filter (λ r. is_pending_review s r && is_about s post r) s.records)

unfoldable pub validate_post_review_assets : List ImageAsset → Result ApiError (Unit {0})
validate_post_review_assets [] = ok tt
validate_post_review_assets (a ∷ as') =
    if is_pending_image a then err not_pending else validate_post_review_assets as'

unfoldable pub lock_post_review_snapshot : ℕ → Store → Result ApiError PostReviewSnapshot
unfolding validate_post_review_assets order_records joined_images latest
lock_post_review_snapshot post s = elim (find_post post s.posts) [
  | none ↦ err post_not_found
  | some p ↦
      if is_some p.deleted_at
      then err post_deleted
      else if not (is_open_post p)
      then err not_pending
      else (do
        _ ← validate_post_review_assets (images_of s p)
        elim (latest (filter (is_current_record p) s.records)) [
          | none ↦ err not_pending
          | some r ↦ ok (record {
            assets = images_of s p;
            latest_text = r;
            pending = lock_pending_review_records_for_post post s;
          })
        ])
]

-- `postManualRecord`, with the number that the sequence gives it.
abbrev pub post_manual_record : ℕ → ManualPostReviewInput → ModerationRecord → ℕ → ModerationRecord
post_manual_record now_t input original number = record original {
  id = number;
  provider = manual_provider;
  provider_job_id = none;
  verdict = input.verdict;
  labels = [];
  reviewer_id = some input.reviewer_id;
  supersedes_id = some original.id;
  created_at = now_t;
}

-- `CreateManualRecord`: the unique index on `supersedes_id` may refuse the row.
unfoldable pub create_manual_record : ModerationRecord → ℕ → Store → Result ApiError Store
create_manual_record r original s =
    if any (supersedes original) s.records
    then err already_reviewed
    else ok (record s { records = r ∷ s.records; next_record_id = s.next_record_id + 1 })

abbrev pub asset_by_id : ℕ → List ImageAsset → Option ImageAsset
asset_by_id n [] = none
asset_by_id n (a ∷ as') = if a.id == n then some a else asset_by_id n as'

-- Is the moderation of the asset the one of the verdict?
abbrev pub has_verdict : Verdict → ImageAsset → Bool
has_verdict verdict_pass a = is_pass_image a
has_verdict verdict_review a = is_review_image a
has_verdict verdict_block a = is_block_image a
has_verdict (other_verdict _) a = false

-- Is the verdict the latest on the text, or the one that its image has now?
abbrev pub is_effective : PostReviewSnapshot → ModerationRecord → Bool
is_effective snapshot r =
    not (is_some r.post_id && not (r.id == snapshot.latest_text.id)) && (elim r.image_asset_id [
      | none ↦ true
      | some n ↦ elim (asset_by_id n snapshot.assets) [
        | none ↦ false
        | some a ↦ has_verdict r.verdict a
      ]
    ])

-- The loop of `createPostManualRecords`: the new records in their order.
unfoldable pub create_records :
    ℕ
    → ManualPostReviewInput
    → PostReviewSnapshot
    → List ModerationRecord
    → Store
    → Result ApiError (Store × List ModerationRecord)
unfolding create_manual_record
create_records now_t input snapshot [] s = ok (s, [])
create_records now_t input snapshot (r ∷ rs) s =
    if not (is_machine_unpassed r)
    then err only_unpassed
    else if not (is_effective snapshot r)
    then create_records now_t input snapshot rs s
    else (do
      created ← create_manual_record (post_manual_record now_t input r s.next_record_id) r.id s
      rest ← create_records now_t input snapshot rs created
      ok (rest.0, post_manual_record now_t input r s.next_record_id ∷ rest.1))

abbrev pub is_empty {ℓ} : {A : Type ℓ} → List A → Bool
is_empty [] = true
is_empty (_ ∷ _) = false

unfoldable pub create_post_manual_records :
    ℕ
    → ManualPostReviewInput
    → PostReviewSnapshot
    → Store
    → Result ApiError (Store × List ModerationRecord)
unfolding create_records
create_post_manual_records now_t input snapshot s = do
  created ← create_records now_t input snapshot snapshot.pending s
  if is_empty created.1 then err not_pending else ok created

-- The images of the new records.
abbrev pub record_images : List ModerationRecord → List ℕ
record_images [] = []
record_images (r ∷ rs) = elim r.image_asset_id [
  | none ↦ record_images rs
  | some n ↦ n ∷ record_images rs
]
