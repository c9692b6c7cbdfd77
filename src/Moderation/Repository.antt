-- ===== src/Moderation/Repository.antt =====
-- The statements of internal/repository/moderation.go. A join is the list of the joined rows, and
-- EXISTS asks whether it has one. A failing statement aborts the transaction, which leaves nothing
-- behind; it is not modelled as a step.
use danshi_backend.Base.{
  ltb, leb, ◌==◌, if◌then◌else◌, is_some, filter, any, Result, ok, err, some, String, ◌∷◌, ◌++◌,
  not, none, ◌+◌, Bool, true, map, List, false, [], str_eq, ◌&&◌, Option, ◌||◌, ℕ,
}
use danshi_backend.Moderation.Data.{
  Verdict, ModerationStatus, PostStatus, Post, ImageAsset, PostImage, ModerationRecord, Retry,
  Store, ApiError, is_verdict_pass, is_verdict_block, is_pass_image, is_block_image, verdict_pass,
  verdict_review, verdict_block, other_verdict, moderation_pass, moderation_review,
  moderation_block, pending, approved, rejected, image_not_found, internal,
}

-- post_images JOIN image_assets, for one post.
unfoldable pub joined_images : ℕ → List ImageAsset → List PostImage → List ImageAsset
joined_images post assets [] = []
joined_images post assets (l ∷ ls) =
    (if l.post_id == post then filter (λ (a : ImageAsset). a.id == l.image_asset_id) assets else [])
    ++ joined_images post assets ls

abbrev pub images_of : Store → Post → List ImageAsset
images_of s p = joined_images p.id s.assets s.post_images

abbrev pub same_id : Option ℕ → ℕ → Bool
same_id none n = false
same_id (some m) n = m == n

-- The records of the post's text at its current revision.
abbrev pub is_current_record : Post → ModerationRecord → Bool
is_current_record p r = same_id r.post_id p.id && same_id r.content_revision p.current_revision

-- ORDER BY created_at DESC, id DESC: does the second come after the first?
abbrev pub is_later : ModerationRecord → ModerationRecord → Bool
is_later r r' = ltb r.created_at r'.created_at || r.created_at == r'.created_at && ltb r.id r'.id

-- … LIMIT 1.
unfoldable pub latest : List ModerationRecord → Option ModerationRecord
latest [] = none
latest (r ∷ rs) = elim (latest rs) [
  | none ↦ some r
  | some r' ↦ some (if is_later r r' then r' else r)
]

abbrev pub latest_verdict : Store → Post → Option Verdict
latest_verdict s p = elim (latest (filter (is_current_record p) s.records)) [
  | none ↦ none
  | some r ↦ some r.verdict
]

-- The loop of `uniqueModerationIDs`, with the ids seen so far, and its sort.
unfoldable pub unique_from : List ℕ → List ℕ → List ℕ
unique_from seen [] = []
unique_from seen (v ∷ vs) =
    if v == 0 || any (λ n. n == v) seen then unique_from seen vs else v ∷ unique_from (v ∷ seen) vs

unfoldable pub insert_id : ℕ → List ℕ → List ℕ
insert_id n [] = n ∷ []
insert_id n (m ∷ ms) = if leb n m then n ∷ m ∷ ms else m ∷ insert_id n ms

unfoldable pub sort_ids : List ℕ → List ℕ
sort_ids [] = []
sort_ids (n ∷ ns) = insert_id n (sort_ids ns)

unfoldable pub unique_moderation_ids : List ℕ → List ℕ
unfolding unique_from insert_id sort_ids
unique_moderation_ids values = sort_ids (unique_from [] values)

abbrev pub is_in : List ℕ → ℕ → Bool
is_in ids n = any (λ m. m == n) ids

-- p.status IN ('pending', 'rejected') AND p.deleted_at IS NULL.
abbrev pub is_open_post : Post → Bool
is_open_post p =
    (elim p.status [ pending ↦ true | rejected ↦ true | _ ↦ false ]) && not (is_some p.deleted_at)

abbrev pub is_verdict : (Verdict → Bool) → Option Verdict → Bool
is_verdict test none = false
is_verdict test (some v) = test v

-- The WHERE clauses of the two UPDATEs of `ReconcilePendingPosts`.
abbrev pub rejects : List ℕ → Store → Post → Bool
rejects ids s p =
    is_in ids p.id
    && is_open_post p
    && (any is_block_image (images_of s p) || is_verdict is_verdict_block (latest_verdict s p))

abbrev pub approves : List ℕ → Store → Post → Bool
approves ids s p =
    is_in ids p.id
    && is_open_post p
    && not (any (λ a. not (is_pass_image a)) (images_of s p))
    && is_verdict is_verdict_pass (latest_verdict s p)

unfoldable pub set_status : (Post → Bool) → PostStatus → List Post → List Post
set_status test status [] = []
set_status test status (p ∷ ps) =
    (if test p then record p { status = status } else p) ∷ set_status test status ps

unfoldable pub count_posts : (Post → Bool) → List Post → ℕ
count_posts test [] = 0
count_posts test (p ∷ ps) = (if test p then 1 else 0) + count_posts test ps

pub record Transitions : Type 0 where
  pub approved_posts : ℕ
  pub rejected_posts : ℕ

unfoldable pub reconcile_pending_posts : List ℕ → Store → Store × Transitions
unfolding set_status count_posts unique_moderation_ids latest joined_images
reconcile_pending_posts [] s = (s, record { approved_posts = 0; rejected_posts = 0 })
reconcile_pending_posts (n ∷ ns) s = (
  record s { posts = set_status (approves ids after) approved after.posts },
  record {
    approved_posts = count_posts (approves ids after) after.posts;
    rejected_posts = count_posts (rejects ids s) s.posts;
  },
)
  where
    ids : List ℕ
    ids = unique_moderation_ids (n ∷ ns)

    after : Store
    after = record s { posts = set_status (rejects ids s) rejected s.posts }

-- `LockPendingPostsForImage`: a row for each link between a pending post and the image.
abbrev pub is_pending_post : Post → Bool
is_pending_post p = (elim p.status [ pending ↦ true | _ ↦ false ]) && not (is_some p.deleted_at)

abbrev pub links : ℕ → ℕ → PostImage → Bool
links image post l = l.post_id == post && l.image_asset_id == image

unfoldable pub pending_posts : ℕ → List PostImage → List Post → List ℕ
pending_posts image ls [] = []
pending_posts image ls (p ∷ ps) =
    (if is_pending_post p then map (λ _. p.id) (filter (links image p.id) ls) else [])
    ++ pending_posts image ls ps

abbrev pub lock_pending_posts_for_image : ℕ → Store → List ℕ
lock_pending_posts_for_image image s = pending_posts image s.post_images s.posts

-- `LockImagesForPosts`.
abbrev pub lock_images_for_posts : ℕ → List ℕ → Store → List ImageAsset
lock_images_for_posts image posts s =
    let related =
      map (λ (l : PostImage). l.image_asset_id)
        (filter (λ (l : PostImage). is_in posts l.post_id) s.post_images) in
    filter (λ (a : ImageAsset). is_in (unique_moderation_ids (image ∷ related)) a.id) s.assets

-- The partial unique index on (provider, provider_job_id), where the job id is not NULL.
abbrev pub has_job : String → String → ModerationRecord → Bool
has_job provider job r =
    str_eq r.provider provider && (elim r.provider_job_id [ none ↦ false | some j ↦ str_eq j job ])

unfoldable pub find_record :
    (ModerationRecord → Bool) → List ModerationRecord → Option ModerationRecord
find_record test [] = none
find_record test (r ∷ rs) = if test r then some r else find_record test rs

abbrev pub find_machine_record_by_provider_job_id :
    String → String → Store → Option ModerationRecord
find_machine_record_by_provider_job_id provider job s = find_record (has_job provider job) s.records

abbrev pub conflicts : ModerationRecord → Store → Bool
conflicts r s = elim r.provider_job_id [
  | none ↦ false
  | some job ↦ any (has_job r.provider job) s.records
]

-- `CreateMachineRecordIfNew`; the row gets the next id of the sequence.
unfoldable pub create_machine_record_if_new : ModerationRecord → Store → Store × Bool
unfolding find_record
create_machine_record_if_new r s = if conflicts r s then (s, false) else (
  record s {
    records = record r { id = s.next_record_id } ∷ s.records;
    next_record_id = s.next_record_id + 1;
  },
  true,
)

-- The CHECK on the column admits the three verdicts.
abbrev pub to_status : Verdict → Option ModerationStatus
to_status verdict_pass = some moderation_pass
to_status verdict_review = some moderation_review
to_status verdict_block = some moderation_block
to_status (other_verdict _) = none

unfoldable pub set_moderation : ℕ → ModerationStatus → List ImageAsset → List ImageAsset
set_moderation image m [] = []
set_moderation image m (a ∷ as') =
    (if a.id == image then record a { moderation = m } else a) ∷ set_moderation image m as'

-- `UpdateImageModeration`.
unfoldable pub update_image_moderation : ℕ → Verdict → Store → Result ApiError Store
unfolding set_moderation
update_image_moderation image v s = elim (to_status v) [
  | none ↦ err internal
  | some m ↦
      if any (λ (a : ImageAsset). a.id == image) s.assets
      then ok (record s { assets = set_moderation image m s.assets })
      else err image_not_found
]

-- `DeleteForAsset` of internal/repository/image_moderation_retry.go.
abbrev pub delete_for_asset : ℕ → Store → Store
delete_for_asset image s = record s {
  retries = filter (λ (r : Retry). not (r.image_asset_id == image)) s.retries;
}
