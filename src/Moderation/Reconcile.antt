-- ===== src/Moderation/Reconcile.antt =====
-- `ReconcilePendingPosts` of internal/repository/moderation.go against `aggregatePostModeration` of
-- internal/service/post_write.go: two descriptions of the status of a post, in SQL and in Go.
use danshi_backend.Base.{
  ◌==◌, if◌then◌else◌, Bool-cases, or_else, any, Result, ok, ◌||◌, arith, refl, ap, inr, ◌∷◌, map,
  sym, ℕ, ◌&&◌, [], not, List, inl, ◌∙◌, ◌≡◌,
}
use danshi_backend.Moderation.Aggregate.{aggregate_post_moderation}
use danshi_backend.Moderation.Data.{
  PostStatus, Post, ImageAsset, Store, ApiError, is_pending_image, is_pass_image, is_review_image,
  is_block_image, other_verdict, approved, rejected,
}
use danshi_backend.Moderation.Repository.{
  images_of, latest_verdict, unique_from, insert_id, sort_ids, unique_moderation_ids, is_in,
  is_open_post, rejects, approves, set_status, reconcile_pending_posts,
}

is_in-insert_id : (n m : ℕ) (ids : List ℕ) → is_in (insert_id n ids) m ≡ (n == m || is_in ids m)
unfolding insert_id
is_in-insert_id n m [] = ground arith
is_in-insert_id n m (k ∷ ks) = ground (arith, is_in-insert_id n m ks)

is_in-sort_ids : (m : ℕ) (ids : List ℕ) → is_in (sort_ids ids) m ≡ is_in ids m
unfolding sort_ids
is_in-sort_ids m [] = refl
is_in-sort_ids m (n ∷ ns) = is_in-insert_id n m (sort_ids ns) ∙ ground (arith, is_in-sort_ids m ns)

is_in-unique_from :
    (seen ids : List ℕ) (m : ℕ)
    → is_in (unique_from seen ids) m ≡ (is_in ids m && not (m == 0) && not (is_in seen m))
unfolding unique_from
is_in-unique_from seen [] m = refl
is_in-unique_from seen (v ∷ vs) m =
    ground (arith, is_in-unique_from seen vs m, is_in-unique_from (v ∷ seen) vs m)

-- `uniqueModerationIDs` keeps each id that is not 0, and nothing else.
pub is_in-unique_moderation_ids :
    (ids : List ℕ) (m : ℕ) → is_in (unique_moderation_ids ids) m ≡ (is_in ids m && not (m == 0))
unfolding unique_moderation_ids
is_in-unique_moderation_ids ids m =
    is_in-sort_ids m (unique_from [] ids) ∙ (is_in-unique_from [] ids m ∙ ground arith)

-- An image that has not passed is blocked, under review or pending.
any-not_pass :
    (as' : List ImageAsset)
    → any (λ a. not (is_pass_image a)) as'
      ≡ (any is_block_image as' || any is_review_image as' || any is_pending_image as')
any-not_pass [] = refl
any-not_pass (a ∷ as') = ground (arith, any-not_pass as')

-- What the verdict on the text and the images say of a post, where they say anything final.
unfoldable pub conclude : PostStatus → Result ApiError PostStatus → PostStatus
conclude status (ok rejected) = rejected
conclude status (ok approved) = approved
conclude status _ = status

-- The post after a reconciliation, by the Go aggregation. A text without a verdict counts as one
-- whose verdict is unknown.
abbrev pub settled : List ℕ → Store → Post → Post
settled ids s p =
    let v = or_else (latest_verdict s p) (other_verdict "") in
    if is_in ids p.id && not (p.id == 0) && is_open_post p
    then record p { status = conclude p.status (aggregate_post_moderation v (images_of s p)) }
    else p

module _ (ids : List ℕ) (s : Store) where
  abbrev with_posts : List Post → Store
  with_posts ps = record s { posts = ps }

  abbrev uids : List ℕ
  uids = unique_moderation_ids ids

  reject_post : Post → Post
  reject_post p = if rejects uids s p then record p { status = rejected } else p

  approve_post : List Post → Post → Post
  approve_post qs p = if approves uids (with_posts qs) p then record p { status = approved } else p

  -- One row through both statements.
  approve_post-reject_post :
      (qs : List Post) (p : Post) → approve_post qs (reject_post p) ≡ settled ids s p
  unfolding approve_post reject_post conclude aggregate_post_moderation
  approve_post-reject_post qs p = elim (Bool-cases (rejects uids s p)) [
    | inl e ↦
        rw e (ground (arith, e, is_in-unique_moderation_ids ids p.id, any-not_pass (images_of s p)))
    | inr e ↦
        rw e (ground (arith, e, is_in-unique_moderation_ids ids p.id, any-not_pass (images_of s p)))
  ]

  set_status-twice :
      (qs ps : List Post)
      → set_status
          (approves uids (with_posts qs))
          approved
          (set_status (rejects uids s) rejected ps)
        ≡ map (settled ids s) ps
  unfolding set_status approve_post reject_post
  set_status-twice qs [] = refl
  set_status-twice qs (p ∷ ps) = cc (approve_post-reject_post qs p, set_status-twice qs ps)

settled_nowhere : (s : Store) (ps : List Post) → map (settled [] s) ps ≡ ps
settled_nowhere s [] = refl
settled_nowhere s (p ∷ ps) = ap (λ qs. p ∷ qs) (settled_nowhere s ps)

-- `ReconcilePendingPosts` gives each of the posts named, if it is pending or rejected and not
-- deleted, the final status that `aggregatePostModeration` computes from the latest verdict on its
-- current text and from its images, keeps its status where that computes none, and changes nothing
-- else.
pub reconcile_pending_posts-settled :
    (ids : List ℕ) (s : Store)
    → (reconcile_pending_posts ids s).0 ≡ record s { posts = map (settled ids s) s.posts }
unfolding reconcile_pending_posts
reconcile_pending_posts-settled [] s =
    ap (λ ps. record s { posts = ps }) (sym (settled_nowhere s s.posts))
reconcile_pending_posts-settled (n ∷ ns) s =
    ap (λ ps. record s { posts = ps })
      (set_status-twice (n ∷ ns) s
        (set_status (rejects (unique_moderation_ids (n ∷ ns)) s) rejected s.posts) s.posts)
