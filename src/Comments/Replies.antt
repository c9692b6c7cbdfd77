-- ===== src/Comments/Replies.antt =====
-- A reply that comes to count, or ceases to: the trigger of migrations/00009_comment_visibility.sql on
-- its floor and its post.
use danshi_backend.Base.{
  ◌==◌, if◌then◌else◌, Bool-cases, is_some, if_rule, update_rows, All-update_rows, All-implies,
  All-find_first, find_first-test, find_first-update_rows, ◌+◌, ◌&&◌, true, refl, ℕ, ◌∙◌, List, ◌≡◌,
  ◌||◌, inr, not, inl, arith, some, Bool, ap, none,
}
use danshi_backend.Comments.Counted.{
  is_reply_counted, AreRepliesCounted, ArePostsCounted, IsCounted, KeepsCount, keeps_id, keeps_post,
  keeps_root, update_rows-AreKnown,
}
use danshi_backend.Comments.Counters.{
  is_active, find_comment, shifted, shift_comment_count, shift_reply_count, is_active_root,
}
use danshi_backend.Comments.Data.{Comment, CommentedPost, Discussion}
use danshi_backend.Comments.Floors.{
  reply_weight, replies_of, is_root_of, floor_size, visible_comments, replies_of-changed,
  root_weight, visible_comments-more, root_weight-only,
}
use danshi_backend.Comments.Places.{
  placement, place_at, is_placed, place_at-update_rows, update_rows-IsPlaced, is_placed-is_floor,
  is_floor-root,
}
use danshi_backend.Comments.Sums.{
  sum_of, sum_of-ext, sum_of-update_rows, has_id, sum_of-update_comment, update_rows-IsKeyed,
}

module _ (id : ℕ) (u : Comment → Comment) (s : Discussion) (old : Comment) (keeps : KeepsCount u)
    (found_old : find_comment id s.comments ≡ some old) (h : IsCounted s) (up : Bool) (root : ℕ)
    (on_floor : old.root_id ≡ some root) (now : is_active (u old) ≡ up)
    (before : is_active old ≡ not up) where
  abbrev moved_rows : List Comment
  moved_rows = update_rows (has_id id) u s.comments

  abbrev counted_rows : List Comment
  counted_rows = shift_reply_count up root moved_rows

  abbrev bump : Comment → Comment
  bump c = record c { reply_count = shifted up 1 c.reply_count }

  on_floor' : (u old).root_id ≡ some root
  on_floor' = keeps_root u old keeps.place ∙ on_floor

  moved :
      (k : ℕ)
      → replies_of k moved_rows + (if not up && (root == k) then 1 else 0)
        ≡ replies_of k s.comments + (if up && (root == k) then 1 else 0)
  moved k =
      let change = replies_of-changed id u s.comments old k h.keys found_old in
      let old_weight : reply_weight k old ≡ (if not up && (root == k) then 1 else 0) =
        rw (before, on_floor) refl in
      let new_weight : reply_weight k (u old) ≡ (if up && (root == k) then 1 else 0) =
        rw (now, on_floor') refl in
      omega (arith, change, old_weight, new_weight)

  replies_counted_rows : (k : ℕ) → replies_of k counted_rows ≡ replies_of k moved_rows
  replies_counted_rows k =
      sum_of-update_rows (reply_weight k) (has_id root) bump moved_rows (λ c. refl)

  visible_counted_rows :
      (post : ℕ) → visible_comments post counted_rows ≡ visible_comments post moved_rows
  visible_counted_rows post =
      sum_of-update_rows (floor_size post counted_rows) (has_id root) bump moved_rows (λ c. refl)
      ∙ sum_of-ext (floor_size post counted_rows) (floor_size post moved_rows) moved_rows
          (λ c. ap (λ n. if is_root_of post c then 1 + n else 0) (replies_counted_rows c.id))

  -- The rows, as if nothing had come to count.
  visible_before :
      (post : ℕ) → sum_of (floor_size post s.comments) moved_rows ≡ visible_comments post s.comments
  visible_before post =
      let change =
        sum_of-update_comment (floor_size post s.comments) id u s.comments h.keys found_old in
      let zero_old : floor_size post s.comments old ≡ 0 = ground (arith, on_floor) in
      let zero_new : floor_size post s.comments (u old) ≡ 0 = ground (arith, on_floor') in
      omega (arith, change, zero_old, zero_new)

  visible_moved :
      (post : ℕ)
      → visible_comments post moved_rows
          + (if not up then sum_of (root_weight post root) moved_rows else 0)
        ≡ visible_comments post s.comments
          + (if up then sum_of (root_weight post root) moved_rows else 0)
  visible_moved post = elim (Bool-cases up) [
    | inl e ↦ rw e (
        let more =
          visible_comments-more post root s.comments moved_rows moved_rows
            (λ k. ground (arith, moved k, e)) in
        omega (arith, more, visible_before post))
    | inr e ↦ rw e (
        let more =
          visible_comments-more post root moved_rows s.comments moved_rows
            (λ k. ground (arith, moved k, e)) in
        omega (arith, more, visible_before post))
  ]

  -- The root of the floor.
  root_row :
      (r : Comment) × (find_comment root moved_rows ≡ some r)
      × (r.root_id ≡ none)
      × (r.post_id ≡ old.post_id)
  root_row =
      let placed_old =
        All-find_first (λ c. is_placed (place_at s.comments) (placement c) ≡ true) (has_id id)
          s.comments h.places found_old in
      let floor =
        is_placed-is_floor (place_at s.comments) (placement old) root placed_old on_floor in
      is_floor-root (placement old) moved_rows root
        (rw (place_at-update_rows (has_id id) u s.comments keeps.place root) floor)

  counted_rows-AreRepliesCounted : AreRepliesCounted counted_rows
  counted_rows-AreRepliesCounted =
      All-update_rows
        (λ c.
          is_some c.root_id
            || c.reply_count + (if up && (root == c.id) then 1 else 0)
              == replies_of c.id moved_rows + (if not up && (root == c.id) then 1 else 0)
          ≡ true)
        (λ c. is_reply_counted counted_rows c ≡ true) (has_id root) bump moved_rows
        (λ c k hit. ground (arith, k, hit, replies_counted_rows c.id))
        (λ c k miss. ground (arith, k, miss, replies_counted_rows c.id))
        (All-update_rows (λ c. is_reply_counted s.comments c ≡ true)
          (λ c.
            is_some c.root_id
              || c.reply_count + (if up && (root == c.id) then 1 else 0)
                == replies_of c.id moved_rows + (if not up && (root == c.id) then 1 else 0)
            ≡ true)
          (has_id id) u s.comments
          (λ c k _. ground (
            arith,
            k,
            moved c.id,
            keeps.counter c,
            keeps_id u c keeps.place,
            keeps_root u c keeps.place,
          ))
          (λ c k _. ground (arith, k, moved c.id)) h.replies)

  floors_counted :
      (r : Comment)
      → find_comment root moved_rows ≡ some r
      → r.root_id ≡ none
      → r.post_id ≡ old.post_id
      → (post : ℕ)
      → sum_of (root_weight post root) moved_rows
        ≡ (if (old.post_id == post) && is_active r then 1 else 0)
  floors_counted r e top same post =
      root_weight-only post root moved_rows
        (update_rows-IsKeyed (has_id id) u s.comments (λ c. keeps_id u c keeps.place) h.keys) e
      ∙ rw (top, same, find_first-test (has_id root) moved_rows e) (ground arith)

  counted_rows_root :
      (r : Comment)
      → find_comment root moved_rows ≡ some r
      → is_active_root (find_comment root counted_rows) ≡ is_active r
  counted_rows_root r e =
      ap is_active_root
        (find_first-update_rows (has_id root) (has_id root) bump moved_rows (λ c. refl))
      ∙ rw e (ground arith)

  abbrev counted_posts : Bool → List CommentedPost
  counted_posts shown = if shown then shift_comment_count up 1 (u old).post_id s.posts else s.posts

  counted_posts-ArePostsCounted :
      (r : Comment)
      → find_comment root moved_rows ≡ some r
      → r.root_id ≡ none
      → r.post_id ≡ old.post_id
      → ArePostsCounted (counted_posts (is_active r)) counted_rows
  counted_posts-ArePostsCounted r e top same =
      if_rule (λ (ps : List CommentedPost). ArePostsCounted ps counted_rows) (is_active r)
        (λ shown.
          All-update_rows
            (λ (p : CommentedPost). p.comment_count ≡ visible_comments p.id s.comments)
            (λ (p : CommentedPost). p.comment_count ≡ visible_comments p.id counted_rows)
            (λ (p : CommentedPost). p.id == (u old).post_id)
            (λ p. record p { comment_count = shifted up 1 p.comment_count }) s.posts
            (λ p k hit. ground (
              arith,
              k,
              hit,
              shown,
              visible_counted_rows p.id,
              visible_moved p.id,
              floors_counted r e top same p.id,
              keeps_post u old keeps.place,
            ))
            (λ p k miss. ground (
              arith,
              k,
              miss,
              shown,
              visible_counted_rows p.id,
              visible_moved p.id,
              floors_counted r e top same p.id,
              keeps_post u old keeps.place,
            ))
            h.posts)
        (λ hidden.
          All-implies (λ (p : CommentedPost). p.comment_count ≡ visible_comments p.id s.comments)
            (λ (p : CommentedPost). p.comment_count ≡ visible_comments p.id counted_rows) s.posts
            (λ p k. ground (
              arith,
              k,
              hidden,
              visible_counted_rows p.id,
              visible_moved p.id,
              floors_counted r e top same p.id,
            ))
            h.posts)

  pub reply-IsCounted : IsCounted (record s {
    comments = counted_rows;
    posts = counted_posts (is_active_root (find_comment root counted_rows));
  })
  reply-IsCounted =
      let (r, e, top, same) = root_row in
      record {
        keys =
            update_rows-IsKeyed (has_id root) bump moved_rows (λ c. refl)
              (update_rows-IsKeyed (has_id id) u s.comments (λ c. keeps_id u c keeps.place) h.keys);
        known =
            update_rows-AreKnown s.next_id (has_id root) bump moved_rows (λ c. refl)
              (update_rows-AreKnown s.next_id (has_id id) u s.comments
                (λ c. keeps_id u c keeps.place) h.known);
        places =
            update_rows-IsPlaced (has_id root) bump moved_rows (λ c. refl)
              (update_rows-IsPlaced (has_id id) u s.comments keeps.place h.places);
        replies = counted_rows-AreRepliesCounted;
        posts = rw (counted_rows_root r e) (counted_posts-ArePostsCounted r e top same);
      }
