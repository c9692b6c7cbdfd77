-- ===== src/Comments/Counted.antt =====
-- The trigger of comments (migrations/00009_comment_visibility.sql): what the change of one comment
-- does to the counters.
use danshi_backend.Base.{
  ltb, ◌==◌, if◌then◌else◌, is_some, All, update_rows, All-update_rows, All-implies, All-find_first,
  ◌+◌, ◌&&◌, true, refl, ℕ, ◌∙◌, List, ◌≡◌, ◌||◌, not, arith, some, Bool, ap, none,
}
use danshi_backend.Comments.Counters.{is_active, find_comment, shifted, shift_comment_count}
use danshi_backend.Comments.Data.{Comment, CommentedPost, Discussion}
use danshi_backend.Comments.Floors.{
  reply_weight, replies_of, floor_size, visible_comments, replies_of-same, visible_comments-changed,
}
use danshi_backend.Comments.Places.{Placement, IsPlaced, KeepsPlace, update_rows-IsPlaced}
use danshi_backend.Comments.Sums.{has_id, IsKeyed, update_rows-IsKeyed}

-- The counter of a root comment is the number of its replies that count.
abbrev pub is_reply_counted : List Comment → Comment → Bool
is_reply_counted cs c = is_some c.root_id || c.reply_count == replies_of c.id cs

abbrev pub AreRepliesCounted : List Comment → Type 0
AreRepliesCounted cs = All (λ c. is_reply_counted cs c ≡ true) cs

-- The counter of a post is the number of its comments that count.
abbrev pub ArePostsCounted : List CommentedPost → List Comment → Type 0
ArePostsCounted ps cs = All (λ p. p.comment_count ≡ visible_comments p.id cs) ps

abbrev pub AreKnown : ℕ → List Comment → Type 0
AreKnown next_id cs = All (λ c. ltb c.id next_id ≡ true) cs

pub record AreCounted (cs : List Comment) (ps : List CommentedPost) (next_id : ℕ) : Type 0 where
  pub keys : IsKeyed cs
  pub known : AreKnown next_id cs
  pub places : IsPlaced cs
  pub replies : AreRepliesCounted cs
  pub posts : ArePostsCounted ps cs

-- Keys are unique and given out in order, comments stand where they may, and both counters are right.
abbrev pub IsCounted : Discussion → Type 0
IsCounted s = AreCounted s.comments s.posts s.next_id

-- A change of comments that keeps their places and their counters.
pub record KeepsCount (u : Comment → Comment) : Type 0 where
  pub place : KeepsPlace u
  pub counter : (c : Comment) → (u c).reply_count ≡ c.reply_count

pub keeps_id : (u : Comment → Comment) (c : Comment) → KeepsPlace u → (u c).id ≡ c.id
keeps_id u c k = ap (λ (q : Placement). q.id) (k c)

pub keeps_post : (u : Comment → Comment) (c : Comment) → KeepsPlace u → (u c).post_id ≡ c.post_id
keeps_post u c k = ap (λ (q : Placement). q.post_id) (k c)

pub keeps_root : (u : Comment → Comment) (c : Comment) → KeepsPlace u → (u c).root_id ≡ c.root_id
keeps_root u c k = ap (λ (q : Placement). q.root_id) (k c)

pub update_rows-AreKnown :
    (n : ℕ) (p : Comment → Bool) (u : Comment → Comment) (cs : List Comment)
    → ((c : Comment) → (u c).id ≡ c.id)
    → AreKnown n cs
    → AreKnown n (update_rows p u cs)
update_rows-AreKnown n p u cs same h =
    All-update_rows (λ c. ltb c.id n ≡ true) (λ c. ltb c.id n ≡ true) p u cs
      (λ c k _. rw (same c) k) (λ c k _. k) h

pub update_rows-AreRepliesCounted :
    (p : Comment → Bool) (u : Comment → Comment) (cs cs' : List Comment)
    → KeepsCount u
    → ((k : ℕ) → replies_of k cs' ≡ replies_of k cs)
    → AreRepliesCounted cs
    → All (λ c. is_reply_counted cs' c ≡ true) (update_rows p u cs)
update_rows-AreRepliesCounted p u cs cs' keeps same h =
    All-update_rows (λ c. is_reply_counted cs c ≡ true) (λ c. is_reply_counted cs' c ≡ true) p u cs
      (λ c k _. ground (
        arith,
        k,
        same c.id,
        keeps.counter c,
        keeps_id u c keeps.place,
        keeps_root u c keeps.place,
      ))
      (λ c k _. ground (arith, k, same c.id)) h

module _ (id : ℕ) (u : Comment → Comment) (s : Discussion) (old : Comment) (keeps : KeepsCount u)
    (found_old : find_comment id s.comments ≡ some old) (h : IsCounted s) where
  abbrev changed : List Comment
  changed = update_rows (has_id id) u s.comments

  changed-IsKeyed : IsKeyed changed
  changed-IsKeyed =
      update_rows-IsKeyed (has_id id) u s.comments (λ c. keeps_id u c keeps.place) h.keys

  changed-AreKnown : AreKnown s.next_id changed
  changed-AreKnown =
      update_rows-AreKnown s.next_id (has_id id) u s.comments (λ c. keeps_id u c keeps.place)
        h.known

  changed-IsPlaced : IsPlaced changed
  changed-IsPlaced = update_rows-IsPlaced (has_id id) u s.comments keeps.place h.places

  -- A change that does not count leaves the counters as they are.
  pub same_activity-IsCounted :
      is_active (u old) ≡ is_active old → IsCounted (record s { comments = changed })
  same_activity-IsCounted same = record {
    keys = changed-IsKeyed;
    known = changed-AreKnown;
    places = changed-IsPlaced;
    replies =
        update_rows-AreRepliesCounted (has_id id) u s.comments changed keeps replies_same h.replies;
    posts =
        All-implies (λ (p : CommentedPost). p.comment_count ≡ visible_comments p.id s.comments)
          (λ (p : CommentedPost). p.comment_count ≡ visible_comments p.id changed) s.posts
          (λ p k. omega (
            arith,
            k,
            visible_comments-changed id u s.comments old p.id h.keys found_old weight,
            floor p.id,
          ))
          h.posts;
  }
    where
      weight : (k : ℕ) → reply_weight k (u old) ≡ reply_weight k old
      weight k = rw (same, keeps_root u old keeps.place) refl

      replies_same : (k : ℕ) → replies_of k changed ≡ replies_of k s.comments
      replies_same k = replies_of-same id u s.comments old k h.keys found_old (weight k)

      floor : (post : ℕ) → floor_size post s.comments (u old) ≡ floor_size post s.comments old
      floor post =
          rw
            (
              same,
              keeps_root u old keeps.place,
              keeps_post u old keeps.place,
              keeps_id u old keeps.place,
            )
            refl

  -- A root that comes to count, or ceases to, takes its floor with it.
  pub root-IsCounted :
      (up : Bool)
      → old.root_id ≡ none
      → is_active (u old) ≡ up
      → is_active old ≡ not up
      → IsCounted (record s {
        comments = changed;
        posts = shift_comment_count up (1 + (u old).reply_count) (u old).post_id s.posts;
      })
  root-IsCounted up root now before = record {
    keys = changed-IsKeyed;
    known = changed-AreKnown;
    places = changed-IsPlaced;
    replies =
        update_rows-AreRepliesCounted (has_id id) u s.comments changed keeps replies_same h.replies;
    posts =
        All-update_rows (λ (p : CommentedPost). p.comment_count ≡ visible_comments p.id s.comments)
          (λ (p : CommentedPost). p.comment_count ≡ visible_comments p.id changed)
          (λ (p : CommentedPost). p.id == (u old).post_id)
          (λ p. record p { comment_count = shifted up (1 + (u old).reply_count) p.comment_count })
          s.posts
          (λ p k hit. ground (
            arith,
            k,
            hit,
            counted,
            moved p.id,
            new_floor p.id,
            old_floor p.id,
            keeps_post u old keeps.place,
          ))
          (λ p k miss. ground (
            arith,
            k,
            miss,
            moved p.id,
            new_floor p.id,
            old_floor p.id,
            keeps_post u old keeps.place,
          ))
          h.posts;
  }
    where
      root' : (u old).root_id ≡ none
      root' = keeps_root u old keeps.place ∙ root

      weight : (k : ℕ) → reply_weight k (u old) ≡ reply_weight k old
      weight k = ground (arith, root, root')

      replies_same : (k : ℕ) → replies_of k changed ≡ replies_of k s.comments
      replies_same k = replies_of-same id u s.comments old k h.keys found_old (weight k)

      counted : (u old).reply_count ≡ replies_of old.id s.comments
      counted =
          let k =
            All-find_first (λ c. is_reply_counted s.comments c ≡ true) (has_id id) s.comments
              h.replies found_old in
          ground (arith, k, root, keeps.counter old)

      moved :
          (post : ℕ)
          → visible_comments post changed + floor_size post s.comments old
            ≡ visible_comments post s.comments + floor_size post s.comments (u old)
      moved post = visible_comments-changed id u s.comments old post h.keys found_old weight

      new_floor :
          (post : ℕ)
          → floor_size post s.comments (u old)
            ≡ (if (old.post_id == post) && up then 1 + replies_of old.id s.comments else 0)
      new_floor post =
          rw (now, root', keeps_post u old keeps.place, keeps_id u old keeps.place) (ground arith)

      old_floor :
          (post : ℕ)
          → floor_size post s.comments old
            ≡ (if (old.post_id == post) && not up then 1 + replies_of old.id s.comments else 0)
      old_floor post = rw (before, root) (ground arith)
