-- ===== src/Comments/Floors.antt =====
-- What the counters of comments should be, counted anew, and what the change of one comment does to it.
use danshi_backend.Base.{
  ◌==◌, if◌then◌else◌, is_some, update_rows, List, Bool, ℕ, ◌+◌, some, ◌&&◌, not, ◌∙◌, ◌≡◌, arith,
  ap,
}
use danshi_backend.Comments.Counters.{is_active, find_comment}
use danshi_backend.Comments.Data.{Comment}
use danshi_backend.Comments.Sums.{
  sum_of, sum_of-ext, sum_of-add, has_id, IsKeyed, sum_of-update_comment, sum_of-only,
}
use danshi_backend.Moderation.Repository.{same_id}

-- A reply on the floor of `root` that counts.
abbrev pub reply_weight : ℕ → Comment → ℕ
reply_weight root c = if is_active c && same_id c.root_id root then 1 else 0

abbrev pub replies_of : ℕ → List Comment → ℕ
replies_of root cs = sum_of (reply_weight root) cs

abbrev pub is_root_of : ℕ → Comment → Bool
is_root_of post c = c.post_id == post && not (is_some c.root_id) && is_active c

-- A floor of a post: its root, if it counts, and then its replies that count.
abbrev pub floor_size : ℕ → List Comment → Comment → ℕ
floor_size post cs c = if is_root_of post c then 1 + replies_of c.id cs else 0

abbrev pub visible_comments : ℕ → List Comment → ℕ
visible_comments post cs = sum_of (floor_size post cs) cs

-- Columns that count differently at the row with a key only.
module _ (id : ℕ) (u : Comment → Comment) (cs : List Comment) (old : Comment) where
  -- The replies of a floor, after the row `old` has changed to `u old`.
  pub replies_of-changed :
      (root : ℕ)
      → IsKeyed cs
      → find_comment id cs ≡ some old
      → replies_of root (update_rows (has_id id) u cs) + reply_weight root old
        ≡ replies_of root cs + reply_weight root (u old)
  replies_of-changed root keys e = sum_of-update_comment (reply_weight root) id u cs keys e

  -- A row that counts as before, or that is no reply, leaves the replies of each floor alone.
  pub replies_of-same :
      (root : ℕ)
      → IsKeyed cs
      → find_comment id cs ≡ some old
      → reply_weight root (u old) ≡ reply_weight root old
      → replies_of root (update_rows (has_id id) u cs) ≡ replies_of root cs
  replies_of-same root keys e same = omega (arith, replies_of-changed root keys e, same)

  -- Then a post's comments change by the row's own floor.
  pub visible_comments-changed :
      (post : ℕ)
      → IsKeyed cs
      → find_comment id cs ≡ some old
      → ((root : ℕ) → reply_weight root (u old) ≡ reply_weight root old)
      → visible_comments post (update_rows (has_id id) u cs) + floor_size post cs old
        ≡ visible_comments post cs + floor_size post cs (u old)
  visible_comments-changed post keys e same =
      let moved =
        sum_of-ext (floor_size post (update_rows (has_id id) u cs)) (floor_size post cs)
          (update_rows (has_id id) u cs)
          (λ c.
            ap (λ n. if is_root_of post c then 1 + n else 0)
              (replies_of-same c.id keys e (same c.id))) in
      omega (arith, moved, sum_of-update_comment (floor_size post cs) id u cs keys e)

-- The floors of a post whose root is the comment `root`.
abbrev pub root_weight : ℕ → ℕ → Comment → ℕ
root_weight post root c = if is_root_of post c && has_id root c then 1 else 0

-- Where one more reply counts on the floor of `root`, a post's comments change by one if that floor
-- counts for it.
pub visible_comments-more :
    (post root : ℕ) (cs cs' xs : List Comment)
    → ((k : ℕ) → replies_of k cs' ≡ replies_of k cs + (if root == k then 1 else 0))
    → sum_of (floor_size post cs') xs
      ≡ sum_of (floor_size post cs) xs + sum_of (root_weight post root) xs
visible_comments-more post root cs cs' xs more =
    sum_of-ext (floor_size post cs') (λ c. floor_size post cs c + root_weight post root c) xs
      (λ c. ground (arith, more c.id))
    ∙ sum_of-add (floor_size post cs) (root_weight post root) xs

pub root_weight-only :
    (post root : ℕ) (cs : List Comment) {c : Comment}
    → IsKeyed cs
    → find_comment root cs ≡ some c
    → sum_of (root_weight post root) cs ≡ root_weight post root c
root_weight-only post root cs keys e =
    sum_of-only (root_weight post root) root cs keys (λ d k. ground (arith, k)) e
