-- ===== src/Comments/Versions.antt =====
-- The history of a comment (comment_histories): what it records, and what a change of one comment does
-- to it.
use danshi_backend.Base.{
  ltb, ◌==◌, if◌then◌else◌, Option-cases, if_rule, any, All, update_rows, All-update_rows, inl,
  some, false, Option, str_eq, none, ℕ, ◌∷◌, arith, [], ◌++◌, List, ◌≡◌, ◌||◌, subst, true, ◌&&◌,
  Bool, refl, inr,
}
use danshi_backend.Comments.Counted.{AreKnown, update_rows-AreKnown}
use danshi_backend.Comments.Counters.{is_active, find_comment, shifted, count_row, sync_counts}
use danshi_backend.Comments.Data.{Comment, CommentHistory, Discussion}
use danshi_backend.Comments.Statements.{update_comment, max_revision}
use danshi_backend.Comments.Sums.{has_id}

-- The version of a comment's text as it is now.
abbrev pub is_version : Comment → CommentHistory → Bool
is_version c h =
    h.comment_id == c.id && h.revision == c.current_revision && str_eq h.content c.content

-- The last version of a comment is its text, under its revision.
abbrev pub is_recorded : List CommentHistory → Comment → Bool
is_recorded hs c = any (is_version c) hs && max_revision c.id hs == c.current_revision

pub record AreRecorded (cs : List Comment) (hs : List CommentHistory) (next_id : ℕ) : Type 0 where
  pub known : AreKnown next_id cs
  pub known_histories : All (λ h. ltb h.comment_id next_id ≡ true) hs
  pub versions : All (λ c. is_recorded hs c ≡ true) cs

abbrev pub IsRecorded : Discussion → Type 0
IsRecorded s = AreRecorded s.comments s.histories s.next_id

-- What an UPDATE of a comment leaves behind: the rows that it changes, but for counters.
pub record Updated (u : Comment → Comment) (id : ℕ) (s s' : Discussion) : Type 1 where
  pub same_histories : s'.histories ≡ s.histories
  pub same_next : s'.next_id ≡ s.next_id
  pub rows :
      (P : Comment → Type 0)
      → ((c : Comment) (n : ℕ) → P c → P (record c { reply_count = n }))
      → All P (update_rows (has_id id) u s.comments)
      → All P s'.comments

count_row-All :
    (P : Comment → Type 0) (up : Bool) (c : Comment) (root : Option ℕ) (s : Discussion)
    → ((d : Comment) (n : ℕ) → P d → P (record d { reply_count = n }))
    → All P s.comments
    → All P (count_row up c root s).comments
count_row-All P up c none s free h = h
count_row-All P up c (some root) s free h =
    All-update_rows P P (has_id root) (λ d. record d { reply_count = shifted up 1 d.reply_count })
      s.comments (λ d k _. free d (shifted up 1 d.reply_count) k) (λ d k _. k) h

count_row-same :
    (up : Bool) (c : Comment) (root : Option ℕ) (s : Discussion)
    → ((count_row up c root s).histories ≡ s.histories)
      × ((count_row up c root s).next_id ≡ s.next_id)
count_row-same up c none s = (refl, refl)
count_row-same up c (some root) s = (refl, refl)

counted-Updated :
    (u : Comment → Comment) (id : ℕ) (s : Discussion) (up : Bool) (c : Comment) (root : Option ℕ)
    → Updated u id s
        (count_row up c root (record s { comments = update_rows (has_id id) u s.comments }))
counted-Updated u id s up c root =
    let changed = record s { comments = update_rows (has_id id) u s.comments } in
    let (hs, next) = count_row-same up c root changed in
    record {
      same_histories = hs;
      same_next = next;
      rows = λ P free h. count_row-All P up c root changed free h;
    }

sync_counts-Updated :
    (u : Comment → Comment) (id : ℕ) (s : Discussion) (old c : Comment)
    → Updated u id s
        (sync_counts old c (record s { comments = update_rows (has_id id) u s.comments }))
unfolding sync_counts
sync_counts-Updated u id s old c =
    if_rule (Updated u id s) (is_active old)
      (λ _.
        if_rule (Updated u id s) (is_active c) (λ _. same)
          (λ _. counted-Updated u id s false c c.root_id))
      (λ _.
        if_rule (Updated u id s) (is_active c) (λ _. counted-Updated u id s true c c.root_id)
          (λ _. same))
  where
    same : Updated u id s (record s { comments = update_rows (has_id id) u s.comments })
    same = record { same_histories = refl; same_next = refl; rows = λ P free h. h }

pub update_comment-Updated :
    (u : Comment → Comment) (id : ℕ) (s s' : Discussion)
    → update_comment u id s ≡ some s'
    → Updated u id s s'
unfolding update_comment
update_comment-Updated u id s s' e = elim (Option-cases (find_comment id s.comments)) [
  | inl miss ↦ cc (rw (update_comment, miss) at e)
  | inr (old, there) ↦
      let left : sync_counts old (u old)
            (record s { comments = update_rows (has_id id) u s.comments })
          ≡ s' =
        cc (rw (update_comment, there) at e) in
      subst (Updated u id s) left (sync_counts-Updated u id s old (u old))
]

-- A change that keeps the text of a comment keeps its history true.
pub record KeepsText (u : Comment → Comment) : Type 0 where
  pub key : (c : Comment) → (u c).id ≡ c.id
  pub revision : (c : Comment) → (u c).current_revision ≡ c.current_revision
  pub text : (c : Comment) → (u c).content ≡ c.content

pub update_comment-IsRecorded :
    (u : Comment → Comment) (id : ℕ) (s s' : Discussion)
    → KeepsText u
    → update_comment u id s ≡ some s'
    → IsRecorded s
    → IsRecorded s'
update_comment-IsRecorded u id s s' keeps e h =
    let after_it = update_comment-Updated u id s s' e in
    rw (after_it.same_histories, after_it.same_next)
      (record {
        known =
            after_it.rows (λ c. ltb c.id s.next_id ≡ true) (λ c n k. k)
              (update_rows-AreKnown s.next_id (has_id id) u s.comments keeps.key h.known);
        known_histories = h.known_histories;
        versions =
            after_it.rows (λ c. is_recorded s.histories c ≡ true) (λ c n k. k)
              (All-update_rows (λ c. is_recorded s.histories c ≡ true)
                (λ c. is_recorded s.histories c ≡ true) (has_id id) u s.comments
                (λ c k _. rw (keeps.key c, keeps.revision c, keeps.text c) k) (λ c k _. k)
                h.versions);
      })

-- A version more.
pub max_revision-append :
    (id : ℕ) (hs : List CommentHistory) (h : CommentHistory)
    → max_revision id (hs ++ (h ∷ [])) ≡ (
        let last = if h.comment_id == id then h.revision else 0 in
        if ltb (max_revision id hs) last then last else max_revision id hs)
max_revision-append id [] h = ground arith
max_revision-append id (g ∷ hs) h = ground (arith, max_revision-append id hs h)

pub any-append {ℓ} :
    {A : Type ℓ} (p : A → Bool) (xs ys : List A) → any p (xs ++ ys) ≡ any p xs || any p ys
any-append p [] ys = refl
any-append p (x ∷ xs) ys = ground (arith, any-append p xs ys)

pub max_revision-none :
    (id : ℕ) (hs : List CommentHistory)
    → All (λ h. ltb h.comment_id id ≡ true) hs
    → max_revision id hs ≡ 0
max_revision-none id [] k = refl
max_revision-none id (g ∷ hs) k = ground (arith, k.0, max_revision-none id hs k.1)
