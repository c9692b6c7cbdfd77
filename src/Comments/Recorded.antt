-- ===== src/Comments/Recorded.antt =====
-- Writing and rewriting a comment, and its versions (internal/service/comment_write.go).
use text.Mathlib.TextEquality.{eq_iff}
use danshi_backend.Base.{
  ltb, ◌==◌, ==_iff, Option-cases, All, All-update_rows, All-append_rows, All-implies,
  All-find_first, find_first-test, inr, arith, ◌∷◌, ◌+◌, false, inl, subst, ℕ, ◌≡◌, String, some,
  Option, [], List, ◌++◌, refl, true, ◌<◌,
}
use danshi_backend.Comments.Counted.{update_rows-AreKnown}
use danshi_backend.Comments.Counters.{find_comment}
use danshi_backend.Comments.Data.{Comment, CommentHistory, Discussion}
use danshi_backend.Comments.Payload.{Place}
use danshi_backend.Comments.Statements.{
  update_comment, with_content, update_content, max_revision, next_history_revision, create_history,
  replace_mentions,
}
use danshi_backend.Comments.Sums.{has_id}
use danshi_backend.Comments.Versions.{
  is_version, is_recorded, IsRecorded, update_comment-Updated, max_revision-append, any-append,
  max_revision-none,
}
use danshi_backend.Comments.Write.{new_comment, history_of, insert_comment, rewrite_comment}

-- A version of one comment leaves the records of the others alone.
is_recorded-other :
    (hs : List CommentHistory) (h : CommentHistory) (c : Comment)
    → h.comment_id == c.id ≡ false
    → is_recorded hs c ≡ true
    → is_recorded (hs ++ (h ∷ [])) c ≡ true
is_recorded-other hs h c other e =
    ground (arith, e, other, any-append (is_version c) hs (h ∷ []), max_revision-append c.id hs h)

-- A later version with the text of a comment is its last.
is_recorded-own :
    (hs : List CommentHistory) (h : CommentHistory) (c : Comment)
    → is_version c h ≡ true
    → max_revision c.id hs < c.current_revision
    → is_recorded (hs ++ (h ∷ [])) c ≡ true
is_recorded-own hs h c own later =
    ground (arith, own, later, any-append (is_version c) hs (h ∷ []), max_revision-append c.id hs h)

pub insert-IsRecorded :
    (s : Discussion) (post_id author : ℕ) (parent_id : Option ℕ) (place : Place) (content : String)
    (ids : List ℕ) (now : ℕ)
    → IsRecorded s
    → IsRecorded
        (insert_comment (new_comment s.next_id post_id author parent_id place content now) ids s)
insert-IsRecorded s post_id author parent_id place content ids now h = record {
  known =
      All-append_rows (λ d. ltb d.id (s.next_id + 1) ≡ true) s.comments (c ∷ [])
        (All-implies (λ d. ltb d.id s.next_id ≡ true) (λ d. ltb d.id (s.next_id + 1) ≡ true)
          s.comments (λ d k. ground (arith, k)) h.known)
        (ground arith, tt);
  known_histories =
      All-append_rows (λ g. ltb g.comment_id (s.next_id + 1) ≡ true) s.histories (first ∷ [])
        (All-implies (λ g. ltb g.comment_id s.next_id ≡ true)
          (λ g. ltb g.comment_id (s.next_id + 1) ≡ true) s.histories (λ g k. ground (arith, k))
          h.known_histories)
        (ground arith, tt);
  versions =
      All-append_rows (λ d. is_recorded (s.histories ++ (first ∷ [])) d ≡ true) s.comments (c ∷ [])
        (both s.comments h.known h.versions)
        (
          is_recorded-own s.histories first c (ground (arith, (eq_iff content content).1 refl))
              (omega (arith, max_revision-none s.next_id s.histories h.known_histories)),
          tt,
        );
}
  where
    c : Comment
    c = new_comment s.next_id post_id author parent_id place content now

    first : CommentHistory
    first = history_of s.next_id 1 author now content

    both :
        (ds : List Comment)
        → All (λ d. ltb d.id s.next_id ≡ true) ds
        → All (λ d. is_recorded s.histories d ≡ true) ds
        → All (λ d. is_recorded (s.histories ++ (first ∷ [])) d ≡ true) ds
    both [] k v = tt
    both (d ∷ ds) k v =
        (is_recorded-other s.histories first d (ground (arith, k.0)) v.0, both ds k.1 v.1)

pub rewrite_comment-IsRecorded :
    (id : ℕ) (content : String) (ids : List ℕ) (author now : ℕ) (s s' : Discussion)
    → rewrite_comment id content ids author now s ≡ some s'
    → IsRecorded s
    → IsRecorded s'
unfolding update_content
rewrite_comment-IsRecorded id content ids author now s s' e h =
    elim (Option-cases (update_content id content (next_history_revision id s) now s)) [
      | inl miss ↦ cc (rw (rewrite_comment, miss) at e)
      | inr (s1, there) ↦
          let after_it = update_comment-Updated changed id s s1 there in
          let left : create_history version (replace_mentions id ids s1) ≡ s' =
            cc (rw (rewrite_comment, there) at e) in
          subst IsRecorded left (
            rw (after_it.same_histories, after_it.same_next)
              (record {
                known =
                    after_it.rows (λ c. ltb c.id s.next_id ≡ true) (λ c n k. k)
                      (update_rows-AreKnown s.next_id (has_id id) changed s.comments (λ c. refl)
                        h.known);
                known_histories =
                    All-append_rows (λ g. ltb g.comment_id s.next_id ≡ true) s.histories
                      (version ∷ []) h.known_histories (known_id s1 there, tt);
                versions =
                    after_it.rows (λ c. is_recorded (s.histories ++ (version ∷ [])) c ≡ true)
                      (λ c n k. k)
                      (All-update_rows (λ c. is_recorded s.histories c ≡ true)
                        (λ c. is_recorded (s.histories ++ (version ∷ [])) c ≡ true) (has_id id)
                        changed s.comments (λ c k hit. own c hit)
                        (λ c k miss.
                          is_recorded-other s.histories version c (ground (arith, miss)) k)
                        h.versions);
              }))
    ]
  where
    changed : Comment → Comment
    changed = with_content content (next_history_revision id s) now

    version : CommentHistory
    version = history_of id (next_history_revision id s) author now content

    own :
        (c : Comment)
        → has_id id c ≡ true
        → is_recorded (s.histories ++ (version ∷ [])) (changed c) ≡ true
    own c hit =
        let same : c.id ≡ id = (==_iff c.id id).0 hit in
        is_recorded-own s.histories version (changed c)
          (ground (arith, same, (eq_iff content content).1 refl)) (rw same (omega arith))

    known_id :
        (s1 : Discussion)
        → update_content id content (next_history_revision id s) now s ≡ some s1
        → ltb id s.next_id ≡ true
    known_id s1 there = elim (Option-cases (find_comment id s.comments)) [
      | inl miss ↦ cc (rw (update_content, update_comment, miss) at there)
      | inr (c, hit) ↦
          let known =
            All-find_first (λ d. ltb d.id s.next_id ≡ true) (has_id id) s.comments h.known hit in
          let same = (==_iff c.id id).0 (find_first-test (has_id id) s.comments hit) in
          rw same at known
    ]
