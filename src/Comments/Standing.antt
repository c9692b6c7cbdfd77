-- ===== src/Comments/Standing.antt =====
-- Where `resolveCommentParent` of internal/service/comment_write.go puts a comment.
use danshi_backend.Base.{
  ◌==◌, ==_iff, Option-cases, is_some, ◌>>◌, bind-eq_ok, then-eq_ok, ok, All-find_first,
  find_first-test, inr, none, sym, ◌∙◌, ap, not, true, ◌≡◌, refl, ℕ, Option, arith, some, String,
  inl,
}
use danshi_backend.Accounts.Requests.{invalid_format, conflict}
use danshi_backend.Comments.Counters.{has_passed, is_active, find_comment}
use danshi_backend.Comments.Data.{Comment, Discussion}
use danshi_backend.Comments.Payload.{
  the, require, require-eq_ok, validate_reply_to_user, Place, root_place, reply_place, floor_of,
  resolve_reply, resolve_comment_parent, comment_field, comment_missing, comment_gone,
}
use danshi_backend.Comments.Places.{
  Placement, placement, placed, place_at, is_reply_at, is_placed, IsPlaced, is_placed-is_floor,
  is_floor-root,
}
use danshi_backend.Comments.Sums.{has_id}
use danshi_backend.Comments.Write.{new_comment}

-- A comment with a key, as the table knows it.
found_place :
    (id : ℕ) (s : Discussion) (p : Comment)
    → find_comment id s.comments ≡ some p
    → place_at s.comments id ≡ some (placement p)
found_place id s p e = ap placed e

floor_of-is_floor :
    (s : Discussion) (parent_id root : ℕ) (p : Comment) (c : Placement)
    → IsPlaced s.comments
    → find_comment parent_id s.comments ≡ some p
    → p.post_id ≡ c.post_id
    → p.author_id ≡ c.reply_to_user_id
    → floor_of p p.root_id s ≡ ok root
    → is_reply_at (place_at s.comments) c root (some parent_id) ≡ true
floor_of-is_floor s parent_id root p c places e post author h = elim (Option-cases p.root_id) [
  | inl top ↦
      let same : p.id ≡ root = cc (rw top at h) in
      let key : p.id ≡ parent_id =
        (==_iff p.id parent_id).0 (find_first-test (has_id parent_id) s.comments e) in
      let place : place_at s.comments root ≡ some (placement p) =
        found_place root s p (ap (λ k. find_comment k s.comments) (sym same ∙ key) ∙ e) in
      rw (place, found_place parent_id s p e, top) (ground (arith, same, post, author))
  | inr (r, inner) ↦
      let (row, there, rest) =
        bind-eq_ok (the (find_comment r s.comments) comment_missing)
          (λ row. require (is_active row) comment_missing >> ok r) (rw inner at h) in
      let (shown, same) = then-eq_ok (require (is_active row) comment_missing) (ok r) rest in
      let at_root : r ≡ root = cc same in
      let stands =
        All-find_first (λ d. is_placed (place_at s.comments) (placement d) ≡ true)
          (has_id parent_id) s.comments places e in
      let floor = is_placed-is_floor (place_at s.comments) (placement p) r stands inner in
      let (q, found_q, top, on_post) = is_floor-root (placement p) s.comments r floor in
      rw (sym at_root, found_place r s q found_q, found_place parent_id s p e, top, inner)
        (ground (arith, on_post, post, author))
]

resolve_reply-eq_ok :
    (s : Discussion) (post_id q : ℕ) (reply_to : Option ℕ) (place : Place)
    → resolve_reply post_id q reply_to s ≡ ok place
    → (p : Comment) × (root : ℕ) × (find_comment q s.comments ≡ some p)
      × (p.post_id == post_id ≡ true)
      × (floor_of p p.root_id s ≡ ok root)
      × (reply_place p root ≡ place)
resolve_reply-eq_ok s post_id q reply_to place h =
    let (nonzero, h1) =
      then-eq_ok (require (not (q == 0)) (comment_field "parent_id" invalid_format)) _ h in
    elim (Option-cases (find_comment q s.comments)) [
      | inl miss ↦ cc (rw miss at h1)
      | inr (p, there) ↦
          let h2 = rw there at h1 in
          let (present, h3) = then-eq_ok (require (not (is_some p.deleted_at)) comment_gone) _ h2 in
          let (passed, h4) = then-eq_ok (require (has_passed p.moderation) comment_missing) _ h3 in
          let (on_post, h5) =
            then-eq_ok (require (p.post_id == post_id) (comment_field "parent_id" conflict)) _ h4 in
          let (root, floor, h6) =
            bind-eq_ok (floor_of p p.root_id s)
              (λ root. validate_reply_to_user reply_to p.author_id >> ok (reply_place p root)) h5 in
          let (given, same) =
            then-eq_ok (validate_reply_to_user reply_to p.author_id) (ok (reply_place p root)) h6 in
          (p, root, there, require-eq_ok _ _ on_post, floor, cc same)
    ]

pub resolve_comment_parent-is_placed :
    (s : Discussion) (id post_id post_author author : ℕ) (parent_id reply_to : Option ℕ)
    (content : String) (now : ℕ) (place : Place)
    → IsPlaced s.comments
    → resolve_comment_parent post_id post_author parent_id reply_to s ≡ ok place
    → is_placed
        (place_at s.comments)
        (placement (new_comment id post_id author parent_id place content now))
      ≡ true
resolve_comment_parent-is_placed s id post_id post_author author none reply_to content now place
      places h =
    let (given, same) =
      then-eq_ok (validate_reply_to_user reply_to post_author) (ok (root_place post_author)) h in
    let top : none ≡ place.root = cc same in rw (sym top) refl
resolve_comment_parent-is_placed s id post_id post_author author (some q) reply_to content now place
      places h =
    let (p, root, there, on_post, floor, same) = resolve_reply-eq_ok s post_id q reply_to place h in
    let put : place.root ≡ some root = cc same in
    let answered : p.author_id ≡ place.reply_to = cc same in
    let post = (==_iff p.post_id post_id).0 on_post in
    rw put (
      floor_of-is_floor s q root p
        (placement (new_comment id post_id author (some q) place content now)) places there post
        answered floor)
