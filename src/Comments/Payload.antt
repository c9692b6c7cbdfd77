-- ===== src/Comments/Payload.antt =====
-- What a comment is checked for before it is written, and where it stands in its discussion:
-- internal/service/comment_write.go.
use Prim.Native.String.{len}
use danshi_backend.Base.{
  leb, ◌==◌, if◌then◌else◌, is_some, length, filter, any, ◌+++◌, Result, ◌>>=◌, ◌>>◌, ok, err,
  starts_with, refl, ◌≡◌, Option, some, str_eq, ℕ, ◌&&◌, none, Bool, not, List, [], String, true,
  ◌∷◌, false, ◌||◌,
}
use danshi_backend.Accounts.Data.{User}
use danshi_backend.Accounts.Requests.{invalid_format, FieldProblem, required, too_long, conflict}
use danshi_backend.Accounts.Validation.{trim_space}
use danshi_backend.Comments.Counters.{has_passed, is_active, find_comment}
use danshi_backend.Comments.Data.{Comment, CommentedPost, Discussion}
use danshi_backend.Comments.Statements.{active_users}
use danshi_backend.Moderation.Data.{PostStatus, approved}
use danshi_backend.Moderation.Repository.{is_in}

pub data CommentError : Type 0 where
  comment_field : String → FieldProblem → CommentError
  post_missing post_gone post_unpublished comment_missing comment_gone : CommentError
  not_comment_owner comment_internal not_restorable : CommentError

pub record CreateCommentInput : Type 0 where
  pub content : String
  pub parent_id : Option ℕ
  pub reply_to_user_id : Option ℕ
  pub mentioned_user_ids : List ℕ

abbrev pub the : {A : Type 0} → Option A → CommentError → Result CommentError A
the none e = err e
the (some a) e = ok a

abbrev pub require : Bool → CommentError → Result CommentError (Unit {0})
require b e = if b then ok tt else err e

pub the-eq_ok : {A : Type 0} (o : Option A) (e : CommentError) {a : A} → the o e ≡ ok a → o ≡ some a
the-eq_ok none e h = cc h
the-eq_ok (some b) e h = cc h

pub require-eq_ok : (b : Bool) (e : CommentError) → require b e ≡ ok tt → b ≡ true
require-eq_ok true e h = refl
require-eq_ok false e h = cc h

abbrev pub max_comment_content_runes : ℕ
max_comment_content_runes = 2000

-- `uniqueIDs`, which keeps the first of each.
abbrev pub first_of_each : List ℕ → List ℕ → List ℕ
first_of_each seen [] = []
first_of_each seen (n ∷ ns) =
    let fresh = first_of_each (n ∷ seen) ns in
    let stale = first_of_each seen ns in if is_in seen n then stale else n ∷ fresh

abbrev pub unique_ids : List ℕ → List ℕ
unique_ids ns = first_of_each [] ns

-- `differenceIDs`.
abbrev pub difference_ids : List ℕ → List ℕ → List ℕ
difference_ids values existing = filter (λ n. not (is_in existing n)) values

-- `strings.Contains`.
abbrev pub contains : String → String → Bool
contains String.[] part = starts_with String.[] part
contains (String.◌∷◌ c s) part = starts_with (String.◌∷◌ c s) part || contains s part

abbrev pub is_mentioned_in : String → User → Bool
is_mentioned_in content u = not (str_eq u.username "") && contains content ("@" +++ u.username)

-- `normalizeCommentPayload`.
unfoldable pub normalize_comment_payload :
    String → List ℕ → Discussion → Result CommentError (String × List ℕ)
normalize_comment_payload raw raw_ids s =
    let content = trim_space raw in
    let ids = unique_ids raw_ids in
    let people = active_users ids s in
    do
      require (not (str_eq content "")) (comment_field "content" required)
      require (leb (len content) max_comment_content_runes) (comment_field "content" too_long)
      require (not (any (λ n. n == 0) raw_ids)) (comment_field "mentioned_user_ids" invalid_format)
      require (length people == length ids) (comment_field "mentioned_user_ids" conflict)
      require (not (any (λ u. not (is_mentioned_in content u)) people))
          (comment_field "mentioned_user_ids" conflict)
      ok (content, ids)

abbrev pub is_published : PostStatus → Bool
is_published approved = true
is_published _ = false

-- `ensurePostWritable` of internal/service/post.go.
abbrev pub ensure_post_writable : CommentedPost → Result CommentError (Unit {0})
ensure_post_writable p =
    if is_some p.deleted_at
    then err post_gone
    else if is_published p.status
    then ok tt
    else err post_unpublished

-- `validateReplyToUser`.
abbrev pub validate_reply_to_user : Option ℕ → ℕ → Result CommentError (Unit {0})
validate_reply_to_user none expected = ok tt
validate_reply_to_user (some given) expected =
    require (given == expected) (comment_field "reply_to_user_id" conflict)

-- Where a comment stands: its parent, its root and whom it answers.
pub record Place : Type 0 where
  pub parent : Option Comment
  pub root : Option ℕ
  pub reply_to : ℕ

abbrev pub root_place : ℕ → Place
root_place post_author = record { parent = none; root = none; reply_to = post_author }

abbrev pub reply_place : Comment → ℕ → Place
reply_place parent root = record {
  parent = some parent;
  root = some root;
  reply_to = parent.author_id;
}

-- The floor of a reply to `parent`, which must be shown.
abbrev pub floor_of : Comment → Option ℕ → Discussion → Result CommentError ℕ
floor_of parent none s = ok parent.id
floor_of parent (some root_id) s = do
  root ← the (find_comment root_id s.comments) comment_missing
  require (is_active root) comment_missing
  ok root_id

-- `resolveCommentParent`, of an input with a parent.
abbrev pub resolve_reply : ℕ → ℕ → Option ℕ → Discussion → Result CommentError Place
resolve_reply post_id parent_id reply_to s = do
  require (not (parent_id == 0)) (comment_field "parent_id" invalid_format)
  parent ← the (find_comment parent_id s.comments) comment_missing
  require (not (is_some parent.deleted_at)) comment_gone
  require (has_passed parent.moderation) comment_missing
  require (parent.post_id == post_id) (comment_field "parent_id" conflict)
  root ← floor_of parent parent.root_id s
  validate_reply_to_user reply_to parent.author_id
  ok (reply_place parent root)

-- `resolveCommentParent`.
abbrev pub resolve_comment_parent :
    ℕ → ℕ → Option ℕ → Option ℕ → Discussion → Result CommentError Place
resolve_comment_parent post_id post_author none reply_to s = do
  validate_reply_to_user reply_to post_author
  ok (root_place post_author)
resolve_comment_parent post_id post_author (some parent_id) reply_to s =
    resolve_reply post_id parent_id reply_to s
