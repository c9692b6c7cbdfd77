-- ===== src/Comments/Statements.antt =====
-- The statements of internal/repository/comment.go that change tables, and those that the writers read.
use danshi_backend.Base.{
  ltb, ◌==◌, if◌then◌else◌, is_some, filter, any, find_first, update_rows, Option, Bool, ◌+◌, some,
  ◌++◌, false, none, ◌&&◌, ℕ, List, true, map, not, [], String, ◌∷◌,
}
use danshi_backend.Accounts.Data.{User}
use danshi_backend.Comments.Counters.{find_comment, sync_counts}
use danshi_backend.Comments.Data.{
  DeleteReason, Comment, CommentMention, CommentLike, CommentHistory, Notification, CommentedPost,
  CommentReview, Discussion, by_moderation,
}
use danshi_backend.Moderation.Data.{ModerationStatus, moderation_block}
use danshi_backend.Moderation.Repository.{is_in}

-- An UPDATE of a comment by its key, with the trigger of its row; `none` where there is no row.
unfoldable pub update_comment : (Comment → Comment) → ℕ → Discussion → Option Discussion
unfolding sync_counts
update_comment u id s = elim (find_comment id s.comments) [
  | none ↦ none
  | some old ↦ some (
      sync_counts old (u old)
        (record s { comments = update_rows (λ (c : Comment). c.id == id) u s.comments }))
]

-- The columns that `UpdateContent` writes.
abbrev pub with_content : String → ℕ → ℕ → Comment → Comment
with_content content revision now c = record c {
  content = content;
  current_revision = revision;
  updated_at = now;
}

-- `UpdateContent`.
unfoldable pub update_content : ℕ → String → ℕ → ℕ → Discussion → Option Discussion
unfolding update_comment
update_content id content revision now s = update_comment (with_content content revision now) id s

abbrev pub is_blocked : ModerationStatus → Bool
is_blocked moderation_block = true
is_blocked _ = false

-- The columns that `ApplyModeration` writes: a block deletes, and any other verdict undoes a deletion.
abbrev pub with_moderation : ModerationStatus → ℕ → Comment → Comment
with_moderation m now c = record c {
  moderation = m;
  deleted_at = if is_blocked m then some now else none;
  deleted_reason = if is_blocked m then some by_moderation else none;
  deleted_by = none;
}

-- `ApplyModeration`.
unfoldable pub apply_moderation : ℕ → ModerationStatus → ℕ → Discussion → Option Discussion
unfolding update_comment
apply_moderation id m now s = update_comment (with_moderation m now) id s

-- The columns that `SoftDelete` writes, of a row that is not deleted.
abbrev pub with_deletion : DeleteReason → Option ℕ → ℕ → Comment → Comment
with_deletion reason actor now c =
    if is_some c.deleted_at
    then c
    else record c { deleted_at = some now; deleted_reason = some reason; deleted_by = actor }

-- `SoftDelete`.
unfoldable pub soft_delete : ℕ → DeleteReason → Option ℕ → ℕ → Discussion → Option Discussion
unfolding update_comment
soft_delete id reason actor now s = elim (find_comment id s.comments) [
  | none ↦ none
  | some c ↦
      if is_some c.deleted_at then none else update_comment (with_deletion reason actor now) id s
]

-- `NextHistoryRevision`.
abbrev pub max_revision : ℕ → List CommentHistory → ℕ
max_revision id [] = 0
max_revision id (h ∷ hs) =
    let rest = max_revision id hs in
    if h.comment_id == id && ltb rest h.revision then h.revision else rest

abbrev pub next_history_revision : ℕ → Discussion → ℕ
next_history_revision id s = max_revision id s.histories + 1

-- `CreateHistory`.
abbrev pub create_history : CommentHistory → Discussion → Discussion
create_history h s = record s { histories = s.histories ++ (h ∷ []) }

-- `uniqueSortedIDs` of internal/repository/post_relations.go.
abbrev pub insert_unique_id : ℕ → List ℕ → List ℕ
insert_unique_id n [] = n ∷ []
insert_unique_id n (m ∷ ms) =
    let rest = insert_unique_id n ms in
    if n == m then m ∷ ms else if ltb n m then n ∷ m ∷ ms else m ∷ rest

abbrev pub unique_sorted_ids : List ℕ → List ℕ
unique_sorted_ids [] = []
unique_sorted_ids (n ∷ ns) =
    let rest = unique_sorted_ids ns in if n == 0 then rest else insert_unique_id n rest

-- `ReplaceMentions`.
abbrev pub replace_mentions : ℕ → List ℕ → Discussion → Discussion
replace_mentions id users s = record s {
  mentions =
      filter (λ (m : CommentMention). not (m.comment_id == id)) s.mentions
      ++ map (λ u. record { comment_id = id; user_id = u }) (unique_sorted_ids users);
}

-- `MentionIDs`, of which only the members are asked.
abbrev pub mention_ids : ℕ → Discussion → List ℕ
mention_ids id s =
    map (λ (m : CommentMention). m.user_id)
      (filter (λ (m : CommentMention). m.comment_id == id) s.mentions)

-- `ActiveUsers`, whose order changes no answer.
abbrev pub active_users : List ℕ → Discussion → List User
active_users ids s = filter (λ (u : User). is_in ids u.id && not (is_some u.deleted_at)) s.users

-- `CreateModerationRecord` and `CreateNotifications`.
abbrev pub create_review : CommentReview → Discussion → Discussion
create_review r s = record s { reviews = s.reviews ++ (r ∷ []) }

abbrev pub create_notifications : List Notification → Discussion → Discussion
create_notifications rows s = record s { notifications = s.notifications ++ rows }

-- `Create`: the row has the next key, and no trigger counts it, since it waits for moderation.
abbrev pub create_row : Comment → Discussion → Discussion
create_row c s = record s { comments = s.comments ++ (c ∷ []); next_id = s.next_id + 1 }

-- `Like` and `Unlike` on the table of likes, with the answer whether a row was inserted.
abbrev pub is_like : ℕ → ℕ → CommentLike → Bool
is_like user comment l = l.user_id == user && l.comment_id == comment

abbrev pub insert_like : ℕ → ℕ → Discussion → Bool × Discussion
insert_like user comment s = if any (is_like user comment) s.likes then (false, s) else (
  true,
  record s { likes = s.likes ++ (record { user_id = user; comment_id = comment } ∷ []) },
)

abbrev pub delete_like : ℕ → ℕ → Discussion → Discussion
delete_like user comment s = record s { likes = filter (λ l. not (is_like user comment l)) s.likes }

abbrev pub find_commented : ℕ → List CommentedPost → Option CommentedPost
find_commented id ps = find_first (λ (p : CommentedPost). p.id == id) ps
