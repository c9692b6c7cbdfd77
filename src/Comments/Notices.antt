-- ===== src/Comments/Notices.antt =====
-- The notifications of a comment: internal/service/comment_write.go.
use danshi_backend.Base.{
  ◌==◌, if◌then◌else◌, or_else, filter, ◌++◌, List, some, [], Option, ◌∷◌, not, ℕ, none, String,
  map,
}
use danshi_backend.Accounts.Validation.{take_chars}
use danshi_backend.Comments.Data.{
  Comment, Notification, comment_notice, reply_notice, mention_notice,
}

-- `commentPreview`.
abbrev pub comment_preview : String → String
comment_preview content = take_chars 100 content

abbrev pub mention_notification : ℕ → ℕ → String → ℕ → Notification
mention_notification id author content user = record {
  recipient_id = user;
  sender_id = author;
  type = mention_notice;
  related_post_id = none;
  related_comment_id = some id;
  content = some (comment_preview content);
}

-- `mentionNotifications`.
abbrev pub mention_notifications : ℕ → ℕ → String → List ℕ → List Notification
mention_notifications id author content ids =
    map (mention_notification id author content) (filter (λ n. not (n == author)) ids)

-- The notification of a comment's or a reply's receiver, unless it is the author.
abbrev pub reply_notifications : Comment → Option Comment → ℕ → List Notification
reply_notifications c none post_author =
    if post_author == c.author_id
    then []
    else record {
      recipient_id = post_author;
      sender_id = c.author_id;
      type = comment_notice;
      related_post_id = some c.post_id;
      related_comment_id = none;
      content = some (comment_preview c.content);
    }
      ∷ []
reply_notifications c (some parent) post_author =
    if parent.author_id == c.author_id
    then []
    else record {
      recipient_id = parent.author_id;
      sender_id = c.author_id;
      type = reply_notice;
      related_post_id = none;
      related_comment_id = some (or_else c.root_id parent.id);
      content = some (comment_preview c.content);
    }
      ∷ []

-- `createCommentNotifications`.
abbrev pub create_comment_notifications : Comment → Option Comment → ℕ → List ℕ → List Notification
create_comment_notifications c parent post_author ids =
    reply_notifications c parent post_author ++ mention_notifications c.id c.author_id c.content ids
