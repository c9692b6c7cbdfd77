-- ===== src/Comments/Tests.antt =====
-- Comments at concrete inputs.
use danshi_backend.Base.{take, List, none, false, ◌∷◌, ◌≡◌, map, refl, ℕ, String, some, Option, []}
use danshi_backend.Accounts.Data.{User}
use danshi_backend.Comments.Actions.{admin_delete_comment}
use danshi_backend.Comments.Archive.{run_actions-IsRecorded}
use danshi_backend.Comments.Counted.{IsCounted}
use danshi_backend.Comments.Data.{
  Comment, CommentHistory, Notification, CommentedPost, TextVerdict, Discussion,
}
use danshi_backend.Comments.Histories.{
  CommentAction, run_actions, write_comment, edit_comment, remove_comment, remove_as_admin,
}
use danshi_backend.Comments.Payload.{CreateCommentInput}
use danshi_backend.Comments.Statements.{update_content, apply_moderation}
use danshi_backend.Comments.Upheld.{run_actions-IsCounted}
use danshi_backend.Comments.Versions.{IsRecorded}
use danshi_backend.Comments.Write.{create_comment, update_comment_text, delete_comment}
use danshi_backend.Moderation.Data.{verdict_pass, moderation_pass, approved}

abbrev author1 : User
author1 = record {
  id = 1;
  email = "a@b.cn";
  password_hash = "";
  username = "ann";
  gender = none;
  ban_is_permanent = false;
  banned_until = none;
  ban_reason = none;
  banned_by = none;
  deleted_at = none;
}

abbrev post5 : CommentedPost
post5 = record { id = 5; author_id = 1; status = approved; deleted_at = none; comment_count = 2 }

abbrev comment10 : Comment
comment10 = record {
  id = 10;
  post_id = 5;
  author_id = 1;
  parent_id = none;
  root_id = none;
  reply_to_user_id = 1;
  content = "first";
  current_revision = 1;
  moderation = moderation_pass;
  reply_count = 1;
  deleted_at = none;
  deleted_reason = none;
  deleted_by = none;
  created_at = 100;
  updated_at = 100;
}

abbrev comment11 : Comment
comment11 = record comment10 {
  id = 11;
  author_id = 2;
  parent_id = some 10;
  root_id = some 10;
  content = "second";
  reply_count = 0;
}

abbrev first_version : ℕ → ℕ → String → CommentHistory
first_version comment author content = record {
  comment_id = comment;
  revision = 1;
  edited_by = author;
  edited_at = 100;
  content = content;
}

abbrev discussion : Discussion
discussion = record {
  posts = post5 ∷ [];
  users = author1 ∷ [];
  comments = comment10 ∷ comment11 ∷ [];
  mentions = [];
  likes = [];
  histories = first_version 10 1 "first" ∷ first_version 11 2 "second" ∷ [];
  reviews = [];
  notifications = [];
  alerts = [];
  next_id = 12;
}

abbrev lets_pass : String → Option TextVerdict
lets_pass content =
    some
      (record { provider = "machine"; provider_job_id = none; verdict = verdict_pass; labels = [] })

abbrev reply_to_second : CreateCommentInput
reply_to_second = record {
  content = " third, @ann ";
  parent_id = some 11;
  reply_to_user_id = none;
  mentioned_user_ids = 1 ∷ 1 ∷ [];
}

abbrev three_requests : List CommentAction
three_requests =
    write_comment lets_pass 5 reply_to_second 3 200 201
    ∷ remove_comment 11 2 300
    ∷ remove_as_admin 10 9 400
    ∷ []

abbrev comment_counts : List CommentAction → List ℕ
comment_counts as' = map (λ (p : CommentedPost). p.comment_count) (run_actions as' discussion).posts

abbrev recipients : List CommentAction → List ℕ
recipients as' =
    map (λ (n : Notification). n.recipient_id) (run_actions as' discussion).notifications

-- A reply to a reply stands on the same floor; the floor goes with its root.
written_then_removed :
    (comment_counts (take 1 three_requests) ≡ 3 ∷ [])
    × (comment_counts (take 2 three_requests) ≡ 2 ∷ [])
    × (comment_counts three_requests ≡ 0 ∷ [])
unfolding create_comment delete_comment admin_delete_comment apply_moderation
written_then_removed = (refl, refl, refl)

-- The author of the parent and the mentioned user are told.
two_are_told : recipients three_requests ≡ 2 ∷ 1 ∷ []
unfolding create_comment delete_comment admin_delete_comment apply_moderation
two_are_told = refl

discussion-IsCounted : IsCounted discussion
discussion-IsCounted = record {
  keys = ((refl, tt), (tt, tt));
  known = (refl, (refl, tt));
  places = (refl, (refl, tt));
  replies = (refl, (refl, tt));
  posts = (refl, tt);
}

run_actions-IsCounted_example : IsCounted (run_actions three_requests discussion)
run_actions-IsCounted_example = run_actions-IsCounted three_requests discussion discussion-IsCounted

-- An edit adds a version.
abbrev an_edit : List CommentAction
an_edit =
    edit_comment lets_pass 11 (record { content = "edited"; mentioned_user_ids = [] }) 2 200 201
    ∷ []

second_version :
    map (λ (h : CommentHistory). h.revision) (run_actions an_edit discussion).histories
    ≡ 1 ∷ 1 ∷ 2 ∷ []
unfolding update_comment_text update_content apply_moderation
second_version = refl

discussion-IsRecorded : IsRecorded discussion
discussion-IsRecorded = record {
  known = (refl, (refl, tt));
  known_histories = (refl, (refl, tt));
  versions = (refl, (refl, tt));
}

run_actions-IsRecorded_example : IsRecorded (run_actions an_edit discussion)
run_actions-IsRecorded_example = run_actions-IsRecorded an_edit discussion discussion-IsRecorded
