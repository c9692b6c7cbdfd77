-- ===== src/Comments/Survival.antt =====
-- What an invariant of comments has to survive, so that it survives every history of requests.
use danshi_backend.Base.{
  ◌==◌, Option-cases, is_some, if_rule, any, is_blank, Result, ok_injective, bind-eq_ok, then-eq_ok,
  ok, err, ℕ, refl, ◌≡◌, ◌++◌, inl, Bool, Option, subst, ◌||◌, inr, List, [], some, ◌&&◌, ◌∷◌, not,
  String,
}
use danshi_backend.Comments.Actions.{
  interactive_comment, like_notification, like, unlike, admin_delete_comment, with_restoration,
  restoration, restore_comment,
}
use danshi_backend.Comments.Counters.{has_passed, find_comment}
use danshi_backend.Comments.Data.{
  DeleteReason, CommentLike, Notification, TextVerdict, CommentReview, Discussion, by_author,
  by_admin,
}
use danshi_backend.Comments.Histories.{
  CommentAction, answer, kept_or, run_actions, write_comment, edit_comment, remove_comment, like_it,
  unlike_it, remove_as_admin, restore_as_admin,
}
use danshi_backend.Comments.Notices.{mention_notifications, create_comment_notifications}
use danshi_backend.Comments.Payload.{
  CommentError, CreateCommentInput, the, require, the-eq_ok, difference_ids,
  normalize_comment_payload, ensure_post_writable, Place, resolve_comment_parent, post_missing,
  post_gone, comment_missing, comment_gone, not_comment_owner, comment_internal, not_restorable,
}
use danshi_backend.Comments.Statements.{
  update_comment, apply_moderation, soft_delete, next_history_revision, mention_ids, create_review,
  is_like, insert_like, delete_like, find_commented,
}
use danshi_backend.Comments.Write.{
  status_of_verdict, review_of, alert_unless_passed, moderate_comment, notify_if_passed,
  new_comment, insert_comment, create_comment, UpdateCommentInput, is_deleted_by_moderation,
  rewrite_comment, update_comment_text, delete_comment,
}
use danshi_backend.Moderation.Data.{ModerationStatus, is_verdict_pass}

-- The statements that change comments and their histories, each in the place where a writer runs it, and
-- the tables that the invariant does not look at.
pub record Survives (P : Discussion → Type 0) : Type 0 where
  pub inserts :
      (s : Discussion) (post_id post_author author : ℕ) (parent_id reply_to : Option ℕ)
      (place : Place) (content : String) (ids : List ℕ) (now : ℕ)
      → resolve_comment_parent post_id post_author parent_id reply_to s ≡ ok place
      → P s
      → P (insert_comment (new_comment s.next_id post_id author parent_id place content now) ids s)
  pub rewrites :
      (id : ℕ) (content : String) (ids : List ℕ) (author now : ℕ) (s s' : Discussion)
      → rewrite_comment id content ids author now s ≡ some s'
      → P s
      → P s'
  pub moderates :
      (id : ℕ) (m : ModerationStatus) (now : ℕ) (s s' : Discussion)
      → apply_moderation id m now s ≡ some s'
      → P s
      → P s'
  pub deletes :
      (id : ℕ) (reason : DeleteReason) (actor : Option ℕ) (now : ℕ) (s s' : Discussion)
      → soft_delete id reason actor now s ≡ some s'
      → P s
      → P s'
  pub restores :
      (id : ℕ) (s s' : Discussion) → update_comment with_restoration id s ≡ some s' → P s → P s'
  pub reviews_free :
      (s : Discussion) (rs : List CommentReview) → P s → P (record s { reviews = rs })
  pub alerts_free : (s : Discussion) (rs : List CommentReview) → P s → P (record s { alerts = rs })
  pub notices_free :
      (s : Discussion) (ns : List Notification) → P s → P (record s { notifications = ns })
  pub likes_free : (s : Discussion) (ls : List CommentLike) → P s → P (record s { likes = ls })

module _ (P : Discussion → Type 0) (k : Survives P) where
  alert_unless_passed_survives :
      (r : CommentReview) (s : Discussion) → P s → P (alert_unless_passed r s)
  alert_unless_passed_survives r s h =
      if_rule P (is_verdict_pass r.result.verdict) (λ _. h)
        (λ _. k.alerts_free s (s.alerts ++ (r ∷ [])) h)

  notify_if_passed_survives :
      (m : ModerationStatus) (rows : List Notification) (s : Discussion)
      → P s
      → P (notify_if_passed m rows s)
  notify_if_passed_survives m rows s h =
      if_rule P (has_passed m) (λ _. k.notices_free s (s.notifications ++ rows) h) (λ _. h)

  moderate_comment_survives :
      (review : String → Option TextVerdict) (id revision : ℕ) (content : String) (now : ℕ)
      (s : Discussion) (judged : ModerationStatus × Discussion)
      → moderate_comment review id revision content now s ≡ ok judged
      → P s
      → P judged.1
  unfolding moderate_comment
  moderate_comment_survives review id revision content now s judged e h =
      elim (Option-cases (review content)) [
        | inl none_given ↦ cc (rw (moderate_comment, none_given) at e)
        | inr (r, given) ↦
            let (named, e1) =
              then-eq_ok (require (not (is_blank r.provider)) comment_internal) _
                (rw (moderate_comment, given) at e) in
            elim (Option-cases (status_of_verdict r.verdict)) [
              | inl unknown_one ↦ cc (rw unknown_one at e1)
              | inr (m, status) ↦
                  let tables =
                    alert_unless_passed (review_of id revision r now)
                      (create_review (review_of id revision r now) s) in
                  elim (Option-cases (apply_moderation id m now tables)) [
                    | inl miss ↦ cc (rw (status, miss) at e1)
                    | inr (s', done_it) ↦
                        let same : (m, s') ≡ judged = cc (rw (status, done_it) at e1) in
                        subst (λ (j : ModerationStatus × Discussion). P j.1) same
                          (k.moderates id m now tables s' done_it (
                            alert_unless_passed_survives (review_of id revision r now)
                              (create_review (review_of id revision r now) s)
                              (k.reviews_free s (s.reviews ++ (review_of id revision r now ∷ []))
                                h)))
                  ]
            ]
      ]

  create_comment_survives :
      (review : String → Option TextVerdict) (post_id : ℕ) (input : CreateCommentInput)
      (author now later : ℕ) (s s' : Discussion)
      → create_comment review post_id input author now later s ≡ ok s'
      → P s
      → P s'
  unfolding create_comment
  create_comment_survives review post_id input author now later s s' e h =
      let (payload, fine, e1) =
        bind-eq_ok (normalize_comment_payload input.content input.mentioned_user_ids s) _ e in
      let (post, there, e2) = bind-eq_ok (the (find_commented post_id s.posts) post_missing) _ e1 in
      let (writable, e3) = then-eq_ok (ensure_post_writable post) _ e2 in
      let (place, stands, e4) =
        bind-eq_ok
          (resolve_comment_parent post_id post.author_id input.parent_id input.reply_to_user_id s) _
          e3 in
      let c = new_comment s.next_id post_id author input.parent_id place payload.0 now in
      let (judged, reviewed_it, e5) =
        bind-eq_ok (moderate_comment review c.id 1 payload.0 later (insert_comment c payload.1 s)) _
          e4 in
      let notices = create_comment_notifications c place.parent post.author_id payload.1 in
      let left : notify_if_passed judged.0 notices judged.1 ≡ s' = ok_injective e5 in
      let inserted : P (insert_comment c payload.1 s) =
        k.inserts s post_id post.author_id author input.parent_id input.reply_to_user_id place
          payload.0 payload.1 now stands h in
      subst P left (
        notify_if_passed_survives judged.0 notices judged.1 (
          moderate_comment_survives review c.id 1 payload.0 later (insert_comment c payload.1 s)
            judged reviewed_it inserted))

  update_comment_text_survives :
      (review : String → Option TextVerdict) (id : ℕ) (input : UpdateCommentInput)
      (author now later : ℕ) (s s' : Discussion)
      → update_comment_text review id input author now later s ≡ ok s'
      → P s
      → P s'
  unfolding update_comment_text
  update_comment_text_survives review id input author now later s s' e h =
      let (payload, fine, e1) =
        bind-eq_ok (normalize_comment_payload input.content input.mentioned_user_ids s) _ e in
      let (c, there, e2) = bind-eq_ok (the (find_comment id s.comments) comment_missing) _ e1 in
      let (own, e3) = then-eq_ok (require (c.author_id == author) not_comment_owner) _ e2 in
      let (present, e4) =
        then-eq_ok
          (require (not (is_some c.deleted_at) || is_deleted_by_moderation c.deleted_reason)
            comment_gone)
          _ e3 in
      let (post, on_post, e5) =
        bind-eq_ok (the (find_commented c.post_id s.posts) post_missing) _ e4 in
      let (open_post, e6) = then-eq_ok (require (not (is_some post.deleted_at)) post_gone) _ e5 in
      let (s1, written, e7) =
        bind-eq_ok (the (rewrite_comment id payload.0 payload.1 author now s) comment_missing) _
          e6 in
      let (judged, reviewed_it, e8) =
        bind-eq_ok (moderate_comment review id (next_history_revision id s) payload.0 later s1) _
          e7 in
      let notices =
        mention_notifications id author payload.0 (difference_ids payload.1 (mention_ids id s)) in
      let left : notify_if_passed judged.0 notices judged.1 ≡ s' = ok_injective e8 in
      subst P left (
        notify_if_passed_survives judged.0 notices judged.1 (
          moderate_comment_survives review id (next_history_revision id s) payload.0 later s1 judged
            reviewed_it
            (k.rewrites id payload.0 payload.1 author now s s1
              (the-eq_ok (rewrite_comment id payload.0 payload.1 author now s) comment_missing
                written)
              h)))

  delete_comment_survives :
      (id author now : ℕ) (s s' : Discussion) → delete_comment id author now s ≡ ok s' → P s → P s'
  unfolding delete_comment
  delete_comment_survives id author now s s' e h =
      let (c, there, e1) = bind-eq_ok (the (find_comment id s.comments) comment_missing) _ e in
      let (present, e2) = then-eq_ok (require (not (is_some c.deleted_at)) comment_gone) _ e1 in
      let (own, e3) = then-eq_ok (require (c.author_id == author) not_comment_owner) _ e2 in
      let (post, on_post, e4) =
        bind-eq_ok (the (find_commented c.post_id s.posts) post_missing) _ e3 in
      let (open_post, e5) = then-eq_ok (require (not (is_some post.deleted_at)) post_gone) _ e4 in
      k.deletes id by_author (some author) now s s'
        (the-eq_ok (soft_delete id by_author (some author) now s) comment_missing e5) h

  admin_delete_comment_survives :
      (id actor now : ℕ) (s s' : Discussion)
      → admin_delete_comment id actor now s ≡ ok s'
      → P s
      → P s'
  unfolding admin_delete_comment
  admin_delete_comment_survives id actor now s s' e h =
      let (c, there, e1) = bind-eq_ok (the (find_comment id s.comments) comment_missing) _ e in
      let (present, e2) = then-eq_ok (require (not (is_some c.deleted_at)) comment_gone) _ e1 in
      k.deletes id by_admin (some actor) now s s'
        (the-eq_ok (soft_delete id by_admin (some actor) now s) comment_missing e2) h

  restore_comment_survives :
      (id now : ℕ) (s s' : Discussion) → restore_comment id now s ≡ ok s' → P s → P s'
  unfolding restore_comment
  restore_comment_survives id now s s' e h =
      let (c, there, e1) = bind-eq_ok (the (find_comment id s.comments) comment_missing) _ e in
      let (removed, e2) =
        then-eq_ok
          (require (is_some c.deleted_at && is_deleted_by_moderation c.deleted_reason)
            not_restorable)
          _ e1 in
      let noted = create_review (review_of id c.current_revision restoration now) s in
      k.restores id noted s'
        (the-eq_ok (update_comment with_restoration id noted) comment_missing e2)
        (k.reviews_free s (s.reviews ++ (review_of id c.current_revision restoration now ∷ [])) h)

  insert_like_survives : (user id : ℕ) (s : Discussion) → P s → P (insert_like user id s).1
  insert_like_survives user id s h =
      if_rule (λ (p : Bool × Discussion). P p.1) (any (is_like user id) s.likes) (λ _. h)
        (λ _. k.likes_free s (s.likes ++ (record { user_id = user; comment_id = id } ∷ [])) h)

  like_survives : (id user : ℕ) (s s' : Discussion) → like id user s ≡ ok s' → P s → P s'
  unfolding like
  like_survives id user s s' e h =
      let (c, shown, e1) = bind-eq_ok (interactive_comment id s) _ e in
      let liked = insert_like user id s in
      subst P (ok_injective e1) (
        if_rule P (liked.0 && not (c.author_id == user))
          (λ _.
            k.notices_free liked.1 (liked.1.notifications ++ (like_notification c user ∷ []))
              (insert_like_survives user id s h))
          (λ _. insert_like_survives user id s h))

  unlike_survives : (id user : ℕ) (s s' : Discussion) → unlike id user s ≡ ok s' → P s → P s'
  unfolding unlike
  unlike_survives id user s s' e h =
      let (c, shown, e1) = bind-eq_ok (interactive_comment id s) _ e in
      subst P (ok_injective e1) (k.likes_free s (delete_like user id s).likes h)

  answer_survives : (a : CommentAction) (s s' : Discussion) → answer a s ≡ ok s' → P s → P s'
  answer_survives (write_comment review post_id input author now_t later) s s' e h =
      create_comment_survives review post_id input author now_t later s s' e h
  answer_survives (edit_comment review comment input author now_t later) s s' e h =
      update_comment_text_survives review comment input author now_t later s s' e h
  answer_survives (remove_comment comment author now_t) s s' e h =
      delete_comment_survives comment author now_t s s' e h
  answer_survives (like_it comment user) s s' e h = like_survives comment user s s' e h
  answer_survives (unlike_it comment user) s s' e h = unlike_survives comment user s s' e h
  answer_survives (remove_as_admin comment actor now_t) s s' e h =
      admin_delete_comment_survives comment actor now_t s s' e h
  answer_survives (restore_as_admin comment now_t) s s' e h =
      restore_comment_survives comment now_t s s' e h

  kept_or_survives :
      (s : Discussion) (r : Result CommentError Discussion)
      → P s
      → ((s' : Discussion) → r ≡ ok s' → P s')
      → P (kept_or s r)
  kept_or_survives s (ok s') h f = f s' refl
  kept_or_survives s (err e) h f = h

  pub run_actions_survives :
      (as' : List CommentAction) (s : Discussion) → P s → P (run_actions as' s)
  run_actions_survives [] s h = h
  run_actions_survives (a ∷ as') s h =
      run_actions_survives as' (kept_or s (answer a s))
        (kept_or_survives s (answer a s) h (λ s' e. answer_survives a s s' e h))
