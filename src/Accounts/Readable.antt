-- ===== src/Accounts/Readable.antt =====
-- One-time codes in histories of internal/service/auth.go, internal/service/admin_users.go,
-- internal/service/user.go and the delivery worker.
use danshi_backend.Base.{
  ltb, leb, ◌==◌, Bool-cases, Option-cases, if_rule, Result, update_rows, count_rows,
  All-update_rows, ℕ, refl, ◌≡◌, Option, inl, false, true, List, ◌+◌, Bool, none, ◌||◌, inr, ◌∷◌,
  String, some, [],
}
use danshi_backend.Access.Authz.{UserRole}
use danshi_backend.Accounts.Administration.{
  StatusInput, update_user_ban, update_user_status, update_user_role,
}
use danshi_backend.Accounts.Auth.{
  Client, RegisterInput, issue_session, first_look, login, refresh_tokens, authenticate,
  revoke_session, logout, kick_session, logout_all,
}
use danshi_backend.Accounts.Codes.{drop_code}
use danshi_backend.Accounts.Data.{User, EmailVerificationCode, EmailDelivery, RoleAction, Accounts}
use danshi_backend.Accounts.Deliveries.{
  DeliveryOptions, delivery_candidates, leased_delivery, is_among_deliveries, claim_deliveries,
  clear_invalid_codes,
}
use danshi_backend.Accounts.Externals.{Externals, Config}
use danshi_backend.Accounts.Guards.{is_guarded, IsSecret}
use danshi_backend.Accounts.History.{
  set_status, Operation, Operations, claimed_tables, perform, perform_all, send_code, send_reset,
  sign_up, log_in, renew, visit, log_out, kick, log_out_all, reset, close, set_role, clear_codes,
  claim_codes, deliver, stop, then_do,
}
use danshi_backend.Accounts.Register.{
  create_user, claims_name, claim_username, register, reset_password, delete_user,
}
use danshi_backend.Accounts.Requests.{
  AccountError, Request, write, after, Keeps, check-Keeps, write-Keeps, after-Keeps, keeps_rules,
  username_taken, unauthorized, session_not_found,
}
use danshi_backend.Accounts.Secrecy.{
  send_verification_code-IsSecret, send_password_reset_code-IsSecret, consume_verification-IsSecret,
}
use danshi_backend.Accounts.Sending.{
  is_leased_to, refresh_claim, is_current, canceled, after_sending, decide_delivery,
  settle_delivery,
}
use danshi_backend.Accounts.Sessions.{
  create_session, set_refresh_digest, touch, is_revocable, revoke, revoke_all, run_touches, handled,
}

-- The requests that leave codes and deliveries alone, or only consume a code.
module _ (x : Externals) (cfg : Config) where
  issue_session-IsSecret :
      (u : User) (client : Client) (now : ℕ) → Keeps IsSecret (issue_session x cfg u client now)
  unfolding issue_session create_session set_refresh_digest
  issue_session-IsSecret u client now = search keeps_rules depth 30

  login-IsSecret :
      (first : Result AccountError User) (identifier password : String) (client : Client)
      (now later : ℕ)
      → Keeps IsSecret (login x cfg first identifier password client now later)
  unfolding login
  login-IsSecret first identifier password client now later =
      search (keeps_rules, issue_session-IsSecret) depth 30

  claims_name-IsSecret :
      (user : ℕ) (name : String) (owner : Option ℕ)
      → Keeps IsSecret (claims_name x cfg user name owner)
  claims_name-IsSecret user name none = write-Keeps (λ s h. h)
  claims_name-IsSecret user name (some other) = check-Keeps (other == user) username_taken

  register-IsSecret :
      (review : String → Option Bool) (input : RegisterInput) (client : Client) (now later : ℕ)
      → Keeps IsSecret (register x cfg review input client now later)
  unfolding register create_user claim_username
  register-IsSecret review input client now later =
      search
        (keeps_rules, issue_session-IsSecret, consume_verification-IsSecret, claims_name-IsSecret)
        depth 40

  reset_password-IsSecret :
      (raw code password : String) (now later : ℕ)
      → Keeps IsSecret (reset_password x cfg raw code password now later)
  unfolding reset_password revoke_all
  reset_password-IsSecret raw code password now later =
      search (keeps_rules, consume_verification-IsSecret) depth 30

  refresh_tokens-IsSecret :
      (token : String) (now : ℕ) → Keeps IsSecret (refresh_tokens x cfg token now)
  unfolding refresh_tokens
  refresh_tokens-IsSecret token now = search keeps_rules depth 30

  authenticate-IsSecret : (token : String) (now : ℕ) → Keeps IsSecret (authenticate x cfg token now)
  unfolding authenticate
  authenticate-IsSecret token now = search keeps_rules depth 30

revoke_session-IsSecret :
    (user id now : ℕ) (e : AccountError) → Keeps IsSecret (revoke_session user id now e)
unfolding revoke_session revoke
revoke_session-IsSecret user id now e = record {
  keeps = λ s h. elim (Bool-cases (count_rows (is_revocable user id now) s.sessions == 0)) [
    | inl absent ↦ rw absent h
    | inr there ↦ rw there h
  ];
}

delete_user-IsSecret : (user actor now : ℕ) → Keeps IsSecret (delete_user user actor now)
unfolding delete_user revoke_all
delete_user-IsSecret user actor now = search keeps_rules depth 30

update_user_status-IsSecret :
    (user actor : ℕ) (input : StatusInput) (now : ℕ)
    → Keeps IsSecret (update_user_status user actor input now)
unfolding update_user_status update_user_ban revoke_all
update_user_status-IsSecret user actor input now = search keeps_rules depth 30

update_user_role-IsSecret :
    (user actor : ℕ) (role : UserRole) (action : RoleAction)
    → Keeps IsSecret (update_user_role user actor role action)
unfolding update_user_role
update_user_role-IsSecret user actor role action = search keeps_rules depth 30

-- The worker's statements: an update of deliveries that keeps the guard of each.
IsSecret-update_rows :
    (p : EmailDelivery → Bool) (u : EmailDelivery → EmailDelivery) (s : Accounts)
    → ((d : EmailDelivery) → is_guarded s.codes d ≡ true → is_guarded s.codes (u d) ≡ true)
    → IsSecret s
    → IsSecret (record s { deliveries = update_rows p u s.deliveries })
IsSecret-update_rows p u s k h =
    All-update_rows (λ d. is_guarded s.codes d ≡ true) (λ d. is_guarded s.codes d ≡ true) p u
      s.deliveries (λ d g e. k d g) (λ d g e. g) h

after_sending-is_guarded :
    (o : DeliveryOptions) (claim : EmailDelivery) (now : ℕ) (answer : Bool)
    (codes : List EmailVerificationCode) (d : EmailDelivery)
    → is_guarded codes d ≡ true
    → is_guarded codes (after_sending o claim now answer d) ≡ true
after_sending-is_guarded o claim now true codes d g = g
after_sending-is_guarded o claim now false codes d g =
    if_rule (λ (u : EmailDelivery → EmailDelivery). is_guarded codes (u d) ≡ true)
      (leb o.max_attempts (claim.attempts + 1)) (λ _. refl) (λ _. g)

clear_invalid_codes-IsSecret :
    (chosen : EmailDelivery → Bool) (now : ℕ) (s : Accounts)
    → IsSecret s
    → IsSecret (clear_invalid_codes chosen now s)
unfolding clear_invalid_codes
clear_invalid_codes-IsSecret chosen now s h = IsSecret-update_rows _ drop_code s (λ d g. refl) h

claim_deliveries-IsSecret :
    (locked : ℕ → Bool) (now until : ℕ) (token : String) (limit : ℕ) (s : Accounts)
    → IsSecret s
    → IsSecret (claimed_tables (claim_deliveries locked now until token limit s) s)
unfolding claim_deliveries
claim_deliveries-IsSecret locked now until token limit s h =
    elim (Bool-cases (limit == 0 || ltb 1000 limit)) [
      | inl out ↦ rw out h
      | inr fits ↦ rw fits (
          IsSecret-update_rows
            (is_among_deliveries (delivery_candidates locked now limit s.deliveries))
            (leased_delivery until token now) s (λ d g. g) h)
    ]

settle_delivery-IsSecret :
    (x : Externals) (o : DeliveryOptions) (answer : Bool) (claim : EmailDelivery) (now : ℕ)
    (before s : Accounts)
    → IsSecret s
    → IsSecret (settle_delivery (decide_delivery x o answer claim now before) s)
unfolding settle_delivery decide_delivery
settle_delivery-IsSecret x o answer claim now before s h =
    elim (Option-cases (refresh_claim claim now before)) [
      | inl e ↦ rw e h
      | inr (current, e) ↦ rw e (
          if_rule
            (λ (u : EmailDelivery → EmailDelivery).
              IsSecret
                (record s { deliveries = update_rows (is_leased_to current) u s.deliveries }))
            (is_current x now before current)
            (λ _.
              IsSecret-update_rows (is_leased_to current) (after_sending o current now answer) s
                (after_sending-is_guarded o current now answer s.codes) h)
            (λ _. IsSecret-update_rows (is_leased_to current) (canceled now) s (λ d g. refl) h))
    ]

run_touches-IsSecret : (ts : List (ℕ × ℕ)) (s : Accounts) → IsSecret s → IsSecret (run_touches ts s)
unfolding touch
run_touches-IsSecret [] s h = h
run_touches-IsSecret ((i, now) ∷ ts) s h = run_touches-IsSecret ts (touch i now s) h

module _ (x : Externals) (cfg : Config) (o : DeliveryOptions) where
  handled-IsSecret :
      {A : Type 0} (m : Request A) (s : Accounts)
      → Keeps IsSecret m
      → IsSecret s
      → IsSecret (handled m s)
  handled-IsSecret m s k h =
      run_touches-IsSecret (after m s).touches (after m s) (after-Keeps m s k h)

  mutual
    unfolding perform perform_all logout kick_session logout_all revoke_all

    perform_keeps_IsSecret :
        (op : Operation) (s : Accounts) → IsSecret s → IsSecret (perform x cfg o op s)
    perform_keeps_IsSecret (send_code raw drawn now_t) s h =
        handled-IsSecret _ s (send_verification_code-IsSecret x cfg raw drawn now_t) h
    perform_keeps_IsSecret (send_reset raw drawn now_t) s h =
        handled-IsSecret _ s (send_password_reset_code-IsSecret x cfg raw drawn now_t) h
    perform_keeps_IsSecret (sign_up review input client now_t later) s h =
        handled-IsSecret _ s (register-IsSecret x cfg review input client now_t later) h
    perform_keeps_IsSecret (log_in between identifier password client now_t later) s h =
        handled-IsSecret _ (perform_all x cfg o between s)
          (login-IsSecret x cfg (first_look x cfg identifier password s) identifier password client
            now_t later)
          (performs_keep_IsSecret between s h)
    perform_keeps_IsSecret (renew token now_t) s h =
        handled-IsSecret _ s (refresh_tokens-IsSecret x cfg token now_t) h
    perform_keeps_IsSecret (visit token now_t) s h =
        handled-IsSecret _ s (authenticate-IsSecret x cfg token now_t) h
    perform_keeps_IsSecret (log_out p now_t) s h =
        handled-IsSecret _ s (revoke_session-IsSecret p.user.id p.session now_t unauthorized) h
    perform_keeps_IsSecret (kick p i now_t) s h =
        handled-IsSecret _ s (revoke_session-IsSecret p.user.id i now_t session_not_found) h
    perform_keeps_IsSecret (log_out_all p now_t) s h =
        handled-IsSecret (write (revoke_all p.user.id now_t)) s (write-Keeps (λ t k. k)) h
    perform_keeps_IsSecret (reset raw code password now_t later) s h =
        handled-IsSecret _ s (reset_password-IsSecret x cfg raw code password now_t later) h
    perform_keeps_IsSecret (close user_id actor_id now_t) s h =
        handled-IsSecret _ s (delete_user-IsSecret user_id actor_id now_t) h
    perform_keeps_IsSecret (set_status user_id actor input now_t) s h =
        handled-IsSecret _ s (update_user_status-IsSecret user_id actor input now_t) h
    perform_keeps_IsSecret (set_role user_id actor role action) s h =
        handled-IsSecret _ s (update_user_role-IsSecret user_id actor role action) h
    perform_keeps_IsSecret (clear_codes chosen now_t) s h =
        clear_invalid_codes-IsSecret chosen now_t s h
    perform_keeps_IsSecret (claim_codes locked now_t until token limit) s h =
        claim_deliveries-IsSecret locked now_t until token limit s h
    perform_keeps_IsSecret (deliver between answer claim now_t) s h =
        settle_delivery-IsSecret x o answer claim now_t s (perform_all x cfg o between s)
          (performs_keep_IsSecret between s h)

    performs_keep_IsSecret :
        (ops : Operations) (s : Accounts) → IsSecret s → IsSecret (perform_all x cfg o ops s)
    performs_keep_IsSecret stop s h = h
    performs_keep_IsSecret (then_do op ops) s h =
        performs_keep_IsSecret ops (perform x cfg o op s) (perform_keeps_IsSecret op s h)

  -- Through every history of requests, logins among them that others interrupt, and of the delivery
  -- worker's transactions, a delivery that still has its code belongs to a challenge with that code's
  -- digest, unused and with tries left: every other delivery has lost its code.
  pub perform_all-IsSecret :
      (ops : Operations) (s : Accounts) → IsSecret s → IsSecret (perform_all x cfg o ops s)
  perform_all-IsSecret ops s h = performs_keep_IsSecret ops s h
