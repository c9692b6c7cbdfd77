-- ===== src/Accounts/Revocation.antt =====
-- A session that is revoked, and what internal/service/auth.go, internal/service/user.go and
-- internal/service/admin_users.go do afterwards.
use danshi_backend.Base.{
  ◌==◌, Bool-cases, Option-cases, is_some, if_rule, Result, ok, err, find_first, update_rows,
  count_rows, find_first-update_rows, find_first-append, ap, ℕ, refl, ◌≡◌, Option, inl, false, true,
  List, Bool, none, inr, ◌∷◌, String, some, [],
}
use danshi_backend.Access.Authz.{UserRole}
use danshi_backend.Accounts.Administration.{
  StatusInput, update_user_ban, update_user_status, update_user_role,
}
use danshi_backend.Accounts.Auth.{
  Client, RegisterInput, issue_session, login, refresh_tokens, authenticate, revoke_session,
}
use danshi_backend.Accounts.Codes.{
  save_state, is_challenge, insert_challenge, lock_or_create, consume_verification,
}
use danshi_backend.Accounts.Data.{
  VerificationPurpose, User, EmailVerificationCode, UserSession, RoleAction, Accounts,
}
use danshi_backend.Accounts.Externals.{Externals, Config}
use danshi_backend.Accounts.Register.{
  create_user, claims_name, claim_username, register, reset_password, delete_user,
}
use danshi_backend.Accounts.Requests.{
  AccountError, Keeps, done-Keeps, check-Keeps, write-Keeps, keeps_rules, username_taken,
}
use danshi_backend.Accounts.Senders.{
  enqueue_email, Drawn, renew_registration, send_verification_code, sends_reset, renew_reset,
  send_password_reset_code,
}
use danshi_backend.Accounts.Sessions.{
  find_session, create_session, set_refresh_digest, touch, revoked, is_revocable, revoke,
  revoke_all, run_touches,
}

-- The session of this identity is there, and revoked.
abbrev pub IsRevoked : ℕ → Accounts → Type 0
IsRevoked id s = elim (find_session id s) [ none ↦ false | some r ↦ is_some r.revoked_at ] ≡ true

module _ (id : ℕ) where
  IsRevoked-update_rows :
      (s : Accounts) (p : UserSession → Bool) (u : UserSession → UserSession)
      → ((r : UserSession) → (u r).id ≡ r.id)
      → ((r : UserSession) → is_some r.revoked_at ≡ true → is_some (u r).revoked_at ≡ true)
      → IsRevoked id s
      → IsRevoked id (record s { sessions = update_rows p u s.sessions })
  IsRevoked-update_rows s p u same stays h =
      let moved =
        find_first-update_rows (λ (r : UserSession). r.id == id) p u s.sessions
          (λ r. ap (λ i. i == id) (same r)) in
      elim (Option-cases (find_session id s)) [
        | inl e ↦ cc (rw e at h)
        | inr (r, e) ↦
            rw (moved, e)
              (let was : is_some r.revoked_at ≡ true = rw e at h in
                if_rule (λ (q : UserSession). is_some q.revoked_at ≡ true) (p r) (λ _. stays r was)
                  (λ _. was))
      ]

  create_session-IsRevoked :
      (r : UserSession) (s : Accounts) → IsRevoked id s → IsRevoked id (create_session r s)
  unfolding create_session
  create_session-IsRevoked r s h =
      let moved = find_first-append (λ (q : UserSession). q.id == id) s.sessions (r ∷ []) in
      elim (Option-cases (find_session id s)) [
        | inl e ↦ cc (rw e at h)
        | inr (q, e) ↦ rw (moved, e) (rw e at h)
      ]

  touch-IsRevoked : (i now : ℕ) (s : Accounts) → IsRevoked id s → IsRevoked id (touch i now s)
  unfolding touch
  touch-IsRevoked i now s h = IsRevoked-update_rows s _ _ (λ r. refl) (λ r k. k) h

  set_refresh_digest-IsRevoked :
      (i : ℕ) (digest : String) (s : Accounts)
      → IsRevoked id s
      → IsRevoked id (set_refresh_digest i digest s)
  unfolding set_refresh_digest
  set_refresh_digest-IsRevoked i digest s h = IsRevoked-update_rows s _ _ (λ r. refl) (λ r k. k) h

  pub revoke_all-IsRevoked :
      (user now : ℕ) (s : Accounts) → IsRevoked id s → IsRevoked id (revoke_all user now s)
  unfolding revoke_all
  revoke_all-IsRevoked user now s h =
      IsRevoked-update_rows s _ (revoked now) (λ r. refl) (λ r k. refl) h

  pub revoke-IsRevoked :
      (user i now : ℕ) (e : AccountError) → Keeps (IsRevoked id) (revoke_session user i now e)
  unfolding revoke_session revoke
  revoke-IsRevoked user i now e = record {
    keeps = λ s h. elim (Bool-cases (count_rows (is_revocable user i now) s.sessions == 0)) [
      | inl absent ↦ rw absent h
      | inr there ↦ rw there (
          IsRevoked-update_rows s (is_revocable user i now) (revoked now) (λ r. refl) (λ r k. refl)
            h)
    ];
  }

  pub run_touches-IsRevoked :
      (ts : List (ℕ × ℕ)) (s : Accounts) → IsRevoked id s → IsRevoked id (run_touches ts s)
  run_touches-IsRevoked [] s h = h
  run_touches-IsRevoked ((i, now) ∷ ts) s h =
      run_touches-IsRevoked ts (touch i now s) (touch-IsRevoked i now s h)

  module _ (x : Externals) (cfg : Config) where
    issue_session-Keeps :
        (u : User) (client : Client) (now : ℕ)
        → Keeps (IsRevoked id) (issue_session x cfg u client now)
    unfolding issue_session
    issue_session-Keeps u client now =
        search (keeps_rules, create_session-IsRevoked, set_refresh_digest-IsRevoked) depth 30

    pub login-Keeps :
        (first : Result AccountError User) (identifier password : String) (client : Client)
        (now later : ℕ)
        → Keeps (IsRevoked id) (login x cfg first identifier password client now later)
    unfolding login
    login-Keeps first identifier password client now later =
        search (keeps_rules, issue_session-Keeps) depth 30

    consume_verification-Keeps :
        (purpose : VerificationPurpose) (email code : String) (now : ℕ)
        → Keeps (IsRevoked id) (consume_verification x purpose email code now)
    unfolding consume_verification save_state
    consume_verification-Keeps purpose email code now = search keeps_rules depth 30

    claims_name-Keeps :
        (user : ℕ) (name : String) (owner : Option ℕ)
        → Keeps (IsRevoked id) (claims_name x cfg user name owner)
    claims_name-Keeps user name none = write-Keeps (λ s h. h)
    claims_name-Keeps user name (some other) = check-Keeps (other == user) username_taken

    pub register-Keeps :
        (review : String → Option Bool) (input : RegisterInput) (client : Client) (now later : ℕ)
        → Keeps (IsRevoked id) (register x cfg review input client now later)
    unfolding register create_user claim_username
    register-Keeps review input client now later =
        search (keeps_rules, issue_session-Keeps, consume_verification-Keeps, claims_name-Keeps)
          depth 40

    pub reset_password-Keeps :
        (raw code password : String) (now later : ℕ)
        → Keeps (IsRevoked id) (reset_password x cfg raw code password now later)
    unfolding reset_password
    reset_password-Keeps raw code password now later =
        search (keeps_rules, consume_verification-Keeps, revoke_all-IsRevoked) depth 30

    pub refresh_tokens-Keeps :
        (token : String) (now : ℕ) → Keeps (IsRevoked id) (refresh_tokens x cfg token now)
    unfolding refresh_tokens
    refresh_tokens-Keeps token now = search keeps_rules depth 30

    pub authenticate-Keeps :
        (token : String) (now : ℕ) → Keeps (IsRevoked id) (authenticate x cfg token now)
    unfolding authenticate
    authenticate-Keeps token now = search keeps_rules depth 30

    insert_challenge-IsRevoked :
        (email : String) (purpose : VerificationPurpose) (now : ℕ) (s : Accounts)
        → IsRevoked id s
        → IsRevoked id (insert_challenge x email purpose now s)
    insert_challenge-IsRevoked email purpose now s h =
        if_rule (IsRevoked id) (is_some (find_first (is_challenge x email purpose) s.codes))
          (λ _. h) (λ _. h)

    pub send_verification_code-Keeps :
        (raw : String) (drawn : Drawn) (now : ℕ)
        → Keeps (IsRevoked id) (send_verification_code x cfg raw drawn now)
    unfolding send_verification_code renew_registration lock_or_create save_state enqueue_email
    send_verification_code-Keeps raw drawn now =
        search (keeps_rules, insert_challenge-IsRevoked) depth 30

    sends_reset-Keeps :
        (email : String) (user : Option User) (drawn : Drawn) (now : ℕ)
        (r : Result AccountError EmailVerificationCode)
        → Keeps (IsRevoked id) (sends_reset x cfg email user drawn now r)
    unfolding save_state enqueue_email
    sends_reset-Keeps email user drawn now (err e) = done-Keeps
    sends_reset-Keeps email user drawn now (ok c) = search keeps_rules depth 30

    pub send_password_reset_code-Keeps :
        (raw : String) (drawn : Drawn) (now : ℕ)
        → Keeps (IsRevoked id) (send_password_reset_code x cfg raw drawn now)
    unfolding send_password_reset_code renew_reset lock_or_create
    send_password_reset_code-Keeps raw drawn now =
        search (keeps_rules, sends_reset-Keeps, insert_challenge-IsRevoked) depth 30

  pub delete_user-Keeps : (user actor now : ℕ) → Keeps (IsRevoked id) (delete_user user actor now)
  unfolding delete_user
  delete_user-Keeps user actor now = search (keeps_rules, revoke_all-IsRevoked) depth 30

  pub update_user_status-Keeps :
      (user actor : ℕ) (input : StatusInput) (now : ℕ)
      → Keeps (IsRevoked id) (update_user_status user actor input now)
  unfolding update_user_status update_user_ban
  update_user_status-Keeps user actor input now =
      search (keeps_rules, revoke_all-IsRevoked) depth 30

  pub update_user_role-Keeps :
      (user actor : ℕ) (role : UserRole) (action : RoleAction)
      → Keeps (IsRevoked id) (update_user_role user actor role action)
  unfolding update_user_role
  update_user_role-Keeps user actor role action = search keeps_rules depth 30
