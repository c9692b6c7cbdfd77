-- ===== src/Accounts/Shutout.antt =====
-- Who is shut out by a reset of the password (internal/service/auth.go).
use danshi_backend.Base.{
  ◌==◌, Bool-cases, Option-cases, is_some, if_rule, is_blank, Result-cases, ok, err,
  find_first-update_rows, ℕ, str_eq, refl, ◌≡◌, inl, false, true, List, Bool, none, ◌&&◌, inr, not,
  String, arith, some,
}
use danshi_backend.Accounts.Auth.{refresh_tokens, authenticate}
use danshi_backend.Accounts.Codes.{save_state, consume_verification}
use danshi_backend.Accounts.Data.{
  VerificationPurpose, User, EmailVerificationCode, UserSession, Accounts, password_reset,
}
use danshi_backend.Accounts.Deliveries.{DeliveryOptions}
use danshi_backend.Accounts.Externals.{Externals, Config, access, refresh}
use danshi_backend.Accounts.History.{Operations, perform_all}
use danshi_backend.Accounts.Register.{set_password, reset_password}
use danshi_backend.Accounts.Requests.{after, Keeps, keeps_rules, unauthorized}
use danshi_backend.Accounts.Revocation.{IsRevoked, run_touches-IsRevoked}
use danshi_backend.Accounts.Revoked.{perform_all-IsRevoked}
use danshi_backend.Accounts.Senders.{find_by_email}
use danshi_backend.Accounts.Sessions.{
  find_user, find_session, admits, find_identity, find_active_identity, find_refresh_identity,
  revoked, revoke_all, handled,
}
use danshi_backend.Accounts.Tokens.{parse_token}
use danshi_backend.Accounts.Validation.{normalize_email, validate_password, validate_code}

module _ {P : Accounts → Type 0} where
  pub consume_verification-Keeps_same :
      (x : Externals) (purpose : VerificationPurpose) (email code : String) (now : ℕ)
      → ((c : EmailVerificationCode) (s : Accounts) → P s → P (save_state c now s))
      → Keeps P (consume_verification x purpose email code now)
  unfolding consume_verification
  consume_verification-Keeps_same x purpose email code now k = search (keeps_rules, k) depth 30

abbrev SameSessions : List UserSession → Accounts → Type 0
SameSessions sessions s = s.sessions ≡ sessions

pub revoke_all-revokes :
    (user now id : ℕ) (r : UserSession) (s : Accounts)
    → find_session id s ≡ some r
    → r.user_id ≡ user
    → IsRevoked id (revoke_all user now s)
unfolding revoke_all
revoke_all-revokes user now id r s e h =
    let moved =
      find_first-update_rows (λ (q : UserSession). q.id == id)
        (λ (q : UserSession). q.user_id == user && not (is_some q.revoked_at)) (revoked now)
        s.sessions (λ q. refl) in
    rw (moved, e)
      (if_rule (λ (q : UserSession). is_some q.revoked_at ≡ true)
        (r.user_id == user && not (is_some r.revoked_at)) (λ _. refl)
        (λ open_still. ground (arith, h, open_still)))

-- A session that is revoked identifies nobody.
find_identity-IsRevoked :
    (matches : UserSession → Bool) (id user now : ℕ) (s : Accounts)
    → IsRevoked id s
    → find_identity matches id user now s ≡ none
find_identity-IsRevoked matches id user now s h = elim (Option-cases (find_session id s)) [
  | inl e ↦ cc (rw e at h)
  | inr (r, e) ↦ rw e (elim (Option-cases (find_user r.user_id s)) [
    | inl f ↦ rw f refl
    | inr (u, f) ↦ rw f (
        let gone : is_some r.revoked_at ≡ true = rw e at h in
        let shut : admits matches user now r u ≡ false = ground (arith, gone) in rw shut refl)
  ])
]

module _ (x : Externals) (cfg : Config) where
  pub authenticate-IsRevoked :
      (token : String) (now user id : ℕ) (s : Accounts)
      → IsRevoked id s
      → parse_token x access token now ≡ some (user, id)
      → (authenticate x cfg token now s).0 ≡ err unauthorized
  unfolding authenticate find_active_identity
  authenticate-IsRevoked token now user id s h e =
      rw e (rw (find_identity-IsRevoked (λ r. true) id user now s h) refl)

  pub refresh_tokens-IsRevoked :
      (token : String) (now user id : ℕ) (s : Accounts)
      → IsRevoked id s
      → parse_token x refresh token now ≡ some (user, id)
      → (refresh_tokens x cfg token now s).0 ≡ err unauthorized
  unfolding refresh_tokens find_refresh_identity
  refresh_tokens-IsRevoked token now user id s h e = elim (Bool-cases (is_blank token)) [
    | inl blank ↦ rw blank refl
    | inr there ↦
        rw (there, e)
          (rw
            (find_identity-IsRevoked (λ r. str_eq r.refresh_token_digest (x.sha256 token)) id user
              now s h)
            refl)
  ]

  -- What a reset that succeeds has done.
  reset_password-eq_ok :
      (raw code password email : String) (now later : ℕ) (u : User) (s : Accounts)
      → normalize_email x raw ≡ ok email
      → find_by_email x cfg false email s ≡ some u
      → (reset_password x cfg raw code password now later s).0 ≡ ok tt
      → let consumed = consume_verification x password_reset email code now s in
        (consumed.0 ≡ ok tt)
        × ((reset_password x cfg raw code password now later s).1
            ≡ revoke_all u.id later (set_password x cfg u.id (x.bcrypt password) consumed.1))
  unfolding reset_password
  reset_password-eq_ok raw code password email now later u s he hu h =
      elim (Result-cases (validate_password "new_password" password true)) [
        | inr (e, bad) ↦ cc (rw (he, bad) at h)
        | inl (a, good) ↦ elim (Result-cases (validate_code (some code))) [
          | inr (e, bad) ↦ cc (rw (he, good, bad) at h)
          | inl (b, fits) ↦
              elim (Result-cases (consume_verification x password_reset email code now s).0) [
                | inr (e, bad) ↦ cc (rw (he, good, fits, hu, bad) at h)
                | inl (c, right) ↦ (right, rw (he, good, fits, hu, right) refl)
              ]
        ]
      ]

  same_sessions :
      (purpose : VerificationPurpose) (email code : String) (now : ℕ) (s : Accounts)
      → (consume_verification x purpose email code now s).1.sessions ≡ s.sessions
  unfolding save_state
  same_sessions purpose email code now s =
      (consume_verification-Keeps_same {P = SameSessions s.sessions} x purpose email code now
          (λ c t h. h)).keeps
        s refl

  reset_password-IsRevoked :
      (raw code password email : String) (now later id : ℕ) (u : User) (r : UserSession)
      (s : Accounts)
      → normalize_email x raw ≡ ok email
      → find_by_email x cfg false email s ≡ some u
      → (reset_password x cfg raw code password now later s).0 ≡ ok tt
      → find_session id s ≡ some r
      → r.user_id ≡ u.id
      → IsRevoked id (handled (reset_password x cfg raw code password now later) s)
  reset_password-IsRevoked raw code password email now later id u r s he hu h hr mine =
      let m = reset_password x cfg raw code password now later in
      let (right, left) = reset_password-eq_ok raw code password email now later u s he hu h in
      let consumed = (consume_verification x password_reset email code now s).1 in
      let kept : find_session id consumed ≡ some r =
        rw (same_sessions password_reset email code now s) hr in
      let shut : IsRevoked id (m s).1 = rw left (
        revoke_all-revokes u.id later id r (set_password x cfg u.id (x.bcrypt password) consumed)
          kept mine) in
      let committed : IsRevoked id (after m s) = rw h shut in
      run_touches-IsRevoked id (after m s).touches (after m s) committed

  -- Once a reset of an account's password succeeds, no session that the account had is of any use:
  -- after whatever requests follow, its access tokens authenticate nobody and its refresh tokens are
  -- refused.
  pub reset_password-shuts_out :
      (raw code password email : String) (now later id : ℕ) (u : User) (r : UserSession)
      (s : Accounts)
      → normalize_email x raw ≡ ok email
      → find_by_email x cfg false email s ≡ some u
      → (reset_password x cfg raw code password now later s).0 ≡ ok tt
      → find_session id s ≡ some r
      → r.user_id ≡ u.id
      → (o : DeliveryOptions) (ops : Operations) (token1 token2 : String) (t user : ℕ)
      → parse_token x access token1 t ≡ some (user, id)
      → parse_token x refresh token2 t ≡ some (user, id)
      → let s' =
          perform_all x cfg o ops (handled (reset_password x cfg raw code password now later) s) in
        ((authenticate x cfg token1 t s').0 ≡ err unauthorized)
        × ((refresh_tokens x cfg token2 t s').0 ≡ err unauthorized)
  reset_password-shuts_out raw code password email now later id u r s he hu h hr mine o ops token1
        token2 t user e1 e2 =
      let m = reset_password x cfg raw code password now later in
      let s' = perform_all x cfg o ops (handled m s) in
      let gone : IsRevoked id s' =
        perform_all-IsRevoked id x cfg o ops (handled m s)
          (reset_password-IsRevoked raw code password email now later id u r s he hu h hr mine) in
      (
        authenticate-IsRevoked token1 t user id s' gone e1,
        refresh_tokens-IsRevoked token2 t user id s' gone e2,
      )
