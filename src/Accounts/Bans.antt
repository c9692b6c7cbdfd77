-- ===== src/Accounts/Bans.antt =====
-- Who is shut out by a ban (internal/service/admin_users.go).
use danshi_backend.Base.{
  ltb, ◌==◌, if◌then◌else◌, Option-cases, is_some, Result, ok, err, find_first-test,
  find_first-update_rows, ℕ, ◌∙◌, refl, ◌++◌, ◌≡◌, inl, false, true, List, none, ◌&&◌, subst, ◌||◌,
  inr, not, ◌∷◌, String, some, [], sym,
}
use danshi_backend.Accounts.Administration.{
  StatusInput, BanState, normalize_admin_ban, set_ban, update_user_ban, ban_record_of,
  update_user_status,
}
use danshi_backend.Accounts.Attempts.{succeeds}
use danshi_backend.Accounts.Auth.{
  Client, issue_session, login_user, password_matches, login, authenticate,
}
use danshi_backend.Accounts.Data.{User, UserSession, Accounts}
use danshi_backend.Accounts.Deliveries.{DeliveryOptions}
use danshi_backend.Accounts.Externals.{Externals, Config, access}
use danshi_backend.Accounts.History.{Operations, perform_all}
use danshi_backend.Accounts.Requests.{
  ◌>>=◌, AccountError, Request, proceed, ◌>>◌, check, after, unauthorized, account_banned,
}
use danshi_backend.Accounts.Revocation.{IsRevoked, run_touches-IsRevoked}
use danshi_backend.Accounts.Revoked.{perform_all-IsRevoked}
use danshi_backend.Accounts.Sessions.{
  is_banned, find_user, find_session, touch, revoke_all, run_touches, handled,
}
use danshi_backend.Accounts.Shutout.{revoke_all-revokes, authenticate-IsRevoked}
use danshi_backend.Accounts.Tokens.{parse_token}

update_user_status-eq_ok :
    (user actor : ℕ) (input : StatusInput) (now : ℕ) (b : BanState) (s : Accounts)
    → normalize_admin_ban input actor now ≡ ok (b, true)
    → (update_user_status user actor input now s).0 ≡ ok true
    → let s1 = update_user_ban user b s in
      (update_user_status user actor input now s).1
      ≡ revoke_all user now
          (record s1 { ban_records = s1.ban_records ++ (ban_record_of user b true actor ∷ []) })
unfolding update_user_status
update_user_status-eq_ok user actor input now b s hb h = elim (Option-cases (find_user user s)) [
  | inl e ↦ cc (rw (hb, e) at h)
  | inr (u, e) ↦ rw (hb, e) refl
]

same_users : (ts : List (ℕ × ℕ)) (s : Accounts) → (run_touches ts s).users ≡ s.users
unfolding touch
same_users [] s = refl
same_users ((i, now) ∷ ts) s = same_users ts (touch i now s)

-- After the ban the user that is found is the user with the ban.
find_user-banned :
    (user : ℕ) (b : BanState) (s : Accounts) {u : User}
    → find_user user (update_user_ban user b s) ≡ some u
    → (u0 : User) × (u ≡ set_ban b u0)
unfolding update_user_ban
find_user-banned user b s {u} h =
    let test = λ (r : User). r.id == user && not (is_some r.deleted_at) in
    let moved = find_first-update_rows test test (set_ban b) s.users (λ r. refl) in
    elim (Option-cases (find_user user s)) [
      | inl e ↦ cc (rw (moved, e) at h)
      | inr (u0, e) ↦
          let hit = find_first-test test s.users e in
          let same : set_ban b u0 ≡ u = cc (rw (moved, e, hit) at h) in (u0, sym same)
    ]

module _ (user actor : ℕ) (input : StatusInput) (now : ℕ) (b : BanState) (s : Accounts)
    (hb : normalize_admin_ban input actor now ≡ ok (b, true))
    (h : (update_user_status user actor input now s).0 ≡ ok true) where
  update_user_status-IsRevoked :
      (id : ℕ) (r : UserSession)
      → find_session id s ≡ some r
      → r.user_id ≡ user
      → IsRevoked id (handled (update_user_status user actor input now) s)
  unfolding update_user_ban
  update_user_status-IsRevoked id r hr mine =
      let m = update_user_status user actor input now in
      let left = update_user_status-eq_ok user actor input now b s hb h in
      let shut : IsRevoked id (m s).1 = rw left (revoke_all-revokes user now id r _ hr mine) in
      run_touches-IsRevoked id (after m s).touches (after m s) (rw h shut)

  update_user_status-users :
      (handled (update_user_status user actor input now) s).users ≡ (update_user_ban user b s).users
  unfolding revoke_all
  update_user_status-users =
      let m = update_user_status user actor input now in
      let left = update_user_status-eq_ok user actor input now b s hb h in
      let people : (m s).1.users ≡ (update_user_ban user b s).users = rw left refl in
      same_users (after m s).touches (after m s) ∙ rw h people

  -- The user that a login would find is banned as long as the ban lasts.
  still_banned :
      (t : ℕ) (u : User)
      → b.is_permanent || elim b.until [ none ↦ false | some end_t ↦ ltb t end_t ] ≡ true
      → find_user user (handled (update_user_status user actor input now) s) ≡ some u
      → is_banned t u ≡ true
  still_banned t u lasts e =
      let seen : find_user user (update_user_ban user b s) ≡ some u =
        rw update_user_status-users at e in
      let (u0, same) = find_user-banned user b s seen in rw same lasts

module _ {A B : Type 0} (f : A → Request B)
    (fails : (a : A) (s : Accounts) → succeeds (f a s).0 ≡ false) where
  proceed_fails : (r : Result AccountError A) (s : Accounts) → succeeds (proceed r s f).0 ≡ false
  proceed_fails (ok a) s = fails a s
  proceed_fails (err e) s = refl

  -- A sequence fails where its second part always does.
  bind_fails : (m : Request A) (s : Accounts) → succeeds ((m >>= f) s).0 ≡ false
  bind_fails m s = proceed_fails (m s).0 (m s).1

module _ (x : Externals) (cfg : Config) where
  -- The last steps of a login, for a user who is banned.
  login_ends :
      (u current : User) (password : String) (client : Client) (t later : ℕ) (s : Accounts)
      → is_banned t u ≡ true
      → succeeds
          ((check (current.id == u.id) unauthorized
              >> (check (password_matches x cfg password u.password_hash) unauthorized
                  >> (check
                        (not (is_banned t u))
                        (account_banned (if u.ban_is_permanent then none else u.banned_until))
                      >> issue_session x cfg u client later)))
            s).0
        ≡ false
  login_ends u current password client t later s banned =
      bind_fails _
        (λ a s'.
          bind_fails _ (λ b s2. rw banned refl)
            (check (password_matches x cfg password u.password_hash) unauthorized) s')
        (check (current.id == u.id) unauthorized) s

  login-banned :
      (seen : User) (identifier password : String) (client : Client) (t later : ℕ) (s : Accounts)
      → ((u : User) → find_user seen.id s ≡ some u → is_banned t u ≡ true)
      → succeeds (login x cfg (ok seen) identifier password client t later s).0 ≡ false
  unfolding login
  login-banned seen identifier password client t later s banned =
      elim (Option-cases (find_user seen.id s)) [
        | inl e ↦ rw e refl
        | inr (u, e) ↦ rw e (
            bind_fails _
              (λ current s'. login_ends u current password client t later s' (banned u e))
              (login_user x cfg identifier) s)
      ]

  -- Once a ban succeeds, no session that the user had authenticates anybody, whatever requests and
  -- deliveries follow; and a login straight after it fails as long as the ban lasts, whoever's first
  -- look led to the user.
  pub update_user_status-shuts_out :
      (user actor : ℕ) (input : StatusInput) (now id : ℕ) (b : BanState) (r : UserSession)
      (s : Accounts)
      → normalize_admin_ban input actor now ≡ ok (b, true)
      → (update_user_status user actor input now s).0 ≡ ok true
      → find_session id s ≡ some r
      → r.user_id ≡ user
      → (o : DeliveryOptions) (ops : Operations) (token : String) (holder at_t : ℕ)
      → parse_token x access token at_t ≡ some (holder, id)
      → (seen : User) (identifier password : String) (client : Client) (t later : ℕ)
      → seen.id ≡ user
      → b.is_permanent || elim b.until [ none ↦ false | some end_t ↦ ltb t end_t ] ≡ true
      → let s' = handled (update_user_status user actor input now) s in
        ((authenticate x cfg token at_t (perform_all x cfg o ops s')).0 ≡ err unauthorized)
        × (succeeds (login x cfg (ok seen) identifier password client t later s').0 ≡ false)
  update_user_status-shuts_out user actor input now id b r s hb h hr mine o ops token holder at_t e
        seen identifier password client t later same lasts =
      let s' = handled (update_user_status user actor input now) s in
      (
        authenticate-IsRevoked x cfg token at_t holder id (perform_all x cfg o ops s')
            (perform_all-IsRevoked id x cfg o ops s'
              (update_user_status-IsRevoked user actor input now b s hb h id r hr mine))
            e,
        login-banned seen identifier password client t later s' (λ u found_it.
            still_banned user actor input now b s hb h t u lasts
              (subst (λ i. find_user i s' ≡ some u) same found_it)),
      )
