-- ===== src/Accounts/Sessions.antt =====
-- Sessions: `SessionRepository` of internal/repository/auth.go.
use danshi_backend.Base.{
  ltb, leb, ◌==◌, if◌then◌else◌, is_some, find_first, update_rows, count_rows, ℕ, str_eq, ◌++◌,
  Option, false, true, List, ◌*◌, ◌+◌, Bool, none, ◌&&◌, ◌||◌, not, ◌∷◌, String, some, [],
}
use danshi_backend.Accounts.Data.{User, UserSession, Accounts}
use danshi_backend.Accounts.Requests.{Request, after}
use danshi_backend.ImageAccess.Backoff.{second}

abbrev pub session_touch_threshold : ℕ
session_touch_threshold = 300 * second

-- Not revoked and not run out.
abbrev pub is_open_session : ℕ → UserSession → Bool
is_open_session now r = not (is_some r.revoked_at) && ltb now r.expires_at

-- `banned`, which is also the condition in SQL.
abbrev pub is_banned : ℕ → User → Bool
is_banned now u = u.ban_is_permanent || elim u.banned_until [ none ↦ false | some t ↦ ltb now t ]

abbrev pub find_user : ℕ → Accounts → Option User
find_user id s = find_first (λ (u : User). u.id == id && not (is_some u.deleted_at)) s.users

abbrev pub find_session : ℕ → Accounts → Option UserSession
find_session id s = find_first (λ (r : UserSession). r.id == id) s.sessions

-- The WHERE clauses on a session and its user; `matches` adds the digest of a refresh token.
abbrev pub admits : (UserSession → Bool) → ℕ → ℕ → UserSession → User → Bool
admits matches user_id now r u =
    r.user_id == user_id && is_open_session now r && matches r && not (is_banned now u)

abbrev pub with_user :
    (UserSession → Bool) → ℕ → ℕ → UserSession → Option User → Option (UserSession × User)
with_user matches user_id now r none = none
with_user matches user_id now r (some u) =
    if admits matches user_id now r u then some (r, u) else none

-- The join of a session with its user, who must not be deleted.
abbrev pub with_session :
    (UserSession → Bool) → ℕ → ℕ → Accounts → Option UserSession → Option (UserSession × User)
with_session matches user_id now s none = none
with_session matches user_id now s (some r) =
    with_user matches user_id now r (find_user r.user_id s)

abbrev pub find_identity : (UserSession → Bool) → ℕ → ℕ → ℕ → Accounts → Option (UserSession × User)
find_identity matches session_id user_id now s =
    with_session matches user_id now s (find_session session_id s)

-- `FindActiveIdentity` and `FindRefreshIdentity`.
unfoldable pub find_active_identity : ℕ → ℕ → ℕ → Accounts → Option (UserSession × User)
find_active_identity = find_identity (λ r. true)

unfoldable pub find_refresh_identity : String → ℕ → ℕ → ℕ → Accounts → Option (UserSession × User)
find_refresh_identity digest = find_identity (λ r. str_eq r.refresh_token_digest digest)

-- `Create` and `SetRefreshDigest`.
unfoldable pub create_session : UserSession → Accounts → Accounts
create_session r s = record s { sessions = s.sessions ++ (r ∷ []); next_id = s.next_id + 1 }

unfoldable pub set_refresh_digest : ℕ → String → Accounts → Accounts
set_refresh_digest id digest s = record s {
  sessions =
      update_rows (λ (r : UserSession). r.id == id)
        (λ r. record r { refresh_token_digest = digest }) s.sessions;
}

-- `Touch`.
unfoldable pub touch : ℕ → ℕ → Accounts → Accounts
touch id now s = record s {
  sessions =
      update_rows
        (λ (r : UserSession).
          r.id == id && is_open_session now r && leb (r.last_seen_at + session_touch_threshold) now)
        (λ r. record r { last_seen_at = now }) s.sessions;
}

-- GREATEST(now, last_seen_at).
abbrev pub revoked : ℕ → UserSession → UserSession
revoked now r = record r {
  revoked_at = some (if leb r.last_seen_at now then now else r.last_seen_at);
}

abbrev pub is_revocable : ℕ → ℕ → ℕ → UserSession → Bool
is_revocable user_id id now r = r.id == id && r.user_id == user_id && is_open_session now r

-- `Revoke`: `none` where no row matches.
unfoldable pub revoke : ℕ → ℕ → ℕ → Accounts → Option Accounts
revoke user_id id now s =
    if count_rows (is_revocable user_id id now) s.sessions == 0
    then none
    else some
        (record s { sessions = update_rows (is_revocable user_id id now) (revoked now) s.sessions })

-- `RevokeAll`.
unfoldable pub revoke_all : ℕ → ℕ → Accounts → Accounts
revoke_all user_id now s = record s {
  sessions =
      update_rows (λ (r : UserSession). r.user_id == user_id && not (is_some r.revoked_at))
        (revoked now) s.sessions;
}

-- Before the commit the registered sessions are touched, in their order.
abbrev pub run_touches : List (ℕ × ℕ) → Accounts → Accounts
run_touches [] s = s
run_touches ((id, now) ∷ rest) s = run_touches rest (touch id now s)

-- A request in its transaction (internal/middleware/uow.go): kept or rolled back, and then the
-- touches that it registered.
abbrev pub handled : {A : Type 0} → Request A → Accounts → Accounts
handled m s = let s' = after m s in record (run_touches s'.touches s') { touches = [] }
