-- ===== src/Accounts/Auth.antt =====
-- The service of internal/service/auth.go: login, tokens and sessions. Each function is one request;
-- `now` is the time at which it reads the clock, `later` that of a second reading.
use danshi_backend.Base.{
  ltb, leb, ◌==◌, if◌then◌else◌, is_some, or_else, is_blank, Result, ok, err, find_first, ℕ, str_eq,
  ◌++◌, Option, false, ◌+◌, Bool, none, ◌&&◌, not, ◌∷◌, String, [],
}
use danshi_backend.Accounts.Data.{User, UserSession, Accounts}
use danshi_backend.Accounts.Externals.{Externals, Config, access, refresh}
use danshi_backend.Accounts.Requests.{
  invalid_format, ◌>>=◌, found, internal, invalid_field, AccountError, Request, ◌>>◌, and_then,
  done, check, read, lift, write, required, unauthorized, session_not_found, account_banned,
}
use danshi_backend.Accounts.Senders.{find_by_email}
use danshi_backend.Accounts.Sessions.{
  is_banned, find_user, find_active_identity, find_refresh_identity, create_session,
  set_refresh_digest, revoke, revoke_all,
}
use danshi_backend.Accounts.Tokens.{max_int64, parse_token, sign_at}
use danshi_backend.Accounts.Validation.{
  trim_space, byte_len, count_char, normalize_email, domain_allowed, normalize_username,
  validate_password, optional_string,
}

-- `ClientInfo`, and the 32 random bytes for the first digest of a session.
pub record Client : Type 0 where
  pub device_label : String
  pub user_agent : String
  pub noise : String

pub record Tokens : Type 0 where
  pub token : String
  pub refresh_token : String

pub record Principal : Type 0 where
  pub user : User
  pub session : ℕ

pub record RegisterInput : Type 0 where
  pub email : String
  pub password : String
  pub verification_code : Option String
  pub username : Option String
  pub gender : Option String

abbrev pub device_label_of : Client → String
device_label_of client =
    or_else (optional_string client.device_label 100)
      (or_else (optional_string (or_else (optional_string client.user_agent 512) "") 100) "未知设备")

-- `newSession`.
abbrev pub new_session : ℕ → ℕ → Client → String → ℕ → ℕ → UserSession
new_session id user_id client digest now ttl = record {
  id = id;
  user_id = user_id;
  refresh_token_digest = digest;
  device_label = device_label_of client;
  created_at = now;
  last_seen_at = now;
  expires_at = now + ttl;
  revoked_at = none;
}

abbrev pub defer_touch : ℕ → ℕ → Accounts → Accounts
defer_touch id now s = record s { touches = s.touches ++ ((id, now) ∷ []) }

module _ (x : Externals) (cfg : Config) where
  abbrev pub tokens_of : ℕ → ℕ → ℕ → Tokens
  tokens_of user session now = record {
    token = sign_at x user session access now cfg.access_token_ttl;
    refresh_token = sign_at x user session refresh now cfg.refresh_token_ttl;
  }

  -- `issueSession`: the row with a random digest, then the digest of the signed refresh token.
  unfoldable pub issue_session : User → Client → ℕ → Request Tokens
  issue_session u client now = do
    id ← read (λ s. s.next_id)
    write (
        create_session
          (new_session id u.id client (x.sha256 client.noise) now cfg.refresh_token_ttl))
    check (leb u.id max_int64 && leb id max_int64) internal
    write (set_refresh_digest id (x.sha256 (tokens_of u.id id now).refresh_token))
    done (tokens_of u.id id now)

  -- `findLoginUser`, on the tables as they are.
  abbrev pub login_by_email : String → Accounts → Result AccountError (Option User)
  login_by_email email s =
      if domain_allowed x cfg email
      then ok (find_by_email x cfg false email s)
      else err unauthorized

  abbrev pub same_name : String → String → Bool
  same_name a b = str_eq (x.lower (x.nfkc a)) (x.lower (x.nfkc b))

  abbrev pub find_by_username : String → Accounts → Option User
  find_by_username name s =
      find_first (λ (u : User). same_name u.username name && not (is_some u.deleted_at)) s.users

  abbrev pub malformed_identifier : {A : Type 0} → Result AccountError A → Result AccountError A
  malformed_identifier (ok a) = ok a
  malformed_identifier (err e) = err (invalid_field "identifier" invalid_format)

  abbrev pub find_login_user : String → Accounts → Result AccountError (Option User)
  find_login_user raw s =
      let identifier = trim_space raw in
      if str_eq identifier ""
      then err (invalid_field "identifier" required)
      else if ltb 0 (count_char 64 identifier)
      then and_then (malformed_identifier (normalize_email x identifier))
          (λ email. login_by_email email s)
      else and_then (malformed_identifier (normalize_username x identifier))
          (λ name. ok (find_by_username name s))

  abbrev pub login_user : String → Request User
  login_user identifier = do
    answer ← read (find_login_user identifier)
    user ← lift answer
    found user unauthorized

  -- bcrypt takes at most 72 bytes.
  abbrev pub password_matches : String → String → Bool
  password_matches plain hash = leb (byte_len plain) 72 && x.bcrypt_matches plain hash

  -- The first look of `Login`, before it waits for the lock on the user.
  abbrev pub first_look : String → String → Accounts → Result AccountError User
  first_look identifier password s =
      and_then (validate_password "password" password false) (λ _. (login_user identifier s).0)

  -- `Login` under the lock, on the tables that other transactions may have changed since the first
  -- look: the user is read again, and found again by the identifier.
  unfoldable pub login :
      Result AccountError User → String → String → Client → ℕ → ℕ → Request Tokens
  login first identifier password client now later = do
    seen ← lift first
    locked ← read (find_user seen.id)
    u ← found locked unauthorized
    current ← login_user identifier
    check (current.id == u.id) unauthorized
    check (password_matches password u.password_hash) unauthorized
    check (not (is_banned now u))
        (account_banned (if u.ban_is_permanent then none else u.banned_until))
    issue_session u client later

  -- `Refresh`: the refresh token itself stays as it is.
  unfoldable pub refresh_tokens : String → ℕ → Request Tokens
  refresh_tokens token now = do
    check (not (is_blank token)) unauthorized
    ids ← found (parse_token x refresh token now) unauthorized
    identity ← read (find_refresh_identity (x.sha256 token) ids.1 ids.0 now)
    who ← found identity unauthorized
    write (defer_touch ids.1 now)
    done (record {
      token = sign_at x who.1.id who.0.id access now cfg.access_token_ttl;
      refresh_token = token;
    })

  -- `Authenticate`.
  unfoldable pub authenticate : String → ℕ → Request Principal
  authenticate token now = do
    ids ← found (parse_token x access token now) unauthorized
    identity ← read (find_active_identity ids.1 ids.0 now)
    who ← found identity unauthorized
    write (defer_touch ids.1 now)
    done (record { user = who.1; session = who.0.id })

-- `Logout`, `KickSession` (with their error) and `LogoutAll`.
unfoldable pub revoke_session : ℕ → ℕ → ℕ → AccountError → Request (Unit {0})
revoke_session user id now e = do
  rows ← read (revoke user id now)
  rest ← found rows e
  write (λ s. rest)

unfoldable pub logout : Principal → ℕ → Request (Unit {0})
unfolding revoke_session
logout p now = revoke_session p.user.id p.session now unauthorized

unfoldable pub kick_session : Principal → ℕ → ℕ → Request (Unit {0})
unfolding revoke_session
kick_session p id now = revoke_session p.user.id id now session_not_found

unfoldable pub logout_all : Principal → ℕ → Request (Unit {0})
logout_all p now = write (revoke_all p.user.id now)
