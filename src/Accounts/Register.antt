-- ===== src/Accounts/Register.antt =====
-- `Register` and `ResetPassword` of internal/service/auth.go, with `Create`, `ClaimUsername` and
-- `UpdatePassword` of internal/repository/auth.go, and `Delete` of internal/service/user.go.
use danshi_backend.Base.{
  ◌==◌, if◌then◌else◌, is_some, or_else, Result, ok, err, find_first, update_rows, ℕ, ◌++◌, Option,
  false, true, ◌+◌, Bool, none, ◌&&◌, not, ◌∷◌, String, some, [],
}
use danshi_backend.Accounts.Auth.{Client, Tokens, RegisterInput, issue_session, same_name}
use danshi_backend.Accounts.Codes.{same_email, consume_verification}
use danshi_backend.Accounts.Data.{
  Gender, User, UsernameClaim, Accounts, registration, password_reset,
}
use danshi_backend.Accounts.Externals.{Externals, Config}
use danshi_backend.Accounts.Requests.{
  ◌>>=◌, found, internal, invalid_field, AccountError, Request, ◌>>◌, done, check, read, lift,
  write, required, invalid_enum, invalid_domain, verify_code_invalid, email_taken, username_taken,
  not_owner, user_not_found, username_refused,
}
use danshi_backend.Accounts.Senders.{find_by_email}
use danshi_backend.Accounts.Sessions.{find_user, revoke_all}
use danshi_backend.Accounts.Validation.{
  normalize_email, domain_allowed, normalize_username, validate_password, validate_code, gender_of,
}

module _ (x : Externals) (cfg : Config) where
  abbrev pub is_claim_of : String → UsernameClaim → Bool
  is_claim_of name c = same_name x cfg c.username name

  -- Who holds a name: a user's or a claim's, past claims included.
  abbrev pub name_owner : String → Accounts → Option ℕ
  name_owner name s = elim (find_first (is_claim_of name) s.username_claims) [
    | none ↦ none
    | some c ↦ some c.user_id
  ]

  -- INSERT of a user: the unique indexes on the lowered address and name, and the trigger that claims
  -- the name (migrations/00018_user_name_identity.sql).
  unfoldable pub create_user : User → Request (Unit {0})
  create_user u = do
    same ← read (λ s. find_first (λ (o : User). same_email x o.email u.email) s.users)
    check (not (is_some same)) email_taken
    named ← read (λ s. find_first (λ (o : User). same_name x cfg o.username u.username) s.users)
    check (not (is_some named)) username_taken
    owner ← read (name_owner u.username)
    check (not (is_some owner)) username_taken
    write (λ s. record s {
      users = s.users ++ (u ∷ []);
      username_claims =
          s.username_claims ++ (record { user_id = u.id; username = u.username } ∷ []);
      next_id = s.next_id + 1;
    })

  abbrev pub claims_name : ℕ → String → Option ℕ → Request (Unit {0})
  claims_name user_id name none = write (λ s. record s {
    username_claims = s.username_claims ++ (record { user_id = user_id; username = name } ∷ []);
  })
  claims_name user_id name (some other) = check (other == user_id) username_taken

  -- `ClaimUsername`: idempotent for the owner.
  unfoldable pub claim_username : ℕ → String → Request (Unit {0})
  claim_username user_id name = do owner ← read (name_owner name); claims_name user_id name owner

  abbrev pub new_user : ℕ → String → String → String → Option Gender → User
  new_user id email hash name gender = record {
    id = id;
    email = email;
    password_hash = hash;
    username = name;
    gender = gender;
    ban_is_permanent = false;
    banned_until = none;
    ban_reason = none;
    banned_by = none;
    deleted_at = none;
  }

  -- What `normalizeRegister` returns.
  abbrev pub checked_gender : Option String → Result AccountError (Option Gender)
  checked_gender none = ok none
  checked_gender (some text) = elim (gender_of text) [
    | none ↦ err (invalid_field "gender" invalid_enum)
    | some g ↦ ok (some g)
  ]

  abbrev pub checked_username : Option String → Result AccountError String
  checked_username none = err (invalid_field "username" required)
  checked_username (some raw) = normalize_username x raw

  -- The review of a name by the content moderator: no answer, or whether it passes.
  abbrev pub reviewed : Option Bool → Result AccountError (Unit {0})
  reviewed none = err internal
  reviewed (some passes) = if passes then ok tt else err username_refused

  abbrev pub consumes_if_required : String → Option String → ℕ → Request (Unit {0})
  consumes_if_required email code now =
      if cfg.email_verification_required
      then consume_verification x registration email (or_else code "") now
      else done tt

  -- `Register`.
  unfoldable pub register : (String → Option Bool) → RegisterInput → Client → ℕ → ℕ → Request Tokens
  register review input client now later = do
    email ← lift (normalize_email x input.email)
    lift (validate_password "password" input.password true)
    name ← lift (checked_username input.username)
    gender ← lift (checked_gender input.gender)
    check (domain_allowed x cfg email) (invalid_field "email" invalid_domain)
    lift (if cfg.email_verification_required then validate_code input.verification_code else ok tt)
    taken ← read (find_by_email x cfg true email)
    check (not (is_some taken)) email_taken
    consumes_if_required email input.verification_code now
    lift (reviewed (review name))
    id ← read (λ s. s.next_id)
    create_user (new_user id email (x.bcrypt input.password) name gender)
    claim_username id name
    write (λ s. record s { name_reviews = id ∷ s.name_reviews })
    issue_session x cfg (new_user id email (x.bcrypt input.password) name gender) client later

  -- `UpdatePassword`.
  abbrev pub set_password : ℕ → String → Accounts → Accounts
  set_password id hash s = record s {
    users =
        update_rows (λ (u : User). u.id == id && not (is_some u.deleted_at))
          (λ u. record u { password_hash = hash }) s.users;
  }

  -- `ResetPassword`, where the account is read and locked at once.
  unfoldable pub reset_password : String → String → String → ℕ → ℕ → Request (Unit {0})
  reset_password raw_email code new_password now later = do
    email ← lift (normalize_email x raw_email)
    lift (validate_password "new_password" new_password true)
    lift (validate_code (some code))
    user ← read (find_by_email x cfg false email)
    u ← found user verify_code_invalid
    consume_verification x password_reset email code now
    write (set_password u.id (x.bcrypt new_password))
    write (revoke_all u.id later)

-- `Delete` of internal/service/user.go, with `SoftDelete`: by the user alone.
unfoldable pub delete_user : ℕ → ℕ → ℕ → Request (Unit {0})
delete_user user_id actor_id now = do
  check (user_id == actor_id) not_owner
  user ← read (find_user user_id)
  u ← found user user_not_found
  write (λ s. record s {
    users =
        update_rows (λ (r : User). r.id == user_id && not (is_some r.deleted_at))
          (λ r. record r { deleted_at = some now }) s.users;
  })
  write (revoke_all user_id now)
