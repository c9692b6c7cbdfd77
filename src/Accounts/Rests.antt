-- ===== src/Accounts/Rests.antt =====
-- What `ResetPassword` and `Register` of internal/service/auth.go do after `consumeVerification`: it
-- leaves the challenge alone, so that both are among the requests that Attempts is about.
use danshi_backend.Base.{
  ◌==◌, or_else, ok, Option, arith, none, ◌≡◌, ℕ, true, some, String, refl, false, ◌∷◌, Bool,
}
use danshi_backend.Accounts.Attempts.{Guess, view, Leaves, trying}
use danshi_backend.Accounts.Auth.{Client, Tokens, RegisterInput, issue_session}
use danshi_backend.Accounts.Data.{
  Gender, VerificationPurpose, User, Accounts, registration, password_reset,
}
use danshi_backend.Accounts.Externals.{Externals, Config}
use danshi_backend.Accounts.Register.{
  create_user, claims_name, claim_username, new_user, checked_gender, checked_username, reviewed,
  register, set_password, reset_password,
}
use danshi_backend.Accounts.Requests.{
  ◌>>=◌, ◌>>◌, Request, read, lift, write, Keeps, check-Keeps, write-Keeps, keeps_rules,
  username_taken,
}
use danshi_backend.Accounts.Senders.{find_by_email}
use danshi_backend.Accounts.Sessions.{create_session, set_refresh_digest, revoke_all}
use danshi_backend.Accounts.Validation.{
  normalize_email, domain_allowed, validate_password, validate_code,
}

module _ (x : Externals) (cfg : Config) where
  abbrev pub reset_rest : ℕ → String → ℕ → Request (Unit {0})
  reset_rest id password later =
      write (set_password x cfg id (x.bcrypt password)) >> write (revoke_all id later)

  pub reset_rest-Leaves :
      (purpose : VerificationPurpose) (email : String) (id : ℕ) (password : String) (later : ℕ)
      → Leaves x purpose email (reset_rest id password later)
  unfolding revoke_all
  reset_rest-Leaves purpose email id password later g = record { keeps = λ s h. h }

  -- A reset that gets as far as its check is a try of the code.
  pub reset_password-trying :
      (raw code password email : String) (now later : ℕ) (u : User) (s : Accounts)
      → normalize_email x raw ≡ ok email
      → validate_password "new_password" password true ≡ ok tt
      → validate_code (some code) ≡ ok tt
      → find_by_email x cfg false email s ≡ some u
      → reset_password x cfg raw code password now later s
        ≡ trying x password_reset email (code, now, reset_rest u.id password later) s
  unfolding reset_password
  reset_password-trying raw code password email now later u s mail fits shaped account =
      rw (mail, fits, shaped, account) refl

  abbrev pub register_rest :
      (String → Option Bool)
      → RegisterInput
      → String
      → String
      → Option Gender
      → Client
      → ℕ
      → Request Tokens
  register_rest review input email name gender client later = do
    lift (reviewed x cfg (review name))
    id ← read (λ s. s.next_id)
    create_user x cfg (new_user x cfg id email (x.bcrypt input.password) name gender)
    claim_username x cfg id name
    write (λ s. record s { name_reviews = id ∷ s.name_reviews })
    issue_session x cfg (new_user x cfg id email (x.bcrypt input.password) name gender) client later

  module _ (purpose : VerificationPurpose) (address : String) (g : Guess) where
    Untouched : Accounts → Type 0
    Untouched s = view x purpose address s ≡ g

    issue_session-Untouched :
        (u : User) (client : Client) (now : ℕ) → Keeps Untouched (issue_session x cfg u client now)
    unfolding issue_session Untouched create_session set_refresh_digest
    issue_session-Untouched u client now = record { keeps = λ s h. ground (arith, h) }

    claims_name-Untouched :
        (user : ℕ) (name : String) (owner : Option ℕ)
        → Keeps Untouched (claims_name x cfg user name owner)
    unfolding Untouched
    claims_name-Untouched user name none = write-Keeps (λ s h. h)
    claims_name-Untouched user name (some other) = check-Keeps (other == user) username_taken

    create_user-Untouched : (u : User) → Keeps Untouched (create_user x cfg u)
    unfolding create_user Untouched
    create_user-Untouched u = record { keeps = λ s h. ground (arith, h) }

    register_rest-Untouched :
        (review : String → Option Bool) (input : RegisterInput) (email name : String)
        (gender : Option Gender) (client : Client) (later : ℕ)
        → Keeps Untouched (register_rest review input email name gender client later)
    unfolding claim_username Untouched
    register_rest-Untouched review input email name gender client later =
        search (keeps_rules, issue_session-Untouched, claims_name-Untouched, create_user-Untouched)
          depth 40

  pub register_rest-Leaves :
      (purpose : VerificationPurpose) (address : String) (review : String → Option Bool)
      (input : RegisterInput) (email name : String) (gender : Option Gender) (client : Client)
      (later : ℕ)
      → Leaves x purpose address (register_rest review input email name gender client later)
  unfolding Untouched
  register_rest-Leaves purpose address review input email name gender client later g =
      register_rest-Untouched purpose address g review input email name gender client later

  -- A registration that gets as far as its check, where codes are required, is a try of the code.
  pub register-trying :
      (review : String → Option Bool) (input : RegisterInput) (client : Client) (now later : ℕ)
      (email name : String) (gender : Option Gender) (s : Accounts)
      → normalize_email x input.email ≡ ok email
      → validate_password "password" input.password true ≡ ok tt
      → checked_username x cfg input.username ≡ ok name
      → checked_gender x cfg input.gender ≡ ok gender
      → domain_allowed x cfg email ≡ true
      → cfg.email_verification_required ≡ true
      → validate_code input.verification_code ≡ ok tt
      → find_by_email x cfg true email s ≡ none
      → register x cfg review input client now later s
        ≡ trying x registration email
            (
              or_else input.verification_code "",
              now,
              register_rest review input email name gender client later,
            )
            s
  unfolding register
  register-trying review input client now later email name gender s mail fits named shaped allowed
        required_ code new =
      rw (mail, fits, named, shaped, allowed, required_, code, new) refl
