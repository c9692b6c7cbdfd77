-- ===== src/Accounts/Tokens.antt =====
-- Tokens: internal/pkg/jwtx/jwtx.go and `claimIDs` of internal/service/auth.go.
use danshi_backend.Base.{
  if◌then◌else◌, ℤ, pos, negsuc, ℕ, zero, Option, false, true, suc, ◌+◌, Bool, none, ◌-◌, ◌^◌,
  String, some,
}
use danshi_backend.Accounts.Externals.{TokenType, Claims, Externals, access, refresh}

abbrev pub is_type : TokenType → TokenType → Bool
is_type access access = true
is_type refresh refresh = true
is_type _ _ = false

abbrev pub max_int64 : ℕ
max_int64 = 2 ^ 63 - 1

abbrev pub positive_id : ℤ → Option ℕ
positive_id (pos zero) = none
positive_id (pos (suc n)) = some (suc n)
positive_id (negsuc n) = none

-- The user and the session of claims, both positive.
abbrev pub claim_ids : Claims → Option (ℕ × ℕ)
claim_ids c = elim c.subject [
  | none ↦ none
  | some subject ↦ elim (positive_id subject) [
    | none ↦ none
    | some user ↦ elim (positive_id c.session_id) [
      | none ↦ none
      | some session ↦ some (user, session)
    ]
  ]
]

module _ (x : Externals) where
  -- `Parse` with `claimIDs`: a signed token that has not run out, of the type that is wanted.
  unfoldable pub parse_token : TokenType → String → ℕ → Option (ℕ × ℕ)
  parse_token want token now = elim (x.verify_token now token) [
    | none ↦ none
    | some c ↦ if is_type c.type want then claim_ids c else none
  ]

  -- `SignAt`.
  unfoldable pub sign_at : ℕ → ℕ → TokenType → ℕ → ℕ → String
  sign_at user session type now ttl = x.sign (record {
    subject = some (pos user);
    type = type;
    session_id = pos session;
    expires = now + ttl;
  })
