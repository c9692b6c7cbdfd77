-- ===== src/Accounts/Externals.antt =====
-- What the services of accounts call and do not implement: case mapping and Unicode tables, the
-- parser of addresses (net/mail), NFKC (x/text), HMAC-SHA256 under the configured secret and SHA-256
-- in hexadecimal, bcrypt (internal/pkg/passwordx), and the signed tokens (golang-jwt).
use danshi_backend.Base.{ℤ, ℕ, Option, List, Bool, String}

pub data TokenType : Type 0 where
  access refresh : TokenType

-- `Claims` of internal/pkg/jwtx/jwtx.go, whose user is the subject read as a number.
pub record Claims : Type 0 where
  pub subject : Option ℤ
  pub type : TokenType
  pub session_id : ℤ
  pub expires : ℕ

pub record Externals : Type 0 where
  pub lower : String → String
  pub to_lower : String → String
  pub is_letter_or_number : ℕ → Bool
  pub parse_address : String → Option String
  pub nfkc : String → String
  pub hmac : String → String
  pub sha256 : String → String
  pub bcrypt : String → String
  pub bcrypt_matches : String → String → Bool
  pub sign : Claims → String
  pub verify_token : ℕ → String → Option Claims

-- `Config` and what the process is given to send mail with.
pub record Config : Type 0 where
  pub email_verification_required : Bool
  pub email_domains : List String
  pub sender_configured : Bool
  pub reset_sender_configured : Bool
  pub has_deliveries : Bool
  pub access_token_ttl : ℕ
  pub refresh_token_ttl : ℕ
