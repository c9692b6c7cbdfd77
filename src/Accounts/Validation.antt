-- ===== src/Accounts/Validation.antt =====
-- Input of accounts: internal/service/auth_validation.go and `Normalize` and `ValidCharacters` of
-- internal/pkg/usernamepolicy/policy.go.
use Prim.Native.Char.{code}
use Prim.Native.String.{len}
use danshi_backend.Base.{
  ltb, leb, ◌==◌, if◌then◌else◌, is_some, or_else, any, is_space, is_blank, ◌+++◌, Result, ok, err,
  ℕ, str_eq, zero, Option, false, true, suc, List, ◌+◌, Bool, none, ◌&&◌, ◌||◌, not, ◌∷◌, String,
  some, [],
}
use danshi_backend.Accounts.Data.{Gender, male, female, other_gender}
use danshi_backend.Accounts.Externals.{Externals, Config}
use danshi_backend.Accounts.Requests.{
  invalid_format, invalid_field, AccountError, required, too_short, too_long,
}

-- `strings.TrimSpace`.
abbrev pub trim_left : String → String
trim_left String.[] = String.[]
trim_left (String.◌∷◌ c s) = if is_space (code c) then trim_left s else String.◌∷◌ c s

abbrev pub trim_right : String → String
trim_right String.[] = String.[]
trim_right (String.◌∷◌ c s) =
    if is_blank (String.◌∷◌ c s) then String.[] else String.◌∷◌ c (trim_right s)

abbrev pub trim_space : String → String
trim_space s = trim_right (trim_left s)

-- Go's `len`: the bytes of the text in UTF-8.
abbrev pub utf8_width : ℕ → ℕ
utf8_width c = if ltb c 128 then 1 else if ltb c 2048 then 2 else if ltb c 65536 then 3 else 4

abbrev pub byte_len : String → ℕ
byte_len String.[] = 0
byte_len (String.◌∷◌ c s) = utf8_width (code c) + byte_len s

abbrev pub count_char : ℕ → String → ℕ
count_char n String.[] = 0
count_char n (String.◌∷◌ c s) = (if code c == n then 1 else 0) + count_char n s

-- `emailDomain`: what follows the first "@".
abbrev pub email_domain : String → String
email_domain String.[] = String.[]
email_domain (String.◌∷◌ c s) = if code c == 64 then s else email_domain s

-- `FieldsFunc` at spaces and `Join` by one, on a text that neither starts nor ends with a space.
abbrev pub squeeze : Bool → String → String
squeeze gap String.[] = String.[]
squeeze gap (String.◌∷◌ c s) =
    let rest = squeeze (code c == 32) s in
    if code c == 32 then rest else if gap then " " +++ String.◌∷◌ c rest else String.◌∷◌ c rest

abbrev pub all_chars : (ℕ → Bool) → String → Bool
all_chars p String.[] = true
all_chars p (String.◌∷◌ c s) = p (code c) && all_chars p s

abbrev pub is_digit : ℕ → Bool
is_digit c = leb 48 c && leb c 57

abbrev pub reserved_usernames : List String
reserved_usernames =
    "admin" ∷ "administrator" ∷ "official" ∷ "support" ∷ "system" ∷ "security" ∷ "danshi" ∷ []

module _ (x : Externals) where
  -- `normalizeEmail`.
  unfoldable pub normalize_email : String → Result AccountError String
  normalize_email raw =
      let email = x.to_lower (trim_space raw) in
      if str_eq (or_else (x.parse_address email) "") email
        && is_some (x.parse_address email)
        && count_char 64 email == 1
        && leb (byte_len email) 255
      then ok email
      else err (invalid_field "email" invalid_format)

  -- `domainAllowed`.
  abbrev pub domain_allowed : Config → String → Bool
  domain_allowed cfg email = any (λ d. str_eq (email_domain email) d) cfg.email_domains

  abbrev pub normalize_spaces : String → String
  normalize_spaces raw = squeeze false (trim_space (x.nfkc raw))

  abbrev pub valid_characters : String → Bool
  valid_characters name =
      all_chars (λ c. c == 32 || c == 95 || x.is_letter_or_number c) name && not (str_eq name "")

  abbrev pub reserved_username : String → Bool
  reserved_username name = any (λ r. str_eq (x.to_lower name) r) reserved_usernames

  -- `normalizeUsername`.
  unfoldable pub normalize_username : String → Result AccountError String
  normalize_username raw =
      let name = normalize_spaces raw in
      if len name == 0
      then err (invalid_field "username" required)
      else if ltb (len name) 2
      then err (invalid_field "username" too_short)
      else if ltb 24 (len name)
      then err (invalid_field "username" too_long)
      else if not (valid_characters name)
      then err (invalid_field "username" invalid_format)
      else if reserved_username name
      then err (invalid_field "username" invalid_format)
      else ok name

-- `validatePasswordField`.
abbrev pub validate_password : String → String → Bool → Result AccountError (Unit {0})
validate_password field password registering =
    if str_eq password ""
    then err (invalid_field field required)
    else if not registering
    then ok tt
    else if ltb (len password) 8
    then err (invalid_field field too_short)
    else if ltb 64 (len password) || ltb 72 (byte_len password)
    then err (invalid_field field too_long)
    else ok tt

-- `validateVerificationCode`.
abbrev pub validate_code : Option String → Result AccountError (Unit {0})
validate_code none = err (invalid_field "verification_code" required)
validate_code (some code) =
    if str_eq code ""
    then err (invalid_field "verification_code" required)
    else if not (byte_len code == 6) || not (all_chars is_digit code)
    then err (invalid_field "verification_code" invalid_format)
    else ok tt

-- `truncateRunes`.
abbrev pub take_chars : ℕ → String → String
take_chars zero s = String.[]
take_chars (suc n) String.[] = String.[]
take_chars (suc n) (String.◌∷◌ c s) = String.◌∷◌ c (take_chars n s)

-- `validGender`, on the texts of the request.
abbrev pub gender_of : String → Option Gender
gender_of s =
    if str_eq s "male"
    then some male
    else if str_eq s "female"
    then some female
    else if str_eq s "other"
    then some other_gender
    else none

-- `optionalString`.
abbrev pub optional_string : String → ℕ → Option String
optional_string value limit =
    let trimmed = trim_space value in
    if str_eq trimmed "" then none else some (take_chars limit trimmed)
