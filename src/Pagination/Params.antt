-- ===== src/Pagination/Params.antt =====
-- Parsing and arithmetic of internal/pkg/pagination/pagination.go. A Go `int` has 64 bits.
use Prim.Native.Char.{code}
use danshi_backend.Base.{
  ltb, leb, ◌==◌, if◌then◌else◌, ℤ, pos, negsuc, Result, ◌>>=◌, ok, err, suc, ℕ, String, zero, none,
  Option, str_eq, ◌&&◌, ◌^◌, ◌*◌, ◌/◌, ◌%◌, ◌-◌, some, ◌+◌,
}

pub data FieldCode : Type 0 where
  invalid_format out_of_range : FieldCode

pub record Params : Type 0 where
  pub page : ℕ
  pub limit : ℕ

abbrev pub int_limit : ℕ
int_limit = 2 ^ 63

-- The value of a text of decimal digits, at least one of them, after what is read already.
unfoldable pub digits : ℕ → String → Option ℕ
digits n String.[] = some n
digits n (String.◌∷◌ c s) =
    let rest = digits (n * 10 + (code c - 48)) s in
    if leb 48 (code c) && leb (code c) 57 then rest else none

abbrev pub unsigned : String → Option ℕ
unsigned String.[] = none
unsigned (String.◌∷◌ c s) = digits 0 (String.◌∷◌ c s)

abbrev pub positive : Option ℕ → Option ℤ
positive none = none
positive (some n) = if ltb n int_limit then some (pos n) else none

abbrev pub negative : Option ℕ → Option ℤ
negative none = none
negative (some zero) = some (pos 0)
negative (some (suc n)) = if ltb n int_limit then some (negsuc n) else none

-- `strconv.Atoi`: an optional sign, digits, and a value within 64 bits.
unfoldable pub atoi : String → Option ℤ
unfolding digits
atoi String.[] = none
atoi (String.◌∷◌ c s) =
    if code c == 45
    then negative (unsigned s)
    else if code c == 43
    then positive (unsigned s)
    else positive (unsigned (String.◌∷◌ c s))

-- `parseOne`, where `maximum` 0 stands for no maximum.
unfoldable pub parse_one : String → (default_value minimum maximum : ℕ) → Result FieldCode ℕ
parse_one raw default_value minimum maximum =
    if str_eq raw "" then ok default_value else (elim (atoi raw) [
      | none ↦ err invalid_format
      | some (negsuc n) ↦ err out_of_range
      | some (pos n) ↦
          if ltb n minimum
          then err out_of_range
          else if ltb 0 maximum && ltb maximum n
          then err out_of_range
          else ok n
    ])

abbrev pub default_limit : ℕ
default_limit = 20

abbrev pub max_limit : ℕ
max_limit = 100

-- `Parse`.
unfoldable pub parse : String → String → Result FieldCode Params
unfolding parse_one
parse raw_page raw_limit = do
  page ← parse_one raw_page 1 1 0
  limit ← parse_one raw_limit default_limit 1 max_limit
  ok (record { page = page; limit = limit })

-- A Go int that is not negative, and one that is: the low 64 bits, read with a sign.
abbrev pub wrap : ℕ → ℤ
wrap n = let low = n % 2 ^ 64 in if ltb low int_limit then pos low else negsuc (2 ^ 64 - 1 - low)

abbrev pub wrap_negative : ℕ → ℤ
wrap_negative n = wrap (2 ^ 64 - n % 2 ^ 64)

-- `Offset`; for the page 0, the difference is -1.
abbrev pub offset : Params → ℤ
offset p = if p.page == 0 then wrap_negative p.limit else wrap ((p.page - 1) * p.limit)

-- The number of pages that `NewMeta` computes, for a total far below 2 ^ 63.
abbrev pub total_pages : Params → ℕ → ℕ
total_pages p total = if ltb 0 p.limit then (total + p.limit - 1) / p.limit else 0
