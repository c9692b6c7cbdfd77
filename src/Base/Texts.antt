-- ===== src/Base/Texts.antt =====
-- The functions of Go's package strings that the services use.
use Prim.Native.Nat.{ℕ, ◌-◌}
use Prim.Native.Char.{code}
use Prim.Native.String.{String, len, slice, ◌++◌}
use mathlib.Core.Bool.{Bool, true, false, ◌&&◌, ◌||◌}
use mathlib.Core.Path.{◌≡◌, subst}
use mathlib.Core.Logic.{inl, inr}
use text.Mathlib.TextEquality.{eq_iff}
use text.Mathlib.Text.{◌==◌ as str_eq}
use danshi_backend.Base.Tests.{Bool-cases, ltb, leb, ◌==◌, if◌then◌else◌}

-- unicode.IsSpace.
abbrev pub is_space : ℕ → Bool
is_space c =
    leb 9 c && leb c 13
    || c == 32
    || c == 133
    || c == 160
    || c == 5760
    || leb 8192 c && leb c 8202
    || c == 8232
    || c == 8233
    || c == 8239
    || c == 8287
    || c == 12288

-- `strings.TrimSpace(s) == ""`.
abbrev pub is_blank : String → Bool
is_blank String.[] = true
is_blank (String.◌∷◌ c s) = is_space (code c) && is_blank s

-- `strings.HasSuffix`.
abbrev pub ends_with : String → String → Bool
ends_with s t = if ltb (len s) (len t) then false else str_eq (slice s (len s - len t) (len s)) t

pub is_blank-empty : (s : String) → is_blank s ≡ false → str_eq s "" ≡ false
is_blank-empty s h = elim (Bool-cases (str_eq s "")) [
  | inl e ↦ cc (subst (λ t. is_blank t ≡ false) ((eq_iff s "").0 e) h)
  | inr e ↦ e
]

-- Go's `+` on texts.
infixr 65 ◌+++◌
abbrev pub ◌+++◌ : String → String → String
s +++ t = s ++ t
