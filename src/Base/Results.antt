-- ===== src/Base/Results.antt =====
-- What a call returns that may fail, and its do notation.
use mathlib.Core.Path.{◌≡◌, refl}
use mathlib.Core.Bool.{Bool, true, false}
use mathlib.Core.Logic.{◌⊎◌, inl, inr}
use danshi_backend.Base.Tests.{if◌then◌else◌}

pub data Result {ℓ κ} (E : Type ℓ) (A : Type κ) : Type (ℓ ⊔ κ) where
  ok : A → Result E A
  err : E → Result E A

module _ {ℓ κ μ} {E : Type ℓ} {A : Type κ} {B : Type μ} where
  infixl 5 ◌>>=◌
  abbrev pub ◌>>=◌ : Result E A → (A → Result E B) → Result E B
  ok a >>= f = f a
  err e >>= f = err e

module _ {ℓ μ} {E : Type ℓ} {B : Type μ} where
  infixl 5 ◌>>◌
  abbrev pub ◌>>◌ : Result E (Unit {0}) → Result E B → Result E B
  ok a >> r = r
  err e >> r = err e

pub Result-cases {ℓ κ} :
    {E : Type ℓ} {A : Type κ} (r : Result E A) → ((a : A) × (r ≡ ok a)) ⊎ ((e : E) × (r ≡ err e))
Result-cases (ok a) = inl (a, refl)
Result-cases (err e) = inr (e, refl)

pub ok_injective {ℓ κ} :
    {E : Type ℓ} {A : Type κ} {a b : A} → ◌≡◌ {A = Result E A} (ok a) (ok b) → a ≡ b
ok_injective h = cc h

-- A sequence succeeds only where both of its parts do.
pub bind-eq_ok {ℓ κ μ} :
    {E : Type ℓ} {A : Type κ} {B : Type μ} (r : Result E A) (f : A → Result E B) {b : B}
    → (r >>= f) ≡ ok b
    → (a : A) × (r ≡ ok a) × (f a ≡ ok b)
bind-eq_ok (ok a) f h = (a, refl, h)
bind-eq_ok (err e) f h = cc h

pub then-eq_ok {ℓ μ} :
    {E : Type ℓ} {B : Type μ} (r : Result E (Unit {0})) (q : Result E B) {b : B}
    → (r >> q) ≡ ok b
    → (r ≡ ok tt) × (q ≡ ok b)
then-eq_ok (ok tt) q h = (refl, h)
then-eq_ok (err e) q h = cc h

-- A guard succeeds only where its test does.
pub guard-eq_ok {ℓ κ} :
    {E : Type ℓ} {A : Type κ} (b : Bool) (e : E) {a a' : A}
    → (if b then ok a else err e) ≡ ok a'
    → (b ≡ true) × (a' ≡ a)
guard-eq_ok true e h = (refl, cc h)
guard-eq_ok false e h = cc h
