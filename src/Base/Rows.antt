-- ===== src/Base/Rows.antt =====
-- Tables as lists of rows: the first row that a query finds, an UPDATE with its WHERE clause, and
-- what passes through them.
use Prim.Native.Nat.{ℕ, ◌+◌}
use mathlib.Core.Path.{◌≡◌, refl, subst}
use mathlib.Core.Bool.{Bool, true, false}
use mathlib.Core.Option.{Option, none, some}
use mathlib.Core.Logic.{inl, inr}
use mathlib.Core.List.{List, [], ◌∷◌, ◌++◌}
use native.Mathlib.Omega.{arith}
use danshi_backend.Base.Tests.{if◌then◌else◌, Bool-cases, if_rule}
use danshi_backend.Base.Lists.{All}

module _ {ℓ} {A : Type ℓ} where
  abbrev pub find_first : (A → Bool) → List A → Option A
  find_first p [] = none
  find_first p (x ∷ xs) = if p x then some x else find_first p xs

  abbrev pub update_rows : (A → Bool) → (A → A) → List A → List A
  update_rows p u [] = []
  update_rows p u (x ∷ xs) = (if p x then u x else x) ∷ update_rows p u xs

  -- The number of rows that an UPDATE changes.
  abbrev pub count_rows : (A → Bool) → List A → ℕ
  count_rows p [] = 0
  count_rows p (x ∷ xs) = (if p x then 1 else 0) + count_rows p xs

  pub All-update_rows {κ μ} :
      (P : A → Type κ) (Q : A → Type μ) (p : A → Bool) (u : A → A) (xs : List A)
      → ((x : A) → P x → p x ≡ true → Q (u x))
      → ((x : A) → P x → p x ≡ false → Q x)
      → All P xs
      → All Q (update_rows p u xs)
  All-update_rows P Q p u [] hit miss h = tt
  All-update_rows P Q p u (x ∷ xs) hit miss h =
      (if_rule Q (p x) (hit x h.0) (miss x h.0), All-update_rows P Q p u xs hit miss h.1)

  pub All-append_rows {κ} :
      (P : A → Type κ) (xs ys : List A) → All P xs → All P ys → All P (xs ++ ys)
  All-append_rows P [] ys h k = k
  All-append_rows P (x ∷ xs) ys h k = (h.0, All-append_rows P xs ys h.1 k)

  pub All-implies {κ μ} :
      (P : A → Type κ) (Q : A → Type μ) (xs : List A) → ((x : A) → P x → Q x) → All P xs → All Q xs
  All-implies P Q [] f h = tt
  All-implies P Q (x ∷ xs) f h = (f x h.0, All-implies P Q xs f h.1)

  pub All-find_first {κ} :
      (P : A → Type κ) (p : A → Bool) (xs : List A) {x : A}
      → All P xs
      → find_first p xs ≡ some x
      → P x
  All-find_first P p [] h e = cc e
  All-find_first P p (y ∷ ys) {x} h e = elim (Bool-cases (p y)) [
    | inl hit ↦ let same : y ≡ x = cc (rw hit at e) in subst P same h.0
    | inr miss ↦ All-find_first P p ys h.1 (rw miss at e)
  ]

  -- What a query finds passes its test.
  pub find_first-test : (p : A → Bool) (xs : List A) {x : A} → find_first p xs ≡ some x → p x ≡ true
  find_first-test p [] e = cc e
  find_first-test p (y ∷ ys) {x} e = elim (Bool-cases (p y)) [
    | inl hit ↦ let same : y ≡ x = cc (rw hit at e) in subst (λ z. p z ≡ true) same hit
    | inr miss ↦ find_first-test p ys (rw miss at e)
  ]

  -- An UPDATE that leaves the test of a query alone changes the row that the query finds.
  pub find_first-update_rows :
      (q p : A → Bool) (u : A → A) (xs : List A)
      → ((x : A) → q (u x) ≡ q x)
      → find_first q (update_rows p u xs)
        ≡ elim (find_first q xs) [ none ↦ none | some x ↦ some (if p x then u x else x) ]
  find_first-update_rows q p u [] k = refl
  find_first-update_rows q p u (x ∷ xs) k = ground (arith, k x, find_first-update_rows q p u xs k)

  pub find_first-append :
      (q : A → Bool) (xs ys : List A)
      → find_first q (xs ++ ys)
        ≡ elim (find_first q xs) [ none ↦ find_first q ys | some x ↦ some x ]
  find_first-append q [] ys = refl
  find_first-append q (x ∷ xs) ys = ground (arith, find_first-append q xs ys)
