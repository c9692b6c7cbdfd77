-- ===== src/Accounts/Retries.antt =====
-- The delays of the delivery worker of internal/service/email_delivery.go.
use native.Mathlib.Nat.{pow-succ', mul_assoc, one-le-pow}
use danshi_backend.Base.{
  ltb, if◌then◌else◌, Bool-cases, ◌-◌, ℕ, arith, ◌^◌, ◌≤◌, inr, ◌*◌, ◌∙◌, zero, suc, inl, ◌≡◌, refl,
  ap,
}
use danshi_backend.Accounts.Deliveries.{day, doubled, retry_delay_of}

-- A delay is at most a day.
abbrev capped : ℕ → ℕ
capped delay = if ltb day delay then day else delay

le-mul-pow : (n k : ℕ) → n ≤ n * 2 ^ k
le-mul-pow n k = grind (arith, one-le-pow k 2 (omega arith))

one_more : (rounds delay : ℕ) → delay * 2 * 2 ^ rounds ≡ delay * 2 ^ suc rounds
one_more rounds delay = rw (pow-succ' 2 rounds, mul_assoc delay 2 (2 ^ rounds)) refl

doubled-pow : (rounds delay : ℕ) → capped (doubled rounds delay) ≡ capped (delay * 2 ^ rounds)
unfolding doubled
doubled-pow zero delay = let same : delay ≡ delay * 2 ^ 0 = omega arith in ap capped same
doubled-pow (suc rounds) delay = elim (Bool-cases (ltb delay day)) [
  | inl small ↦ rw small (doubled-pow rounds (delay * 2) ∙ ap capped (one_more rounds delay))
  | inr large ↦ rw large (
      let more = le-mul-pow delay (suc rounds) in
      let least : day ≤ delay = ground (arith, large) in
      both_capped delay (delay * 2 ^ suc rounds) least (omega (arith, least, more)))
]
  where
    both_capped : (a b : ℕ) → day ≤ a → day ≤ b → capped a ≡ capped b
    both_capped a b h k = ground (arith, h, k)

-- The delay before an attempt is the base, doubled with each attempt after the first, and at most a
-- day: the loop computes the closed form, whatever the base.
pub retry_delay_of-pow :
    (base attempts : ℕ)
    → retry_delay_of base attempts
      ≡ (let delay = base * 2 ^ (attempts - 1) in if ltb day delay then day else delay)
unfolding retry_delay_of
retry_delay_of-pow base attempts = doubled-pow (attempts - 1) base

pub retry_delay_of-le : (base attempts : ℕ) → retry_delay_of base attempts ≤ day
unfolding retry_delay_of
retry_delay_of-le base attempts = capped-le (doubled (attempts - 1) base)
  where
    capped-le : (n : ℕ) → (if ltb day n then day else n) ≤ day
    capped-le n = ground arith
