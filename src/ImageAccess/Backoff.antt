-- ===== src/ImageAccess/Backoff.antt =====
-- `retryBackoff` of internal/service/image_access_worker.go, which both image workers use. Durations
-- are nanoseconds; those in use stay far below 2 ^ 62, where doubling an int64 would overflow.
use native.Mathlib.Nat.{pow-succ', mul_assoc, one-le-pow}
use danshi_backend.Base.{
  ℕ, zero, suc, ◌-◌, ◌*◌, ◌^◌, ◌≤◌, min, ◌≡◌, sym, arith, leb, ltb, if◌then◌else◌,
}

abbrev pub second : ℕ
second = 1_000_000_000

abbrev pub minute : ℕ
minute = 60_000_000_000

-- The loop, on the rounds that are left.
unfoldable pub backoff_loop : ℕ → ℕ → ℕ → ℕ
backoff_loop zero delay maximum = min delay maximum
backoff_loop (suc rounds) delay maximum =
    let rest = backoff_loop rounds (delay * 2) maximum in
    if ltb delay maximum
    then (if leb maximum (delay * 2) then maximum else rest)
    else min delay maximum

unfoldable pub retry_backoff : ℕ → ℕ → ℕ → ℕ
unfolding backoff_loop
retry_backoff attempt base maximum =
    backoff_loop ((if ltb attempt 1 then 1 else attempt) - 1) base maximum

le-mul-pow : (n k : ℕ) → n ≤ n * 2 ^ k
le-mul-pow n k = grind (arith, one-le-pow k 2 (omega arith))

backoff_loop-min :
    (rounds delay maximum : ℕ)
    → backoff_loop rounds delay maximum ≡ min (delay * 2 ^ rounds) maximum
unfolding backoff_loop
backoff_loop-min zero delay maximum = omega arith
backoff_loop-min (suc k) delay maximum =
    let e : delay * 2 ^ suc k ≡ delay * 2 * 2 ^ k =
      rw (pow-succ' 2 k) (sym (mul_assoc delay 2 (2 ^ k))) in
    rw e (ground (arith, backoff_loop-min k (delay * 2) maximum, le-mul-pow (delay * 2) k))

-- The backoff is the base doubled once for each attempt after the first, and at most the maximum,
-- for every attempt, base and maximum.
pub retry_backoff-min :
    (attempt base maximum : ℕ)
    → retry_backoff attempt base maximum ≡ min (base * 2 ^ (attempt - 1)) maximum
unfolding retry_backoff
retry_backoff-min zero base maximum = backoff_loop-min 0 base maximum
retry_backoff-min (suc n) base maximum =
    let e : (if ltb (suc n) 1 then 1 else suc n) - 1 ≡ n = ground arith in
    let e' : suc n - 1 ≡ n = omega arith in rw (e, e') (backoff_loop-min n base maximum)
