-- ===== src/Accounts/Attempts.antt =====
-- Guessing a code: `consumeVerification` of internal/service/auth.go.
use danshi_backend.Base.{
  leb, ◌==◌, if◌then◌else◌, ==_iff, Option-cases, is_some, All, Result, ok, err,
  find_first-update_rows, List, str_eq, refl, inl, ◌||◌, ◌≤◌, true, not, none, inr, String, false,
  ℕ, ◌∷◌, ◌-◌, ◌≡◌, ◌+◌, Bool, [], arith, Option, ◌&&◌, some, sym,
}
use danshi_backend.Accounts.Codes.{
  max_failed_attempts, saved, save_state, digest_of, is_challenge, lock_existing, judge,
  consume_verification,
}
use danshi_backend.Accounts.Data.{VerificationPurpose, EmailVerificationCode, Accounts}
use danshi_backend.Accounts.Externals.{Externals}
use danshi_backend.Accounts.Requests.{◌>>◌, AccountError, Request, proceed, is_kept, after, Keeps}

-- What a guesser meets: nothing to guess, or a code with its digest, its end and the tries left.
pub data Guess : Type 0 where
  closed : Guess
  open_code : (digest : String) (until left : ℕ) → Guess

-- One try with the digest of a code, and whether it is accepted.
abbrev pub try_code : String → ℕ → Guess → Bool × Guess
try_code digest now closed = (false, closed)
try_code digest now (open_code d until left) =
    if leb until now
    then (false, open_code d until left)
    else if str_eq d digest
    then (true, closed)
    else (false, if leb left 1 then closed else open_code d until (left - 1))

abbrev pub guess_of : Option EmailVerificationCode → Guess
guess_of none = closed
guess_of (some c) =
    if is_some c.consumed_at || leb max_failed_attempts c.failed_attempts
    then closed
    else open_code c.code_digest c.expires_at (max_failed_attempts - c.failed_attempts)

-- A try is compared with the code while there is one that has not run out.
abbrev pub is_compared : ℕ → Guess → Bool
is_compared now closed = false
is_compared now (open_code d until left) = not (leb until now)

abbrev pub one_if : Bool → ℕ
one_if b = if b then 1 else 0

abbrev chances : Guess → ℕ
chances closed = 0
chances (open_code d until left) = 1

abbrev tries_left : Guess → ℕ
tries_left closed = 0
tries_left (open_code d until left) = if left == 0 then 1 else left

try_code_costs :
    (digest : String) (now : ℕ) (g : Guess)
    → let tried = try_code digest now g in
      (one_if tried.0 + chances tried.1 ≤ chances g)
      × (one_if (is_compared now g) + tries_left tried.1 ≤ tries_left g)
try_code_costs digest now closed = (omega arith, omega arith)
try_code_costs digest now (open_code d until left) = ground arith

guess_bounds :
    (o : Option EmailVerificationCode)
    → (chances (guess_of o) ≤ 1) × (tries_left (guess_of o) ≤ max_failed_attempts)
guess_bounds none = (omega arith, omega arith)
guess_bounds (some c) = ground arith

abbrev pub succeeds : {A : Type 0} → Result AccountError A → Bool
succeeds (ok a) = true
succeeds (err e) = false

-- The costs of a try are those of its request, which may be rolled back after the check.
costs_in_all :
    (before tried left : Guess) (granted accepted kept compared : Bool)
    → (granted && not accepted) ≡ false
    → left ≡ (if accepted && not kept then before else tried)
    → (kept && not compared) ≡ false
    → (granted && not kept) ≡ false
    → one_if accepted + chances tried ≤ chances before
    → one_if compared + tries_left tried ≤ tries_left before
    → (one_if granted + chances left ≤ chances before)
      × (one_if kept + tries_left left ≤ tries_left before)
costs_in_all before tried left granted accepted true compared only e k whole one two =
    ground (arith, only, e, k, one, two)
costs_in_all before tried left granted true false compared only e k whole one two =
    ground (arith, e, whole)
costs_in_all before tried left granted false false compared only e k whole one two =
    ground (arith, only, e, one, two)

module _ (x : Externals) (purpose : VerificationPurpose) (email : String) where
  abbrev pub view : Accounts → Guess
  view s = guess_of (lock_existing x email purpose s)

  pub lock_existing-save_state :
      (s : Accounts) (c c' : EmailVerificationCode) (now : ℕ)
      → lock_existing x email purpose s ≡ some c
      → c'.id ≡ c.id
      → lock_existing x email purpose (save_state c' now s) ≡ some (saved c' now c)
  unfolding save_state
  lock_existing-save_state s c c' now h same =
      let found =
        find_first-update_rows (is_challenge x email purpose)
          (λ (row : EmailVerificationCode). row.id == c'.id) (saved c' now) s.codes (λ row. refl) in
      let hit : (c.id == c'.id) ≡ true = (==_iff _ _).1 (sym same) in rw (h, hit) at found

  judge-refines :
      (code : String) (now : ℕ) (s : Accounts) (c : EmailVerificationCode)
      → lock_existing x email purpose s ≡ some c
      → let m = judge x purpose email code now c in
        (succeeds (m s).0 ≡ (try_code (digest_of x purpose email code) now (guess_of (some c))).0)
        × (view (after m s) ≡ (try_code (digest_of x purpose email code) now (guess_of (some c))).1)
  judge-refines code now s c h = ground (
    arith,
    h,
    lock_existing-save_state s c (record c { consumed_at = some now }) now h refl,
    lock_existing-save_state s c (record c { failed_attempts = c.failed_attempts + 1 }) now h refl,
  )

  consume_verification-tried :
      (code : String) (now : ℕ) (s : Accounts)
      → let m = consume_verification x purpose email code now in
        let tried = try_code (digest_of x purpose email code) now (view s) in
        (succeeds (m s).0 ≡ tried.0) × (view (after m s) ≡ tried.1)
  unfolding consume_verification
  consume_verification-tried code now s = elim (Option-cases (lock_existing x email purpose s)) [
    | inl e ↦ rw e (rw e (refl, refl))
    | inr (c, e) ↦ rw e (judge-refines code now s c e)
  ]

  judge-is_kept :
      (code : String) (now : ℕ) (s : Accounts) (c : EmailVerificationCode)
      → is_kept (judge x purpose email code now c s).0 ≡ is_compared now (guess_of (some c))
  judge-is_kept code now s c = ground arith

  consume_verification-is_kept :
      (code : String) (now : ℕ) (s : Accounts)
      → is_kept (consume_verification x purpose email code now s).0 ≡ is_compared now (view s)
  unfolding consume_verification
  consume_verification-is_kept code now s = elim (Option-cases (lock_existing x email purpose s)) [
    | inl e ↦ rw e refl
    | inr (c, e) ↦ rw e (judge-is_kept code now s c)
  ]

  -- What a request does after its check leaves the challenge alone.
  abbrev pub Leaves : {A : Type 0} → Request A → Type 0
  Leaves k = (g : Guess) → Keeps (λ s. view s ≡ g) k

  proceed-guess :
      {A : Type 0} (r : Result AccountError (Unit {0})) (s s1 : Accounts) (k : Request A)
      (g : Guess)
      → Leaves k
      → view (if is_kept r then s1 else s) ≡ g
      → let m : Request A = λ _. proceed r s1 (λ _. k) in
        ((succeeds (m s).0 && not (succeeds r)) ≡ false)
        × (view (after m s) ≡ (if succeeds r && not (is_kept (m s).0) then view s else g))
        × ((is_kept (m s).0 && not (is_kept r)) ≡ false)
        × ((succeeds (m s).0 && not (is_kept (m s).0)) ≡ false)
  proceed-guess (ok u) s s1 k g leaves h = ground (arith, (leaves g).keeps s1 h, h)
  proceed-guess (err e) s s1 k g leaves h = ground (arith, h)

  -- A request that goes on with `k` after `consumeVerification`, and does not touch the code there,
  -- refines the guesser's game. It succeeds only where the try is accepted, and its transaction leaves
  -- the code as the try leaves it, a failure counted or the code used up; but an accepted try whose
  -- request is rolled back later (a registration whose name is refused, say) leaves the code as it was.
  pub consume_verification-refines :
      {A : Type 0} (k : Request A) (code : String) (now : ℕ) (s : Accounts)
      → Leaves k
      → let m = consume_verification x purpose email code now >> k in
        let tried = try_code (digest_of x purpose email code) now (view s) in
        ((succeeds (m s).0 && not tried.0) ≡ false)
        × (view (after m s) ≡ (if tried.0 && not (is_kept (m s).0) then view s else tried.1))
  consume_verification-refines k code now s leaves =
      let c = consume_verification x purpose email code now in
      let (answered, left) = consume_verification-tried code now s in
      let (only, then_left, _, _) = proceed-guess (c s).0 s (c s).1 k _ leaves left in
      (rw answered at only, rw answered at then_left)

  -- Requests that try a code: each with its code, its time, and what it does after the check.
  abbrev pub Tries : Type 0 → Type 0
  Tries A = List (String × ℕ × Request A)

  abbrev pub trying : {A : Type 0} → String × ℕ × Request A → Request A
  trying (code, now, k) = consume_verification x purpose email code now >> k

  -- How many of them succeed, and how many change the tables, as a failure that is counted does.
  abbrev pub tries_accepted : {A : Type 0} → Tries A → Accounts → ℕ
  tries_accepted [] s = 0
  tries_accepted (t ∷ ts) s =
      one_if (succeeds (trying t s).0) + tries_accepted ts (after (trying t) s)

  abbrev pub tries_kept : {A : Type 0} → Tries A → Accounts → ℕ
  tries_kept [] s = 0
  tries_kept (t ∷ ts) s = one_if (is_kept (trying t s).0) + tries_kept ts (after (trying t) s)

  trying_costs :
      {A : Type 0} (k : Request A) (code : String) (now : ℕ) (s : Accounts)
      → Leaves k
      → let m = trying (code, now, k) in
        (one_if (succeeds (m s).0) + chances (view (after m s)) ≤ chances (view s))
        × (one_if (is_kept (m s).0) + tries_left (view (after m s)) ≤ tries_left (view s))
  trying_costs k code now s leaves =
      let c = consume_verification x purpose email code now in
      let (answered, left) = consume_verification-tried code now s in
      let compared = consume_verification-is_kept code now s in
      let (only, then_left, kept, whole) = proceed-guess (c s).0 s (c s).1 k _ leaves left in
      let (one, two) = try_code_costs (digest_of x purpose email code) now (view s) in
      costs_in_all (view s) _ _ _ _ _ _ (rw answered at only) (rw answered at then_left)
        (rw compared at kept) whole one two

  tries_bounded :
      {A : Type 0} (ts : Tries A) (s : Accounts)
      → All (λ t. Leaves t.2) ts
      → (tries_accepted ts s ≤ chances (view s)) × (tries_kept ts s ≤ tries_left (view s))
  tries_bounded [] s h = (omega arith, omega arith)
  tries_bounded ((code, now, k) ∷ ts) s h =
      let one = trying_costs k code now s h.0 in
      let rest = tries_bounded ts (after (trying (code, now, k)) s) h.1 in
      (omega (arith, rest.0, one.0), omega (arith, rest.1, one.1))

  -- Between two codes that are sent for an address and a purpose, among any sequence of requests that
  -- check a code and then go on with anything that leaves the code alone, as Register and
  -- ResetPassword do, at most one succeeds, and at most five have their transaction kept, whether they
  -- succeed or leave a counted failure behind.
  pub consume_verification-tries :
      {A : Type 0} (ts : Tries A) (s : Accounts)
      → All (λ t. Leaves t.2) ts
      → (tries_accepted ts s ≤ 1) × (tries_kept ts s ≤ max_failed_attempts)
  consume_verification-tries ts s h =
      let (one, five) = tries_bounded ts s h in
      let (a, b) = guess_bounds (lock_existing x email purpose s) in
      (omega (arith, one, a), omega (arith, five, b))
