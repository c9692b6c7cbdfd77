-- ===== src/Comments/Sums.antt =====
-- Sums over the rows of a table, and what an UPDATE of one row by its key does to them.
use danshi_backend.Base.{
  ◌==◌, Bool-cases, if_rule, All, update_rows, All-update_rows, All-implies, ◌+◌, Bool, ap, true,
  arith, ◌++◌, ◌≡◌, false, refl, ◌∷◌, inl, inr, some, List, ℕ, sym, [],
}
use danshi_backend.Comments.Counters.{find_comment}
use danshi_backend.Comments.Data.{Comment}

abbrev pub sum_of {ℓ} : {A : Type ℓ} → (A → ℕ) → List A → ℕ
sum_of f [] = 0
sum_of f (x ∷ xs) = f x + sum_of f xs

pub sum_of-ext {ℓ} :
    {A : Type ℓ} (f g : A → ℕ) (xs : List A) → ((x : A) → f x ≡ g x) → sum_of f xs ≡ sum_of g xs
sum_of-ext f g [] h = refl
sum_of-ext f g (x ∷ xs) h = omega (arith, h x, sum_of-ext f g xs h)

pub sum_of-add {ℓ} :
    {A : Type ℓ} (f g : A → ℕ) (xs : List A)
    → sum_of (λ x. f x + g x) xs ≡ sum_of f xs + sum_of g xs
sum_of-add f g [] = refl
sum_of-add f g (x ∷ xs) = omega (arith, sum_of-add f g xs)

-- An UPDATE that leaves each summand alone leaves the sum alone.
pub sum_of-update_rows {ℓ} :
    {A : Type ℓ} (f : A → ℕ) (p : A → Bool) (u : A → A) (xs : List A)
    → ((x : A) → f (u x) ≡ f x)
    → sum_of f (update_rows p u xs) ≡ sum_of f xs
sum_of-update_rows f p u [] h = refl
sum_of-update_rows f p u (x ∷ xs) h =
    let rest = sum_of-update_rows f p u xs h in
    elim (Bool-cases (p x)) [
      | inl hit ↦ rw hit (omega (arith, h x, rest))
      | inr miss ↦ rw miss (omega (arith, rest))
    ]

pub sum_of-append {ℓ} :
    {A : Type ℓ} (f : A → ℕ) (xs ys : List A) → sum_of f (xs ++ ys) ≡ sum_of f xs + sum_of f ys
sum_of-append f [] ys = omega arith
sum_of-append f (x ∷ xs) ys = omega (arith, sum_of-append f xs ys)

abbrev pub has_id : ℕ → Comment → Bool
has_id id c = c.id == id

-- Every comment has a key of its own.
abbrev pub IsKeyed : List Comment → Type 0
IsKeyed [] = Unit
IsKeyed (c ∷ cs) = All (λ d. has_id c.id d ≡ false) cs × IsKeyed cs

pub update_rows_nowhere :
    (id : ℕ) (u : Comment → Comment) (cs : List Comment)
    → All (λ c. has_id id c ≡ false) cs
    → update_rows (has_id id) u cs ≡ cs
update_rows_nowhere id u [] h = refl
update_rows_nowhere id u (c ∷ cs) h = rw h.0 (ap (λ ds. c ∷ ds) (update_rows_nowhere id u cs h.1))

other_key :
    (id : ℕ) (c : Comment) (cs : List Comment)
    → has_id id c ≡ true
    → All (λ d. has_id c.id d ≡ false) cs
    → All (λ d. has_id id d ≡ false) cs
other_key id c cs hit h =
    All-implies (λ d. has_id c.id d ≡ false) (λ d. has_id id d ≡ false) cs
      (λ d k. ground (arith, hit, k)) h

-- An UPDATE of the row with a key changes the sum by what it changes of that row.
pub sum_of-update_comment :
    (f : Comment → ℕ) (id : ℕ) (u : Comment → Comment) (cs : List Comment) {old : Comment}
    → IsKeyed cs
    → find_comment id cs ≡ some old
    → sum_of f (update_rows (has_id id) u cs) + f old ≡ sum_of f cs + f (u old)
sum_of-update_comment f id u [] keys e = cc e
sum_of-update_comment f id u (c ∷ cs) {old} keys e = elim (Bool-cases (has_id id c)) [
  | inl hit ↦
      let same : c ≡ old = cc (rw hit at e) in
      rw (hit, update_rows_nowhere id u cs (other_key id c cs hit keys.0), sym same) (omega arith)
  | inr miss ↦ rw miss (omega (arith, sum_of-update_comment f id u cs keys.1 (rw miss at e)))
]

-- A sum of what only the row with a key has is what that row has.
pub sum_of-only :
    (g : Comment → ℕ) (id : ℕ) (cs : List Comment) {c : Comment}
    → IsKeyed cs
    → ((d : Comment) → has_id id d ≡ false → g d ≡ 0)
    → find_comment id cs ≡ some c
    → sum_of g cs ≡ g c
sum_of-only g id [] keys h e = cc e
sum_of-only g id (d ∷ cs) {c} keys h e = elim (Bool-cases (has_id id d)) [
  | inl hit ↦
      let same : d ≡ c = cc (rw hit at e) in
      let rest = nothing_left cs (other_key id d cs hit keys.0) in omega (arith, rest, ap g same)
  | inr miss ↦ omega (arith, h d miss, sum_of-only g id cs keys.1 h (rw miss at e))
]
  where
    nothing_left : (ds : List Comment) → All (λ d. has_id id d ≡ false) ds → sum_of g ds ≡ 0
    nothing_left [] k = refl
    nothing_left (d ∷ ds) k = omega (arith, h d k.0, nothing_left ds k.1)

-- An UPDATE that keeps keys keeps them apart.
pub update_rows-IsKeyed :
    (p : Comment → Bool) (u : Comment → Comment) (cs : List Comment)
    → ((c : Comment) → (u c).id ≡ c.id)
    → IsKeyed cs
    → IsKeyed (update_rows p u cs)
update_rows-IsKeyed p u [] same h = tt
update_rows-IsKeyed p u (c ∷ cs) same h = (
  if_rule (λ (x : Comment). All (λ d. has_id x.id d ≡ false) (update_rows p u cs)) (p c)
      (λ _. rw (same c) apart) (λ _. apart),
  update_rows-IsKeyed p u cs same h.1,
)
  where
    apart : All (λ d. has_id c.id d ≡ false) (update_rows p u cs)
    apart =
        All-update_rows (λ d. has_id c.id d ≡ false) (λ d. has_id c.id d ≡ false) p u cs
          (λ d k _. rw (same d) k) (λ d k _. k) h.0
