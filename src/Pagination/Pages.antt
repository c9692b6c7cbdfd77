-- ===== src/Pagination/Pages.antt =====
-- What a client gets from internal/pkg/pagination/pagination.go.
use Prim.Native.Char.{code}
use native.Mathlib.Nat.{le-div_iff_mul-le}
use danshi_backend.Base.{
  ltb, ◌==◌, Bool-cases, pos, bind-eq_ok, ok, inr, arith, suc, ℕ, ap, String, subst, ◌<◌, ◌∙◌, ◌≤◌,
  zero, none, sym, Option, true, ◌↔◌, false, ◌*◌, refl, ◌/◌, inl, ◌-◌, some, ◌≡◌, ◌+◌,
}
use danshi_backend.Accounts.Requests.{done}
use danshi_backend.Pagination.Params.{
  Params, int_limit, unsigned, positive, negative, atoi, parse_one, default_limit, max_limit, parse,
  wrap, offset, total_pages,
}

parse_one-bounds :
    (raw : String) (default_value minimum maximum n : ℕ)
    → parse_one raw default_value minimum maximum ≡ ok n
    → minimum ≤ default_value
    → (ltb 0 maximum ≡ true → default_value ≤ maximum)
    → (minimum ≤ n) × (ltb 0 maximum ≡ true → n ≤ maximum)
unfolding parse_one
parse_one-bounds raw default_value minimum maximum n h lo hi =
    (ground (arith, h, lo), λ has. ground (arith, h, has, hi has))

positive-bound : (o : Option ℕ) (n : ℕ) → positive o ≡ some (pos n) → n < int_limit
positive-bound none n h = cc h
positive-bound (some k) n h = ground (arith, h)

negative-bound : (o : Option ℕ) (n : ℕ) → negative o ≡ some (pos n) → n < int_limit
negative-bound none n h = cc h
negative-bound (some zero) n h = ground (arith, h)
negative-bound (some (suc k)) n h = ground (arith, h)

atoi-bound : (raw : String) (n : ℕ) → atoi raw ≡ some (pos n) → n < int_limit
unfolding atoi
atoi-bound String.[] n h = cc h
atoi-bound (String.◌∷◌ c s) n h = elim (Bool-cases (code c == 45)) [
  | inl e ↦ negative-bound (unsigned s) n (rw e at h)
  | inr e ↦ elim (Bool-cases (code c == 43)) [
    | inl k ↦ positive-bound (unsigned s) n (rw (e, k) at h)
    | inr k ↦ positive-bound (unsigned (String.◌∷◌ c s)) n (rw (e, k) at h)
  ]
]

parse_one-bound :
    (raw : String) (default_value minimum maximum n : ℕ)
    → parse_one raw default_value minimum maximum ≡ ok n
    → default_value < int_limit
    → n < int_limit
unfolding parse_one
parse_one-bound raw default_value minimum maximum n h lo = ground (arith, h, lo, atoi-bound raw n)

-- Parameters that are accepted are in range: a positive page that fits a Go int, and a limit from 1
-- to 100. Nothing is clamped.
pub parse-bounds :
    (raw_page raw_limit : String) (p : Params)
    → parse raw_page raw_limit ≡ ok p
    → (1 ≤ p.page) × (p.page < int_limit) × (1 ≤ p.limit) × (p.limit ≤ max_limit)
unfolding parse
parse-bounds raw_page raw_limit p h =
    let (page, e, rest) = bind-eq_ok (parse_one raw_page 1 1 0) _ h in
    let (limit, e', done) = bind-eq_ok (parse_one raw_limit default_limit 1 max_limit) _ rest in
    let whole : p ≡ record { page = page; limit = limit } = cc done in
    let (low, high) =
      parse_one-bounds raw_limit default_limit 1 max_limit limit e' (omega arith)
        λ _. omega arith in
    let (first, _) = parse_one-bounds raw_page 1 1 0 page e (omega arith) λ k. cc k in
    subst
      (λ (r : Params). (1 ≤ r.page) × (r.page < int_limit) × (1 ≤ r.limit) × (r.limit ≤ max_limit))
      (sym whole) (first, parse_one-bound raw_page 1 1 0 page e (omega arith), low, high refl)

wrap_small : (n : ℕ) → n < int_limit → wrap n ≡ pos n
wrap_small n h = ground (arith, h)

pages_iff :
    (page limit total : ℕ)
    → 1 ≤ page
    → 1 ≤ limit
    → (page ≤ (total + limit - 1) / limit) ↔ ((page - 1) * limit < total)
pages_iff zero limit total one two = omega (arith, one)
pages_iff (suc q) limit total one two =
    let counted = le-div_iff_mul-le {x = suc q} {y = total + limit - 1} two in
    ground (arith, counted, two)

offset-pos :
    (p : Params) (n : ℕ)
    → 1 ≤ p.page
    → (p.page - 1) * p.limit ≡ n
    → n < int_limit
    → offset p ≡ pos n
offset-pos p n h e fits =
    let paged : (p.page == 0) ≡ false = ground (arith, h) in rw (paged, e) (wrap_small n fits)

next_page : (page limit : ℕ) → 1 ≤ page → (page - 1) * limit + limit ≡ page * limit
next_page zero limit h = absurd (omega (arith, h))
next_page (suc q) limit h = grind arith

-- The pages of an accepted limit follow each other without a gap and without an overlap, as long as
-- they end within a Go int: the first begins with the first item, and the one after the accepted page
-- begins where that page ends.
pub parse-offset :
    (raw_page raw_limit : String) (p : Params)
    → parse raw_page raw_limit ≡ ok p
    → p.page * p.limit < int_limit
    → (offset (record p { page = 1 }) ≡ pos 0)
      × (n : ℕ) × (offset p ≡ pos n)
      × (offset (record p { page = p.page + 1 }) ≡ pos (n + p.limit))
parse-offset raw_page raw_limit p h fits =
    let (one, _, _, _) = parse-bounds raw_page raw_limit p h in
    let next = next_page p.page p.limit one in
    let here : (p.page - 1) * p.limit < int_limit = omega (arith, next, fits) in
    let back : p.page + 1 - 1 ≡ p.page = omega arith in
    let later : offset (record p { page = p.page + 1 }) ≡ pos (p.page * p.limit) =
      offset-pos (record p { page = p.page + 1 }) (p.page * p.limit) (omega arith) (rw back refl)
        fits in
    (ground arith, (p.page - 1) * p.limit, offset-pos p _ one refl here, later ∙ ap pos (sym next))

-- A page is among those that the meta information counts exactly if its offset leaves an item.
pub total_pages_iff :
    (p : Params) (total : ℕ)
    → 1 ≤ p.page
    → 1 ≤ p.limit
    → (p.page ≤ total_pages p total) ↔ ((p.page - 1) * p.limit < total)
total_pages_iff p total one two =
    let limited : ltb 0 p.limit ≡ true = ground (arith, two) in
    rw limited (pages_iff p.page p.limit total one two)
