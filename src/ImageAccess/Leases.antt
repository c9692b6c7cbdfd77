-- ===== src/ImageAccess/Leases.antt =====
-- `ClaimDue` of internal/repository/image_access.go: what is claimed, and what is not.
use danshi_backend.Base.{
  ltb, ◌==◌, ==_iff, Bool-cases, if_rule, length, filter, All, length-take-le, All-take, String,
  List, ◌≡◌, ◌⊎◌, suc, inl, ◌∷◌, false, Bool, inr, ◌&&◌, ◌≤◌, map, arith, refl, not, Option, ◌||◌,
  none, true, some, subst, ◌<◌, [], ℕ, ap,
}
use danshi_backend.ImageAccess.Delivery.{Delivery, Claim, is_terminal}
use danshi_backend.ImageAccess.Keys.{find_row, IsRow, IsUnique, All-IsRow, find_row-update_where}
use danshi_backend.ImageAccess.Outbox.{
  update_where, is_due, due_before, insert_due, order_due, candidates, lease, is_among, Assets,
  to_claim, claim_due,
}

module _ {κ} (P : Delivery → Type κ) where
  All-insert_due : (d : Delivery) (ds : List Delivery) → P d → All P ds → All P (insert_due d ds)
  unfolding insert_due
  All-insert_due d [] h all = (h, tt)
  All-insert_due d (c ∷ cs) h all =
      if_rule (All P) (due_before d c) (λ _. (h, all)) λ _. (all.0, All-insert_due d cs h all.1)

  All-order_due : (ds : List Delivery) → All P ds → All P (order_due ds)
  unfolding order_due
  All-order_due [] h = tt
  All-order_due (d ∷ ds) h = All-insert_due d (order_due ds) h.0 (All-order_due ds h.1)

abbrev pub is_free : (ℕ → Bool) → ℕ → Delivery → Bool
is_free locked now d = is_due now d && not (locked d.image_asset_id)

-- A candidate is a row that is due and that no transaction in progress has locked.
abbrev IsCandidate : (ℕ → Bool) → ℕ → List Delivery → Delivery → Type 0
IsCandidate locked now ds d = IsRow ds d × (is_due now d ≡ true) × (locked d.image_asset_id ≡ false)

All-candidates_of_filter :
    (locked : ℕ → Bool) (now : ℕ) (rows ds : List Delivery)
    → All (IsRow rows) ds
    → All (IsCandidate locked now rows) (filter (is_free locked now) ds)
All-candidates_of_filter locked now rows [] h = tt
All-candidates_of_filter locked now rows (d ∷ ds) h =
    if_rule (All (IsCandidate locked now rows)) (is_free locked now d)
      (λ e. ((h.0, ground arith, ground arith), All-candidates_of_filter locked now rows ds h.1))
      λ _. All-candidates_of_filter locked now rows ds h.1

pub All-candidates :
    (locked : ℕ → Bool) (now limit : ℕ) (ds : List Delivery)
    → IsUnique ds
    → All (IsCandidate locked now ds) (candidates locked now limit ds)
unfolding candidates
All-candidates locked now limit ds u =
    All-take _ limit _
      (All-order_due _ _ (All-candidates_of_filter locked now ds ds (All-IsRow ds u)))

-- A row that shares its key with a candidate is that candidate.
pub is_among-candidate :
    (locked : ℕ → Bool) (now : ℕ) (ds cs : List Delivery) (d : Delivery)
    → All (IsCandidate locked now ds) cs
    → IsRow ds d
    → is_among cs d ≡ true
    → is_due now d ≡ true
is_among-candidate locked now ds [] d all h m = cc
is_among-candidate locked now ds (c ∷ cs) d all h m =
    elim (Bool-cases (c.image_asset_id == d.image_asset_id)) [
      | inl e ↦
          let same : c.image_asset_id ≡ d.image_asset_id = (==_iff _ _).0 e in
          let one : c ≡ d = cc (all.0.0, h, ap (λ a. find_row a ds) same) in
          subst (λ x. is_due now x ≡ true) one all.0.1
      | inr e ↦ is_among-candidate locked now ds cs d all.1 h (rw e at m)
    ]

-- A time that is set and has not come.
abbrev pub IsAhead : ℕ → Option ℕ → Type 0
IsAhead now o = (t : ℕ) × (o ≡ some t) × (now < t)

-- What nobody may claim: a delivery that has ended, waits for its time, or is leased.
abbrev pub IsIdle : ℕ → Delivery → Type 0
IsIdle now d =
    (is_terminal d.state ≡ true)
    ⊎ ((d.next_attempt_at ≡ none) ⊎ IsAhead now d.next_attempt_at)
    ⊎ IsAhead now d.lease_until

is_due-IsIdle : (now : ℕ) (d : Delivery) → IsIdle now d → is_due now d ≡ false
is_due-IsIdle now d idle = elim idle [
  | inl ended ↦ ground (arith, ended)
  | inr (inl (inl never)) ↦ ground (arith, never)
  | inr (inl (inr (t, at_t, ahead))) ↦ ground (arith, at_t, ahead)
  | inr (inr (t, at_t, ahead)) ↦ ground (arith, at_t, ahead)
]

All-map :
    (P : Claim → Type 0) (f : Delivery → Claim) (cs : List Delivery)
    → All (λ d. P (f d)) cs
    → All P (map f cs)
All-map P f [] h = tt
All-map P f (d ∷ cs) h = (h.0, All-map P f cs h.1)

pub length-map : (f : Delivery → Claim) (cs : List Delivery) → length (map f cs) ≡ length cs
length-map f [] = refl
length-map f (d ∷ cs) = ap suc (length-map f cs)

module _ (assets : Assets) (locked : ℕ → Bool) (now until : ℕ) (token : String) (limit : ℕ)
    (ds : List Delivery) where
  pub claim_due-eq_some :
      (ds' : List Delivery) (claims : List Claim)
      → claim_due assets locked now until token limit ds ≡ some (ds', claims)
      → let cs = candidates locked now limit ds in
        (ds' ≡ update_where (is_among cs) (lease until token now) ds)
        × (claims ≡ map (λ d. to_claim assets (lease until token now d)) cs)
  unfolding claim_due
  claim_due-eq_some ds' claims e = elim (Bool-cases (limit == 0 || ltb 1000 limit)) [
    | inl b ↦ cc (rw b at e)
    | inr b ↦ (cc (rw b at e), cc (rw b at e))
  ]

  pub claim_due-idle :
      (ds' : List Delivery) (claims : List Claim) (d : Delivery)
      → IsUnique ds
      → claim_due assets locked now until token limit ds ≡ some (ds', claims)
      → IsRow ds d
      → is_due now d ≡ false
      → IsRow ds' d
  claim_due-idle ds' claims d unique e row idle =
      let cs = candidates locked now limit ds in
      let same = (claim_due-eq_some ds' claims e).0 in
      let found =
        find_row-update_where (is_among cs) (lease until token now) d.image_asset_id ds
          (λ _. refl) in
      elim (Bool-cases (is_among cs d)) [
        | inl m ↦ cc (
            is_among-candidate locked now ds cs d (All-candidates locked now limit ds unique) row m)
        | inr m ↦ rw same (rw (row, m) at found)
      ]

  -- A row that is terminal, or whose next attempt is not set or lies ahead, or that is under a lease
  -- which ends after now, is neither changed nor moved by a claim, in a table with unique keys.
  pub claim_due-undisturbed :
      (ds' : List Delivery) (claims : List Claim) (d : Delivery)
      → IsUnique ds
      → claim_due assets locked now until token limit ds ≡ some (ds', claims)
      → IsRow ds d
      → IsIdle now d
      → IsRow ds' d
  claim_due-undisturbed ds' claims d unique e row idle =
      claim_due-idle ds' claims d unique e row (is_due-IsIdle now d idle)

  -- What a claim returns: a row as it was, due and not locked, now leased until the time given.
  abbrev pub IsClaimOf : List Delivery → Claim → Type 0
  IsClaimOf ds' c =
      (d : Delivery) × IsCandidate locked now ds d
      × (c ≡ to_claim assets (lease until token now d))
      × IsRow ds' c.delivery

is_among-cons :
    (c : Delivery) (cs l : List Delivery)
    → All (λ d. is_among cs d ≡ true) l
    → All (λ d. is_among (c ∷ cs) d ≡ true) l
is_among-cons c cs [] h = tt
is_among-cons c cs (d ∷ l) h = (ground arith, is_among-cons c cs l h.1)

is_among_self : (cs : List Delivery) → All (λ d. is_among cs d ≡ true) cs
is_among_self [] = tt
is_among_self (c ∷ cs) = (ground arith, is_among-cons c cs cs (is_among_self cs))

module _ (assets : Assets) (locked : ℕ → Bool) (now until : ℕ) (token : String) (limit : ℕ)
    (ds : List Delivery) where
  claims_of_candidates :
      (all cs : List Delivery)
      → All (IsCandidate locked now ds) cs
      → All (λ d. is_among all d ≡ true) cs
      → All
          (λ d.
            IsClaimOf assets locked now until token limit ds
              (update_where (is_among all) (lease until token now) ds)
              (to_claim assets (lease until token now d)))
          cs
  claims_of_candidates all [] h m = tt
  claims_of_candidates all (c ∷ cs) h m =
      let found =
        find_row-update_where (is_among all) (lease until token now) c.image_asset_id ds
          (λ _. refl) in
      ((c, h.0, refl, rw (h.0.0, m.0) at found), claims_of_candidates all cs h.1 m.1)

  -- A claim returns at most `limit` rows. Each was due and not locked by another transaction, and
  -- the table now holds it with the worker's token and the end of its lease.
  pub claim_due-claims :
      (ds' : List Delivery) (claims : List Claim)
      → IsUnique ds
      → claim_due assets locked now until token limit ds ≡ some (ds', claims)
      → (length claims ≤ limit) × All (IsClaimOf assets locked now until token limit ds ds') claims
  claim_due-claims ds' claims unique e =
      let cs = candidates locked now limit ds in
      let to = λ (d : Delivery). to_claim assets (lease until token now d) in
      let (rows, made) = claim_due-eq_some assets locked now until token limit ds ds' claims e in
      let bound : length cs ≤ limit = unfold candidates in length-take-le limit _ in
      let short : length (map to cs) ≤ limit = omega (arith, length-map to cs) in
      let each = All-map _ to cs (
        claims_of_candidates cs cs (All-candidates locked now limit ds unique)
          (is_among_self cs)) in
      rw (made, rows) (short, each)
