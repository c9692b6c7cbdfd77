-- ===== src/ImageAccess/Completeness.antt =====
-- `ClaimDue` of internal/repository/image_access.go leaves out a row that it may take only when its
-- batch is full.
use danshi_backend.Base.{
  ◌==◌, Bool-cases, if_rule, length, take, filter, ℕ, Bool, String, ◌≡◌, true, ◌<◌, ap, [], List,
  inr, zero, ◌∷◌, false, inl, arith, some, refl, suc,
}
use danshi_backend.ImageAccess.Delivery.{Delivery, Claim}
use danshi_backend.ImageAccess.Keys.{IsRow, find_row-update_where}
use danshi_backend.ImageAccess.Leases.{is_free, length-map, claim_due-eq_some}
use danshi_backend.ImageAccess.Outbox.{
  is_due, insert_due, order_due, candidates, lease, is_among, Assets, to_claim, claim_due,
}

is_among_self_or_rest :
    (d c : Delivery) (cs : List Delivery) → is_among cs d ≡ true → is_among (c ∷ cs) d ≡ true
is_among_self_or_rest d c cs h = ground arith

is_among-filter :
    (f : Delivery → Bool) (ds : List Delivery) (d : Delivery)
    → IsRow ds d
    → f d ≡ true
    → is_among (filter f ds) d ≡ true
is_among-filter f [] d row h = cc
is_among-filter f (c ∷ ds) d row h = elim (Bool-cases (c.image_asset_id == d.image_asset_id)) [
  | inl e ↦ let one : c ≡ d = cc (rw e at row) in let hit : f c ≡ true = cc in rw hit (rw e refl)
  | inr e ↦
      let rest = is_among-filter f ds d (rw e at row) h in
      if_rule (λ l. is_among l d ≡ true) (f c) (λ _. is_among_self_or_rest d c (filter f ds) rest)
        (λ _. rest)
]

is_among-insert_due :
    (c d : Delivery) (ds : List Delivery) → is_among (insert_due c ds) d ≡ is_among (c ∷ ds) d
unfolding insert_due
is_among-insert_due c d [] = refl
is_among-insert_due c d (e ∷ ds) = ground (arith, is_among-insert_due c d ds)

is_among-order_due : (ds : List Delivery) (d : Delivery) → is_among (order_due ds) d ≡ is_among ds d
unfolding order_due
is_among-order_due [] d = refl
is_among-order_due (c ∷ ds) d =
    rw (is_among-insert_due c d (order_due ds), is_among-order_due ds d) refl

take_short : {A : Type 0} (n : ℕ) (xs : List A) → length (take n xs) < n → take n xs ≡ xs
take_short zero xs h = ground (arith, h)
take_short (suc n) [] h = refl
take_short (suc n) (x ∷ xs) h = ap (λ l. x ∷ l) (take_short n xs (omega (arith, h)))

module _ (assets : Assets) (locked : ℕ → Bool) (now until : ℕ) (token : String) (limit : ℕ)
    (ds : List Delivery) where
  candidates_short :
      (d : Delivery)
      → IsRow ds d
      → is_due now d ≡ true
      → locked d.image_asset_id ≡ false
      → length (candidates locked now limit ds) < limit
      → is_among (candidates locked now limit ds) d ≡ true
  unfolding candidates
  candidates_short d row due free h =
      rw (take_short limit _ h, is_among-order_due _ d)
        (is_among-filter (is_free locked now) ds d row (ground (arith, due, free)))

  -- When a claim succeeds and returns fewer rows than its limit, it has leased every row of the
  -- table that was due and not locked.
  pub claim_due_complete :
      (ds' : List Delivery) (claims : List Claim) (d : Delivery)
      → claim_due assets locked now until token limit ds ≡ some (ds', claims)
      → length claims < limit
      → IsRow ds d
      → is_due now d ≡ true
      → locked d.image_asset_id ≡ false
      → IsRow ds' (lease until token now d)
  claim_due_complete ds' claims d e short row due free =
      let cs = candidates locked now limit ds in
      let (rows, made) = claim_due-eq_some assets locked now until token limit ds ds' claims e in
      let few : length cs < limit = omega (
        arith,
        short,
        ap length made,
        length-map (λ d. to_claim assets (lease until token now d)) cs,
      ) in
      let found =
        find_row-update_where (is_among cs) (lease until token now) d.image_asset_id ds
          (λ _. refl) in
      rw rows (rw (row, candidates_short d row due free few) at found)
