-- ===== src/Accounts/Rate.antt =====
-- How often `enforceSendRate` of internal/service/auth.go lets a code be sent.
use danshi_backend.Base.{
  ltb, leb, if◌then◌else◌, Bool-cases, is_some, or_else, length, All, ok, err, ap, ℕ, refl, ◌<◌,
  ◌≡◌, ◌⊎◌, Option, inl, false, List, ◌*◌, ◌+◌, none, ◌≤◌, inr, ◌∷◌, String, arith, some, [],
}
use danshi_backend.Accounts.Codes.{verification_send_window, max_sends_per_window}
use danshi_backend.Accounts.Data.{EmailVerificationCode}
use danshi_backend.Accounts.Senders.{renew_window, cools_until, enforce_send_rate, sent}

-- One request to send at the time `now`: the challenge with the new code, if the rate allows it.
abbrev pub send_at : String → ℕ → EmailVerificationCode → Option EmailVerificationCode
send_at digest now c = elim (enforce_send_rate now c) [
  | err e ↦ none
  | ok c' ↦ some (sent digest now c')
]

-- The times of a sequence of requests at which a code is sent.
abbrev pub send_times : List (String × ℕ) → EmailVerificationCode → List ℕ
send_times [] c = []
send_times ((digest, now) ∷ requests) c =
    let next = or_else (send_at digest now c) c in
    let rest = send_times requests next in
    if is_some (send_at digest now c) then now ∷ rest else rest

-- Each time is at least a cooldown after the one before it.
abbrev pub IsApart : Option ℕ → List ℕ → Type 0
IsApart last [] = Unit {0}
IsApart last (t ∷ ts) = (cools_until last ≤ t) × IsApart (some t) ts

-- What a request to send does.
send_at-cases :
    (digest : String) (now : ℕ) (c : EmailVerificationCode)
    → (send_at digest now c ≡ none)
      ⊎ ((send_at digest now c ≡ some (sent digest now (renew_window now c)))
          × (cools_until c.last_sent_at ≤ now)
          × ((renew_window now c).send_count < max_sends_per_window))
unfolding enforce_send_rate
send_at-cases digest now c = elim (Bool-cases (ltb now (cools_until c.last_sent_at))) [
  | inl early ↦ inl (ground (arith, early))
  | inr cool ↦ elim (Bool-cases (leb max_sends_per_window (renew_window now c).send_count)) [
    | inl full ↦ inl (ground (arith, cool, full))
    | inr room ↦ inr (ground (arith, cool, room), ground (arith, cool), ground (arith, room))
  ]
]

renewed_not :
    (now : ℕ) (c : EmailVerificationCode)
    → now < c.send_window_started_at + verification_send_window
    → renew_window now c ≡ c
renewed_not now c h =
    let still : leb (c.send_window_started_at + verification_send_window) now ≡ false =
      ground (arith, h) in
    rw still refl

send_times-IsApart :
    (requests : List (String × ℕ)) (c : EmailVerificationCode)
    → IsApart c.last_sent_at (send_times requests c)
send_times-IsApart [] c = tt
send_times-IsApart ((digest, now) ∷ requests) c = elim (send_at-cases digest now c) [
  | inl e ↦ rw e (send_times-IsApart requests c)
  | inr (e, cool, room) ↦
      rw e (cool, send_times-IsApart requests (sent digest now (renew_window now c)))
]

abbrev IsWithin : ℕ → List (String × ℕ) → Type 0
IsWithin begin requests =
    All (λ (r : String × ℕ). (begin ≤ r.1) × (r.1 < begin + verification_send_window)) requests

-- A window that starts within the hour is the last that matters for it.
sends_in_window :
    (begin : ℕ) (requests : List (String × ℕ)) (c : EmailVerificationCode)
    → begin ≤ c.send_window_started_at
    → c.send_count ≤ max_sends_per_window
    → IsWithin begin requests
    → length (send_times requests c) + c.send_count ≤ max_sends_per_window
sends_in_window begin [] c hb hc all = omega (arith, hc)
sends_in_window begin ((digest, now) ∷ requests) c hb hc all =
    let same = renewed_not now c (omega (arith, hb, all.0.1)) in
    elim (send_at-cases digest now c) [
      | inl e ↦ rw e (sends_in_window begin requests c hb hc all.1)
      | inr (e, cool, room) ↦
          let next = sent digest now c in
          let few : c.send_count < max_sends_per_window = rw same at room in
          let here : send_at digest now c ≡ some next = rw same at e in
          let rest = sends_in_window begin requests next hb (omega (arith, few)) all.1 in
          rw here (omega (arith, rest))
    ]

sends_in_hour :
    (begin : ℕ) (requests : List (String × ℕ)) (c : EmailVerificationCode)
    → c.send_count ≤ max_sends_per_window
    → IsWithin begin requests
    → length (send_times requests c) + c.send_count ≤ 2 * max_sends_per_window
sends_in_hour begin [] c hc all = omega (arith, hc)
sends_in_hour begin ((digest, now) ∷ requests) c hc all = elim (send_at-cases digest now c) [
  | inl e ↦ rw e (sends_in_hour begin requests c hc all.1)
  | inr (e, cool, room) ↦
      let next = sent digest now (renew_window now c) in
      rw e (elim (Bool-cases (leb (c.send_window_started_at + verification_send_window) now)) [
        | inl over ↦
            let opened : next.send_window_started_at ≡ now = rw over refl in
            let rest =
              sends_in_window begin requests next (omega (arith, opened, all.0.0))
                (omega (arith, room)) all.1 in
            omega (arith, rest, hc)
        | inr still ↦
            let kept : next.send_count ≡ c.send_count + 1 = rw still refl in
            let rest = sends_in_hour begin requests next (omega (arith, room)) all.1 in
            omega (arith, rest, kept)
      ])
]

-- Whatever is asked for within an hour, at most ten codes are sent for an address and a purpose (five
-- in each of the two windows that the hour may meet), and each at least a minute after the one before
-- it; the challenge's count of sends is at most five, as every send leaves it.
pub enforce_send_rate-send_times :
    (begin : ℕ) (requests : List (String × ℕ)) (c : EmailVerificationCode)
    → c.send_count ≤ max_sends_per_window
    → All (λ (r : String × ℕ). (begin ≤ r.1) × (r.1 < begin + verification_send_window)) requests
    → (length (send_times requests c) ≤ 10) × IsApart c.last_sent_at (send_times requests c)
enforce_send_rate-send_times begin requests c hc all =
    (omega (arith, sends_in_hour begin requests c hc all), send_times-IsApart requests c)

-- Every send leaves a count of at most five.
pub send_at-count :
    (digest : String) (now : ℕ) (c c' : EmailVerificationCode)
    → send_at digest now c ≡ some c'
    → c'.send_count ≤ max_sends_per_window
send_at-count digest now c c' h = elim (send_at-cases digest now c) [
  | inl e ↦ cc (e, h)
  | inr (e, cool, room) ↦
      let same : sent digest now (renew_window now c) ≡ c' = cc (e, h) in
      omega (arith, room, ap (λ (r : EmailVerificationCode). r.send_count) same)
]
