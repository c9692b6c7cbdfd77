-- ===== src/Accounts/Guards.antt =====
-- Which one-time codes stay readable: `SaveState` of internal/repository/auth.go and the queue of
-- internal/repository/email_delivery.go.
use danshi_backend.Base.{
  ltb, ◌==◌, if◌then◌else◌, Option-cases, is_some, All, find_first, update_rows, All-update_rows,
  All-append_rows, find_first-test, find_first-update_rows, find_first-append, ℕ, str_eq, refl,
  ◌++◌, ◌≡◌, Option, inl, false, true, List, Bool, none, ◌&&◌, ◌||◌, inr, not, ◌∷◌, String, arith,
  some, [],
}
use danshi_backend.Accounts.Codes.{max_failed_attempts, saved, drop_code, loses_code, save_state}
use danshi_backend.Accounts.Data.{
  VerificationPurpose, EmailVerificationCode, EmailDelivery, Accounts,
}
use danshi_backend.Accounts.Senders.{new_delivery_of, enqueue_email}

-- A challenge that a code can still satisfy, apart from its end: the delivery worker clears what has
-- run out.
abbrev pub is_usable : EmailDelivery → EmailVerificationCode → Bool
is_usable d c =
    str_eq d.code_digest c.code_digest
    && not (is_some c.consumed_at)
    && ltb c.failed_attempts max_failed_attempts

abbrev pub challenge_usable : EmailDelivery → Option EmailVerificationCode → Bool
challenge_usable d none = false
challenge_usable d (some c) = is_usable d c

abbrev pub challenge_by_id : ℕ → List EmailVerificationCode → Option EmailVerificationCode
challenge_by_id id codes = find_first (λ (c : EmailVerificationCode). c.id == id) codes

abbrev pub is_guarded : List EmailVerificationCode → EmailDelivery → Bool
is_guarded codes d =
    not (is_some d.code) || challenge_usable d (challenge_by_id d.challenge_id codes)

-- A delivery that still has its code belongs to a challenge with that code, unused and with tries
-- left.
abbrev pub IsSecret : Accounts → Type 0
IsSecret s = All (λ d. is_guarded s.codes d ≡ true) s.deliveries

pub challenge_by_id-saved :
    (c : EmailVerificationCode) (now id : ℕ) (codes : List EmailVerificationCode)
    → challenge_by_id id
        (update_rows (λ (row : EmailVerificationCode). row.id == c.id) (saved c now) codes)
      ≡ elim (challenge_by_id id codes) [
        | none ↦ none
        | some row ↦ some (if row.id == c.id then saved c now row else row)
      ]
challenge_by_id-saved c now id codes =
    find_first-update_rows (λ (row : EmailVerificationCode). row.id == id)
      (λ (row : EmailVerificationCode). row.id == c.id) (saved c now) codes (λ row. refl)

pub kept_code :
    (c : EmailVerificationCode) (now : ℕ) (codes : List EmailVerificationCode) (d : EmailDelivery)
    → is_guarded codes d ≡ true
    → loses_code c now d ≡ false
    → is_guarded
        (update_rows (λ (row : EmailVerificationCode). row.id == c.id) (saved c now) codes)
        d
      ≡ true
kept_code c now codes d h k =
    let moved = challenge_by_id-saved c now d.challenge_id codes in
    elim (Option-cases (challenge_by_id d.challenge_id codes)) [
      | inl e ↦ rw (moved, e) (rw e at h)
      | inr (row, e) ↦
          let key =
            find_first-test (λ (r : EmailVerificationCode). r.id == d.challenge_id) codes e in
          rw (moved, e) (ground (arith, k, key, rw e at h))
    ]

pub save_state-IsSecret :
    (c : EmailVerificationCode) (now : ℕ) (s : Accounts)
    → IsSecret s
    → IsSecret (save_state c now s)
unfolding save_state
save_state-IsSecret c now s h =
    All-update_rows (λ d. is_guarded s.codes d ≡ true)
      (λ d.
        is_guarded
          (update_rows (λ (row : EmailVerificationCode). row.id == c.id) (saved c now) s.codes) d
        ≡ true)
      (loses_code c now) drop_code s.deliveries (λ d g l. refl)
      (λ d g l. kept_code c now s.codes d g l) h

pub saved_there :
    (c row : EmailVerificationCode) (now : ℕ) (s : Accounts)
    → challenge_by_id c.id s.codes ≡ some row
    → challenge_by_id c.id (save_state c now s).codes ≡ some (saved c now row)
unfolding save_state
saved_there c row now s e =
    let key = find_first-test (λ (r : EmailVerificationCode). r.id == c.id) s.codes e in
    rw (challenge_by_id-saved c now c.id s.codes, e) (rw key refl)

pub enqueue_email-IsSecret :
    (c : EmailVerificationCode) (email : String) (purpose : VerificationPurpose)
    (digest code : String) (now : ℕ) (s : Accounts)
    → is_guarded s.codes (new_delivery_of c email purpose digest code now s.next_id) ≡ true
    → IsSecret s
    → IsSecret (enqueue_email c email purpose digest code now s)
unfolding enqueue_email
enqueue_email-IsSecret c email purpose digest code now s g h =
    All-append_rows (λ d. is_guarded s.codes d ≡ true) s.deliveries
      (new_delivery_of c email purpose digest code now s.next_id ∷ []) h (g, tt)

pub grown_codes :
    (row : EmailVerificationCode) (codes : List EmailVerificationCode) (d : EmailDelivery)
    → is_guarded codes d ≡ true
    → is_guarded (codes ++ (row ∷ [])) d ≡ true
grown_codes row codes d h =
    let moved =
      find_first-append (λ (c : EmailVerificationCode). c.id == d.challenge_id) codes (row ∷ []) in
    elim (Option-cases (challenge_by_id d.challenge_id codes)) [
      | inl e ↦ let bare : is_some d.code ≡ false = ground (arith, rw e at h) in rw bare refl
      | inr (c, e) ↦ rw (moved, e) (rw e at h)
    ]
