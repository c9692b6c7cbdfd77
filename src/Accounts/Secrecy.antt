-- ===== src/Accounts/Secrecy.antt =====
-- Which one-time codes stay readable: `SaveState` of internal/repository/auth.go and the services of
-- internal/service/auth.go that use it.
use text.Mathlib.TextPositions.{eq_refl}
use danshi_backend.Base.{
  ◌==◌, Bool-cases, Option-cases, is_some, if_rule, Result-cases, ok, find_first, All-implies, ℕ,
  str_eq, refl, ◌++◌, ◌≡◌, Option, inl, false, true, List, Bool, none, inr, not, ◌∷◌, String, arith,
  some, [],
}
use danshi_backend.Accounts.Codes.{
  new_challenge, save_state, digest_of, is_challenge, insert_challenge, lock_existing,
  lock_or_create, consume_verification,
}
use danshi_backend.Accounts.Data.{
  VerificationPurpose, User, EmailVerificationCode, Accounts, registration, password_reset,
}
use danshi_backend.Accounts.Externals.{Externals, Config}
use danshi_backend.Accounts.Guards.{
  challenge_by_id, is_guarded, IsSecret, save_state-IsSecret, saved_there, enqueue_email-IsSecret,
  grown_codes,
}
use danshi_backend.Accounts.Requests.{◌>>=◌, Request, lift, Keeps, keeps_rules}
use danshi_backend.Accounts.Senders.{
  enforce_send_rate, sent, Drawn, challenge_with, renew_registration, send_verification_code,
  sends_reset, renew_reset, send_password_reset_code,
}
use danshi_backend.Accounts.Shutout.{consume_verification-Keeps_same}

module _ (x : Externals) where
  insert_challenge-IsSecret :
      (email : String) (purpose : VerificationPurpose) (now : ℕ) (s : Accounts)
      → IsSecret s
      → IsSecret (insert_challenge x email purpose now s)
  insert_challenge-IsSecret email purpose now s h =
      if_rule IsSecret (is_some (find_first (is_challenge x email purpose) s.codes)) (λ _. h)
        (λ _.
          All-implies (λ d. is_guarded s.codes d ≡ true)
            (λ d. is_guarded (s.codes ++ (new_challenge s.next_id email purpose now ∷ [])) d ≡ true)
            s.deliveries (grown_codes (new_challenge s.next_id email purpose now) s.codes) h)

  -- The row that a sender has locked is in the table under its identity.
  found_by_id :
      (email : String) (purpose : VerificationPurpose) (codes : List EmailVerificationCode)
      (row : EmailVerificationCode)
      → find_first (is_challenge x email purpose) codes ≡ some row
      → (c : EmailVerificationCode) × (challenge_by_id row.id codes ≡ some c)
  found_by_id email purpose [] row e = cc e
  found_by_id email purpose (c ∷ codes) row e = elim (Bool-cases (c.id == row.id)) [
    | inl mine ↦ (c, rw mine refl)
    | inr other ↦ elim (Bool-cases (is_challenge x email purpose c)) [
      | inl hit ↦
          let same : c ≡ row = cc (rw hit at e) in
          let key : (c.id == row.id) ≡ true = rw same (ground arith) in cc (key, other)
      | inr miss ↦
          let rest = found_by_id email purpose codes row (rw miss at e) in
          (rest.0, rw (other, rest.1) refl)
    ]
  ]

  module _ (cfg : Config) where
    challenge_with-IsSecret :
        (purpose : VerificationPurpose) (email address : String) (send : Bool) (drawn : Drawn)
        (now : ℕ) (c row : EmailVerificationCode) (s : Accounts)
        → challenge_by_id c.id s.codes ≡ some row
        → IsSecret s
        → IsSecret (challenge_with x cfg purpose email address send drawn now c s).1
    challenge_with-IsSecret purpose email address false drawn now c row s e h =
        save_state-IsSecret (sent (x.sha256 drawn.noise) now c) now s h
    challenge_with-IsSecret purpose email address true drawn now c row s e h =
        let digest = digest_of x purpose email drawn.code in
        let saved_row = sent digest now c in
        let s' = save_state saved_row now s in
        let there = saved_there saved_row row now s e in
        let alike : str_eq digest digest ≡ true = eq_refl digest in
        enqueue_email-IsSecret saved_row address purpose digest drawn.code now s'
          (rw there (rw alike refl)) (save_state-IsSecret saved_row now s h)

    pub enforce_send_rate-id :
        (now : ℕ) (c : EmailVerificationCode) {c' : EmailVerificationCode}
        → enforce_send_rate now c ≡ ok c'
        → c'.id ≡ c.id
    unfolding enforce_send_rate
    enforce_send_rate-id now c h = ground (arith, h)

    lock_or_create-IsSecret :
        (email : String) (purpose : VerificationPurpose) (now : ℕ)
        (f : EmailVerificationCode → Request (Unit {0}))
        → ((row c : EmailVerificationCode) (s : Accounts)
            → challenge_by_id row.id s.codes ≡ some c
            → IsSecret s
            → IsSecret (f row s).1)
        → Keeps IsSecret (lock_or_create x email purpose now >>= f)
    unfolding lock_or_create
    lock_or_create-IsSecret email purpose now f k = record {
      keeps = λ s h.
          let s' = insert_challenge x email purpose now s in
          let h' = insert_challenge-IsSecret email purpose now s h in
          elim (Option-cases (lock_existing x email purpose s')) [
            | inl e ↦ rw e h'
            | inr (row, e) ↦
                rw e
                  (let (c, there) = found_by_id email purpose s'.codes row e in k row c s' there h')
          ];
    }

    sends_reset-IsSecret :
        (email : String) (user : Option User) (drawn : Drawn) (now : ℕ)
        (row c : EmailVerificationCode) (s : Accounts)
        → challenge_by_id row.id s.codes ≡ some c
        → IsSecret s
        → IsSecret (sends_reset x cfg email user drawn now (enforce_send_rate now row) s).1
    sends_reset-IsSecret email user drawn now row c s there h =
        elim (Result-cases (enforce_send_rate now row)) [
          | inr (e, refused) ↦ rw refused h
          | inl (c', allowed) ↦ rw allowed (
              challenge_with-IsSecret password_reset email
                (elim user [ none ↦ "" | some u ↦ u.email ]) (is_some user) drawn now c' c s
                (rw (enforce_send_rate-id now row allowed) there) h)
        ]

    registers-IsSecret :
        (email : String) (send : Bool) (drawn : Drawn) (now : ℕ) (row c : EmailVerificationCode)
        (s : Accounts)
        → challenge_by_id row.id s.codes ≡ some c
        → IsSecret s
        → IsSecret
            ((lift (enforce_send_rate now row) >>= λ c'.
                challenge_with x cfg registration email email send drawn now c')
              s).1
    registers-IsSecret email send drawn now row c s there h =
        elim (Result-cases (enforce_send_rate now row)) [
          | inr (e, refused) ↦ rw refused h
          | inl (c', allowed) ↦ rw allowed (
              challenge_with-IsSecret registration email email send drawn now c' c s
                (rw (enforce_send_rate-id now row allowed) there) h)
        ]

    renew_registration-IsSecret :
        (email : String) (known : Bool) (drawn : Drawn) (now : ℕ)
        → Keeps IsSecret (renew_registration x cfg email known drawn now)
    unfolding renew_registration
    renew_registration-IsSecret email known drawn now =
        lock_or_create-IsSecret email registration now
          (λ row. lift (enforce_send_rate now row) >>= λ c.
            challenge_with x cfg registration email email (not known) drawn now c)
          (registers-IsSecret email (not known) drawn now)

    renew_reset-IsSecret :
        (email : String) (user : Option User) (drawn : Drawn) (now : ℕ)
        → Keeps IsSecret (renew_reset x cfg email user drawn now)
    unfolding renew_reset
    renew_reset-IsSecret email user drawn now =
        lock_or_create-IsSecret email password_reset now
          (λ row. sends_reset x cfg email user drawn now (enforce_send_rate now row))
          (sends_reset-IsSecret email user drawn now)

    pub send_verification_code-IsSecret :
        (raw : String) (drawn : Drawn) (now : ℕ)
        → Keeps IsSecret (send_verification_code x cfg raw drawn now)
    unfolding send_verification_code
    send_verification_code-IsSecret raw drawn now =
        search (keeps_rules, renew_registration-IsSecret) depth 30

    pub send_password_reset_code-IsSecret :
        (raw : String) (drawn : Drawn) (now : ℕ)
        → Keeps IsSecret (send_password_reset_code x cfg raw drawn now)
    unfolding send_password_reset_code
    send_password_reset_code-IsSecret raw drawn now =
        search (keeps_rules, renew_reset-IsSecret) depth 30

    pub consume_verification-IsSecret :
        (purpose : VerificationPurpose) (email code : String) (now : ℕ)
        → Keeps IsSecret (consume_verification x purpose email code now)
    consume_verification-IsSecret purpose email code now =
        consume_verification-Keeps_same x purpose email code now
          (λ c s h. save_state-IsSecret c now s h)
