-- ===== src/Accounts/Mailed.antt =====
-- Sending and consuming the same code: internal/service/auth.go.
use text.Mathlib.TextPositions.{eq_refl}
use danshi_backend.Base.{
  leb, Option-cases, or_else, any, Result-cases, ok, ℕ, str_eq, refl, ◌++◌, ◌<◌, ◌≡◌, inl, false,
  true, List, ◌+◌, Bool, none, ◌&&◌, inr, ◌∷◌, String, arith, some, [],
}
use danshi_backend.Accounts.Attempts.{lock_existing-save_state}
use danshi_backend.Accounts.Codes.{
  verification_code_ttl, saved, save_state, digest_of, insert_challenge, lock_existing,
  lock_or_create, judge, consume_verification,
}
use danshi_backend.Accounts.Data.{
  VerificationPurpose, EmailVerificationCode, EmailDelivery, Accounts, registration,
}
use danshi_backend.Accounts.Deliveries.{is_unsent}
use danshi_backend.Accounts.Externals.{Externals, Config}
use danshi_backend.Accounts.Requests.{after}
use danshi_backend.Accounts.Secrecy.{enforce_send_rate-id}
use danshi_backend.Accounts.Senders.{
  enforce_send_rate, sent, new_delivery_of, enqueue_email, Drawn, find_by_email, renew_registration,
  send_verification_code,
}
use danshi_backend.Accounts.Validation.{normalize_email, domain_allowed}

module _ (x : Externals) (cfg : Config) where
  -- A challenge as a sender saves it is satisfied by its code until it runs out.
  judge-sent :
      (purpose : VerificationPurpose) (email code : String) (now later : ℕ)
      (row c : EmailVerificationCode) (s : Accounts)
      → later < now + verification_code_ttl
      → let digest = digest_of x purpose email code in
        (judge x purpose email code later (saved (sent digest now c) now row) s).0 ≡ ok tt
  judge-sent purpose email code now later row c s h =
      let digest = digest_of x purpose email code in
      let alike : str_eq digest digest ≡ true = eq_refl digest in
      let fresh : leb (now + verification_code_ttl) later ≡ false = ground (arith, h) in
      rw (fresh, alike) refl

  consume-sent :
      (purpose : VerificationPurpose) (email code : String) (now later : ℕ)
      (row c : EmailVerificationCode) (s : Accounts)
      → lock_existing x email purpose s
        ≡ some (saved (sent (digest_of x purpose email code) now c) now row)
      → later < now + verification_code_ttl
      → (consume_verification x purpose email code later s).0 ≡ ok tt
  unfolding consume_verification
  consume-sent purpose email code now later row c s e h =
      rw e (judge-sent purpose email code now later row c s h)

  lock_existing-enqueued :
      (purpose : VerificationPurpose) (email address code : String) (now : ℕ)
      (row c : EmailVerificationCode) (s : Accounts)
      → lock_existing x email purpose s ≡ some row
      → c.id ≡ row.id
      → let digest = digest_of x purpose email code in
        lock_existing x email purpose (
          enqueue_email
            (sent digest now c)
            address
            purpose
            digest
            code
            now
            (save_state (sent digest now c) now s))
        ≡ some (saved (sent digest now c) now row)
  unfolding enqueue_email
  lock_existing-enqueued purpose email address code now row c s e same =
      lock_existing-save_state x purpose email s row (sent (digest_of x purpose email code) now c)
        now e same

  -- From the lock on: a code that is sent to a new address is taken.
  renew_registration-mailed :
      (email : String) (drawn : Drawn) (now later : ℕ) (s : Accounts)
      → (renew_registration x cfg email false drawn now s).0 ≡ ok tt
      → later < now + verification_code_ttl
      → (consume_verification x registration email drawn.code later
          (renew_registration x cfg email false drawn now s).1).0
        ≡ ok tt
  unfolding renew_registration lock_or_create
  renew_registration-mailed email drawn now later s h soon =
      let s' = insert_challenge x email registration now s in
      elim (Option-cases (lock_existing x email registration s')) [
        | inl e ↦ cc (rw e at h)
        | inr (row, e) ↦ elim (Result-cases (enforce_send_rate now row)) [
          | inr (bad, refused) ↦ cc (rw (e, refused) at h)
          | inl (c, allowed) ↦
              rw (e, allowed)
                (consume-sent registration email drawn.code now later row c _
                  (lock_existing-enqueued registration email email drawn.code now row c s' e
                    (enforce_send_rate-id x cfg now row allowed))
                  soon)
        ]
      ]

  -- A delivery that waits with this code for this address.
  abbrev pub is_mail : String → String → EmailDelivery → Bool
  is_mail email code d =
      str_eq d.email email && str_eq (or_else d.code "") code && is_unsent d.state

  any-last :
      (p : EmailDelivery → Bool) (ds : List EmailDelivery) (d : EmailDelivery)
      → p d ≡ true
      → any p (ds ++ (d ∷ [])) ≡ true
  any-last p [] d h = rw h refl
  any-last p (e ∷ ds) d h = ground (arith, any-last p ds d h)

  is_mail-new :
      (c : EmailVerificationCode) (email digest code : String) (now id : ℕ)
      → is_mail email code (new_delivery_of c email registration digest code now id) ≡ true
  is_mail-new c email digest code now id = rw (eq_refl email, eq_refl code) refl

  renew_registration-is_mail :
      (email : String) (drawn : Drawn) (now : ℕ) (s : Accounts)
      → (renew_registration x cfg email false drawn now s).0 ≡ ok tt
      → any
          (is_mail email drawn.code)
          (renew_registration x cfg email false drawn now s).1.deliveries
        ≡ true
  unfolding renew_registration lock_or_create enqueue_email
  renew_registration-is_mail email drawn now s h =
      let s' = insert_challenge x email registration now s in
      elim (Option-cases (lock_existing x email registration s')) [
        | inl e ↦ cc (rw e at h)
        | inr (row, e) ↦ elim (Result-cases (enforce_send_rate now row)) [
          | inr (bad, refused) ↦ cc (rw (e, refused) at h)
          | inl (c, allowed) ↦
              let digest = digest_of x registration email drawn.code in
              let s2 = save_state (sent digest now c) now s' in
              rw (e, allowed)
                (any-last (is_mail email drawn.code) s2.deliveries
                  (new_delivery_of (sent digest now c) email registration digest drawn.code now
                    s2.next_id)
                  (is_mail-new (sent digest now c) email digest drawn.code now s2.next_id))
        ]
      ]

  send_verification_code-eq :
      (raw email : String) (drawn : Drawn) (now : ℕ) (s : Accounts)
      → normalize_email x raw ≡ ok email
      → cfg.email_verification_required ≡ true
      → domain_allowed x cfg email ≡ true
      → cfg.sender_configured && cfg.has_deliveries ≡ true
      → find_by_email x cfg true email s ≡ none
      → send_verification_code x cfg raw drawn now s
        ≡ renew_registration x cfg email false drawn now s
  unfolding send_verification_code
  send_verification_code-eq raw email drawn now s he wanted allowed configured new =
      rw (he, wanted, allowed, configured, new) refl

  -- Where a registration code is asked for and sent (the address is well formed, of an allowed domain
  -- and not registered, and mail is configured), a delivery waits with the code for that address, and
  -- the code is taken for it at any time before ten minutes have passed.
  pub send_verification_code-consume :
      (raw email : String) (drawn : Drawn) (now later : ℕ) (s : Accounts)
      → normalize_email x raw ≡ ok email
      → cfg.email_verification_required ≡ true
      → domain_allowed x cfg email ≡ true
      → cfg.sender_configured && cfg.has_deliveries ≡ true
      → find_by_email x cfg true email s ≡ none
      → (send_verification_code x cfg raw drawn now s).0 ≡ ok tt
      → later < now + verification_code_ttl
      → let s' = after (send_verification_code x cfg raw drawn now) s in
        (any (is_mail email drawn.code) s'.deliveries ≡ true)
        × ((consume_verification x registration email drawn.code later s').0 ≡ ok tt)
  send_verification_code-consume raw email drawn now later s he wanted allowed configured new h
        soon =
      let same = send_verification_code-eq raw email drawn now s he wanted allowed configured new in
      let sent_it : (renew_registration x cfg email false drawn now s).0 ≡ ok tt = rw same at h in
      rw same (
        rw sent_it (
          renew_registration-is_mail email drawn now s sent_it,
          renew_registration-mailed email drawn now later s sent_it soon,
        ))
