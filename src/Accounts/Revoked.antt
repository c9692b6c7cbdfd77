-- ===== src/Accounts/Revoked.antt =====
-- A revoked session in histories of requests on accounts (internal/service/auth.go).
use danshi_backend.Base.{ltb, ◌==◌, Bool-cases, ℕ, Option, inl, Bool, none, ◌||◌, inr, String, some}
use danshi_backend.Accounts.Auth.{first_look, logout, kick_session, logout_all}
use danshi_backend.Accounts.Data.{EmailDelivery, Accounts}
use danshi_backend.Accounts.Deliveries.{DeliveryOptions, claim_deliveries, clear_invalid_codes}
use danshi_backend.Accounts.Externals.{Externals, Config}
use danshi_backend.Accounts.History.{
  set_status, Operation, Operations, claimed_tables, perform, perform_all, send_code, send_reset,
  sign_up, log_in, renew, visit, log_out, kick, log_out_all, reset, close, set_role, clear_codes,
  claim_codes, deliver, stop, then_do,
}
use danshi_backend.Accounts.Requests.{
  Request, write, after, Keeps, write-Keeps, after-Keeps, unauthorized, session_not_found,
}
use danshi_backend.Accounts.Revocation.{
  IsRevoked, revoke_all-IsRevoked, revoke-IsRevoked, run_touches-IsRevoked, login-Keeps,
  register-Keeps, reset_password-Keeps, refresh_tokens-Keeps, authenticate-Keeps,
  send_verification_code-Keeps, send_password_reset_code-Keeps, delete_user-Keeps,
  update_user_status-Keeps, update_user_role-Keeps,
}
use danshi_backend.Accounts.Sending.{decide_delivery, settle_delivery}
use danshi_backend.Accounts.Sessions.{revoke_all, handled}

module _ (id : ℕ) where
  claim_deliveries-IsRevoked :
      (locked : ℕ → Bool) (now until : ℕ) (token : String) (limit : ℕ) (s : Accounts)
      → IsRevoked id s
      → IsRevoked id (claimed_tables (claim_deliveries locked now until token limit s) s)
  unfolding claim_deliveries
  claim_deliveries-IsRevoked locked now until token limit s h =
      elim (Bool-cases (limit == 0 || ltb 1000 limit)) [ inl out ↦ rw out h | inr fits ↦ rw fits h ]

  settle_delivery-IsRevoked :
      (d : Option (EmailDelivery × (EmailDelivery → EmailDelivery))) (s : Accounts)
      → IsRevoked id s
      → IsRevoked id (settle_delivery d s)
  unfolding settle_delivery
  settle_delivery-IsRevoked none s h = h
  settle_delivery-IsRevoked (some (claim, u)) s h = h

  module _ (x : Externals) (cfg : Config) (o : DeliveryOptions) where
    handled-IsRevoked :
        {A : Type 0} (m : Request A) (s : Accounts)
        → Keeps (IsRevoked id) m
        → IsRevoked id s
        → IsRevoked id (handled m s)
    handled-IsRevoked m s k h =
        run_touches-IsRevoked id (after m s).touches (after m s) (after-Keeps m s k h)

    mutual
      unfolding perform perform_all logout kick_session logout_all clear_invalid_codes

      perform-IsRevoked :
          (op : Operation) (s : Accounts) → IsRevoked id s → IsRevoked id (perform x cfg o op s)
      perform-IsRevoked (send_code raw drawn now_t) s h =
          handled-IsRevoked _ s (send_verification_code-Keeps id x cfg raw drawn now_t) h
      perform-IsRevoked (send_reset raw drawn now_t) s h =
          handled-IsRevoked _ s (send_password_reset_code-Keeps id x cfg raw drawn now_t) h
      perform-IsRevoked (sign_up review input client now_t later) s h =
          handled-IsRevoked _ s (register-Keeps id x cfg review input client now_t later) h
      perform-IsRevoked (log_in between identifier password client now_t later) s h =
          handled-IsRevoked _ (perform_all x cfg o between s)
            (login-Keeps id x cfg (first_look x cfg identifier password s) identifier password
              client now_t later)
            (perform_all-IsRevoked between s h)
      perform-IsRevoked (renew token now_t) s h =
          handled-IsRevoked _ s (refresh_tokens-Keeps id x cfg token now_t) h
      perform-IsRevoked (visit token now_t) s h =
          handled-IsRevoked _ s (authenticate-Keeps id x cfg token now_t) h
      perform-IsRevoked (log_out p now_t) s h =
          handled-IsRevoked _ s (revoke-IsRevoked id p.user.id p.session now_t unauthorized) h
      perform-IsRevoked (kick p i now_t) s h =
          handled-IsRevoked _ s (revoke-IsRevoked id p.user.id i now_t session_not_found) h
      perform-IsRevoked (log_out_all p now_t) s h =
          handled-IsRevoked (write (revoke_all p.user.id now_t)) s
            (write-Keeps (revoke_all-IsRevoked id p.user.id now_t)) h
      perform-IsRevoked (reset raw code password now_t later) s h =
          handled-IsRevoked _ s (reset_password-Keeps id x cfg raw code password now_t later) h
      perform-IsRevoked (close user_id actor_id now_t) s h =
          handled-IsRevoked _ s (delete_user-Keeps id user_id actor_id now_t) h
      perform-IsRevoked (set_status user_id actor input now_t) s h =
          handled-IsRevoked _ s (update_user_status-Keeps id user_id actor input now_t) h
      perform-IsRevoked (set_role user_id actor role action) s h =
          handled-IsRevoked _ s (update_user_role-Keeps id user_id actor role action) h
      perform-IsRevoked (clear_codes chosen now_t) s h = h
      perform-IsRevoked (claim_codes locked now_t until token limit) s h =
          claim_deliveries-IsRevoked locked now_t until token limit s h
      perform-IsRevoked (deliver between answer claim now_t) s h =
          settle_delivery-IsRevoked (decide_delivery x o answer claim now_t s)
            (perform_all x cfg o between s) (perform_all-IsRevoked between s h)

      pub perform_all-IsRevoked :
          (ops : Operations) (s : Accounts)
          → IsRevoked id s
          → IsRevoked id (perform_all x cfg o ops s)
      perform_all-IsRevoked stop s h = h
      perform_all-IsRevoked (then_do op ops) s h =
          perform_all-IsRevoked ops (perform x cfg o op s) (perform-IsRevoked op s h)
