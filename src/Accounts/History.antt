-- ===== src/Accounts/History.antt =====
-- A history of requests on accounts: each is handled in a transaction of its own. Between a login's
-- first look at the user and its lock on it, other requests may be handled. The delivery worker's
-- transactions are operations too: a claim, a clearing of codes, and the two transactions on a claim
-- between which the message is sent and others may happen.
use danshi_backend.Base.{ℕ, Option, List, Bool, none, String, some}
use danshi_backend.Access.Authz.{UserRole}
use danshi_backend.Accounts.Administration.{StatusInput, update_user_status, update_user_role}
use danshi_backend.Accounts.Auth.{
  Client, Principal, RegisterInput, first_look, login, refresh_tokens, authenticate, logout,
  kick_session, logout_all,
}
use danshi_backend.Accounts.Data.{EmailDelivery, RoleAction, Accounts}
use danshi_backend.Accounts.Deliveries.{DeliveryOptions, claim_deliveries, clear_invalid_codes}
use danshi_backend.Accounts.Externals.{Externals, Config}
use danshi_backend.Accounts.Register.{register, reset_password, delete_user}
use danshi_backend.Accounts.Senders.{Drawn, send_verification_code, send_password_reset_code}
use danshi_backend.Accounts.Sending.{decide_delivery, settle_delivery}
use danshi_backend.Accounts.Sessions.{handled}

mutual
  pub data Operation : Type 0 where
    send_code : (raw_email : String) (drawn : Drawn) (now_t : ℕ) → Operation
    send_reset : (raw_email : String) (drawn : Drawn) (now_t : ℕ) → Operation
    sign_up :
        (review : String → Option Bool) (input : RegisterInput) (client : Client) (now_t later : ℕ)
        → Operation
    log_in :
        (between : Operations) (identifier password : String) (client : Client) (now_t later : ℕ)
        → Operation
    renew : (token : String) (now_t : ℕ) → Operation
    visit : (token : String) (now_t : ℕ) → Operation
    log_out : (p : Principal) (now_t : ℕ) → Operation
    kick : (p : Principal) (id now_t : ℕ) → Operation
    log_out_all : (p : Principal) (now_t : ℕ) → Operation
    reset : (raw_email code new_password : String) (now_t later : ℕ) → Operation
    close : (user_id actor_id now_t : ℕ) → Operation
    set_status : (user_id actor : ℕ) (input : StatusInput) (now_t : ℕ) → Operation
    set_role : (user_id actor : ℕ) (role : UserRole) (action : RoleAction) → Operation
    clear_codes : (chosen : EmailDelivery → Bool) (now_t : ℕ) → Operation
    claim_codes : (locked : ℕ → Bool) (now_t until : ℕ) (token : String) (limit : ℕ) → Operation
    deliver : (between : Operations) (answer : Bool) (claim : EmailDelivery) (now_t : ℕ) → Operation

  pub data Operations : Type 0 where
    stop : Operations
    then_do : Operation → Operations → Operations

-- A claim that is refused changes nothing.
abbrev pub claimed_tables : Option (Accounts × List EmailDelivery) → Accounts → Accounts
claimed_tables none s = s
claimed_tables (some (s', claims)) s = s'

module _ (x : Externals) (cfg : Config) (o : DeliveryOptions) where
  unfoldable mutual
    pub perform : Operation → Accounts → Accounts
    perform (send_code raw drawn now_t) s = handled (send_verification_code x cfg raw drawn now_t) s
    perform (send_reset raw drawn now_t) s =
        handled (send_password_reset_code x cfg raw drawn now_t) s
    perform (sign_up review input client now_t later) s =
        handled (register x cfg review input client now_t later) s
    perform (log_in between identifier password client now_t later) s =
        handled
          (login x cfg (first_look x cfg identifier password s) identifier password client now_t
            later)
          (perform_all between s)
    perform (renew token now_t) s = handled (refresh_tokens x cfg token now_t) s
    perform (visit token now_t) s = handled (authenticate x cfg token now_t) s
    perform (log_out p now_t) s = handled (logout p now_t) s
    perform (kick p id now_t) s = handled (kick_session p id now_t) s
    perform (log_out_all p now_t) s = handled (logout_all p now_t) s
    perform (reset raw code password now_t later) s =
        handled (reset_password x cfg raw code password now_t later) s
    perform (close user_id actor_id now_t) s = handled (delete_user user_id actor_id now_t) s
    perform (set_status user_id actor input now_t) s =
        handled (update_user_status user_id actor input now_t) s
    perform (set_role user_id actor role action) s =
        handled (update_user_role user_id actor role action) s
    perform (clear_codes chosen now_t) s = clear_invalid_codes chosen now_t s
    perform (claim_codes locked now_t until token limit) s =
        claimed_tables (claim_deliveries locked now_t until token limit s) s
    perform (deliver between answer claim now_t) s =
        settle_delivery (decide_delivery x o answer claim now_t s) (perform_all between s)

    pub perform_all : Operations → Accounts → Accounts
    perform_all stop s = s
    perform_all (then_do op ops) s = perform_all ops (perform op s)
