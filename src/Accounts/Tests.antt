-- ===== src/Accounts/Tests.antt =====
-- Accounts at concrete inputs.
use danshi_backend.Base.{
  if◌then◌else◌, length, any, pos, negsuc, ok, err, ◌≤◌, arith, none, not, ◌≡◌, ◌&&◌, ◌+◌, ℕ, true,
  some, [], ◌*◌, String, refl, false, ◌∷◌, List,
}
use danshi_backend.Accounts.Administration.{
  StatusInput, BanState, normalize_admin_ban, update_user_status,
}
use danshi_backend.Accounts.Attempts.{
  try_code, succeeds, view, Leaves, consume_verification-refines, Tries, tries_accepted, tries_kept,
  consume_verification-tries,
}
use danshi_backend.Accounts.Auth.{Client, issue_session, login, refresh_tokens, authenticate}
use danshi_backend.Accounts.Bans.{update_user_status-shuts_out}
use danshi_backend.Accounts.Codes.{save_state, lock_or_create, consume_verification}
use danshi_backend.Accounts.Data.{EmailDelivery, registration, password_reset}
use danshi_backend.Accounts.Deliveries.{DeliveryOptions, delivery_options, day}
use danshi_backend.Accounts.Externals.{access, refresh}
use danshi_backend.Accounts.Guards.{IsSecret}
use danshi_backend.Accounts.History.{Operations, perform_all, renew, visit, reset, stop, then_do}
use danshi_backend.Accounts.Mailed.{is_mail, send_verification_code-consume}
use danshi_backend.Accounts.Rate.{send_times, IsApart, enforce_send_rate-send_times}
use danshi_backend.Accounts.Readable.{perform_all-IsSecret}
use danshi_backend.Accounts.Register.{reset_password}
use danshi_backend.Accounts.Requests.{
  ◌>>◌, Request, refuse, is_kept, after, refuse-Keeps, unauthorized, username_refused,
}
use danshi_backend.Accounts.Rests.{reset_rest, reset_rest-Leaves}
use danshi_backend.Accounts.Rounds.{Round}
use danshi_backend.Accounts.Samples.{
  externals, config, user1, challenge1, session7, delivery9, accounts, delivery_defaults,
}
use danshi_backend.Accounts.Senders.{
  enforce_send_rate, Drawn, renew_registration, send_verification_code,
}
use danshi_backend.Accounts.Sessions.{find_active_identity, revoke_all, handled}
use danshi_backend.Accounts.Shutout.{reset_password-shuts_out}
use danshi_backend.Accounts.Tokens.{parse_token}
use danshi_backend.Accounts.Validation.{normalize_email}
use danshi_backend.ImageAccess.Backoff.{second}

defaults_for_zeros :
    delivery_options (record {
      batch_size = pos 101;
      lease_duration = pos 0;
      max_attempts = negsuc 0;
      retry_delay = pos 0;
    })
    ≡ delivery_defaults
unfolding delivery_options
defaults_for_zeros = refl

-- The session works until the password is reset.
session_works : succeeds (authenticate externals config "access-7" 150 accounts).0 ≡ true
unfolding authenticate parse_token find_active_identity
session_works = refl

abbrev later_requests : Operations
later_requests = then_do (visit "access-7" 300) (then_do (renew "refresh-7" 310) stop)

reset_runs :
    (reset_password externals config "a@b.cn" "123456" "new password" 200 201 accounts).0 ≡ ok tt
unfolding reset_password normalize_email consume_verification
reset_runs = refl

email_is_fine : normalize_email externals "a@b.cn" ≡ ok "a@b.cn"
unfolding normalize_email
email_is_fine = refl

access_parses : parse_token externals access "access-7" 400 ≡ some (1, 7)
unfolding parse_token
access_parses = refl

refresh_parses : parse_token externals refresh "refresh-7" 400 ≡ some (1, 7)
unfolding parse_token
refresh_parses = refl

reset_password-shuts_out_example :
    let s' = perform_all externals config delivery_defaults later_requests (
      handled
        (reset_password externals config "a@b.cn" "123456" "new password" 200 201)
        accounts) in
    ((authenticate externals config "access-7" 400 s').0 ≡ err unauthorized)
    × ((refresh_tokens externals config "refresh-7" 400 s').0 ≡ err unauthorized)
reset_password-shuts_out_example =
    reset_password-shuts_out externals config "a@b.cn" "123456" "new password" "a@b.cn" 200 201 7
      user1 session7 accounts email_is_fine refl reset_runs refl refl delivery_defaults
      later_requests "access-7" "refresh-7" 400 1 access_parses refresh_parses

abbrev ban_input : StatusInput
ban_input = record {
  is_active = none;
  wants_permanent = none;
  until = some 1000;
  reason = some " spam ";
  legacy_reason = none;
}

abbrev timed_ban : BanState
timed_ban = record {
  is_permanent = false;
  until = some 1000;
  reason = some "spam";
  actor_id = some 2;
}

ban_is_timed : normalize_admin_ban ban_input 2 200 ≡ ok (timed_ban, true)
unfolding normalize_admin_ban
ban_is_timed = refl

ban_runs : (update_user_status 1 2 ban_input 200 accounts).0 ≡ ok true
unfolding update_user_status normalize_admin_ban
ban_runs = refl

abbrev client1 : Client
client1 = record { device_label = "phone"; user_agent = "app"; noise = "noise" }

-- Without the ban the same login succeeds.
login_runs :
    succeeds (login externals config (ok user1) "a@b.cn" "old password" client1 999 999 accounts).0
    ≡ true
unfolding login issue_session normalize_email
login_runs = refl

update_user_status-shuts_out_example :
    let s' = handled (update_user_status 1 2 ban_input 200) accounts in
    ((authenticate externals config "access-7" 400
        (perform_all externals config delivery_defaults later_requests s')).0
      ≡ err unauthorized)
    × (succeeds (login externals config (ok user1) "a@b.cn" "old password" client1 999 999 s').0
        ≡ false)
update_user_status-shuts_out_example =
    update_user_status-shuts_out externals config 1 2 ban_input 200 7 timed_ban session7 accounts
      ban_is_timed ban_runs refl refl delivery_defaults later_requests "access-7" 1 400
      access_parses user1 "a@b.cn" "old password" client1 999 999 refl refl

perform_all-IsSecret_example : IsSecret (
    perform_all externals config delivery_defaults
      (then_do (reset "a@b.cn" "123456" "new password" 200 201) later_requests)
      accounts)
perform_all-IsSecret_example =
    perform_all-IsSecret externals config delivery_defaults
      (then_do (reset "a@b.cn" "123456" "new password" 200 201) later_requests) accounts (refl, tt)

-- The rest of a reset, and of a registration whose name is refused after the code is accepted.
abbrev rest : Request (Unit {0})
rest = reset_rest externals config 1 "new password" 201

abbrev refused_rest : Request (Unit {0})
refused_rest = refuse username_refused

rest-Leaves : Leaves externals password_reset "a@b.cn" rest
rest-Leaves = reset_rest-Leaves externals config password_reset "a@b.cn" 1 "new password" 201

consume_verification-refines_example :
    let m = consume_verification externals password_reset "a@b.cn" "123456" 200 >> rest in
    let tried =
      try_code "password_reset:a@b.cn:123456" 200
        (view externals password_reset "a@b.cn" accounts) in
    ((succeeds (m accounts).0 && not tried.0) ≡ false)
    × (view externals password_reset "a@b.cn" (after m accounts) ≡ (
        if tried.0 && not (is_kept (m accounts).0)
        then view externals password_reset "a@b.cn" accounts
        else tried.1))
consume_verification-refines_example =
    consume_verification-refines externals password_reset "a@b.cn" rest "123456" 200 accounts
      rest-Leaves

-- A wrong code, the right one in a request that is rolled back, and the right one twice.
abbrev four_tries : Tries externals password_reset "a@b.cn" (Unit {0})
four_tries =
    ("000000", 200, rest)
    ∷ ("123456", 210, refused_rest)
    ∷ ("123456", 220, rest)
    ∷ ("123456", 230, rest)
    ∷ []

four_tries_run :
    (tries_accepted externals password_reset "a@b.cn" four_tries accounts ≡ 1)
    × (tries_kept externals password_reset "a@b.cn" four_tries accounts ≡ 2)
unfolding consume_verification save_state revoke_all
four_tries_run = (refl, refl)

consume_verification-tries_example :
    (tries_accepted externals password_reset "a@b.cn" four_tries accounts ≤ 1)
    × (tries_kept externals password_reset "a@b.cn" four_tries accounts ≤ 5)
consume_verification-tries_example =
    consume_verification-tries externals password_reset "a@b.cn" four_tries accounts
      (rest-Leaves, ((λ g. refuse-Keeps), (rest-Leaves, (rest-Leaves, tt))))

abbrev drawn1 : Drawn
drawn1 = record { code = "654321"; noise = "noise" }

sends : (send_verification_code externals config "new@b.cn" drawn1 200 accounts).0 ≡ ok tt
unfolding send_verification_code normalize_email renew_registration lock_or_create enforce_send_rate
sends = refl

new_email_is_fine : normalize_email externals "new@b.cn" ≡ ok "new@b.cn"
unfolding normalize_email
new_email_is_fine = refl

send_verification_code-consume_example :
    let s' = after (send_verification_code externals config "new@b.cn" drawn1 200) accounts in
    (any (is_mail externals config "new@b.cn" "654321") s'.deliveries ≡ true)
    × ((consume_verification externals registration "new@b.cn" "654321" 300 s').0 ≡ ok tt)
send_verification_code-consume_example =
    send_verification_code-consume externals config "new@b.cn" "new@b.cn" drawn1 200 300 accounts
      new_email_is_fine refl refl refl refl sends (ground arith)

abbrev requests : List (String × ℕ)
requests = ("a", 100 * second) ∷ ("b", 130 * second) ∷ ("c", 160 * second) ∷ []

two_of_three : send_times requests challenge1 ≡ (100 * second) ∷ (160 * second) ∷ []
unfolding enforce_send_rate
two_of_three = refl

enforce_send_rate-send_times_example :
    (length (send_times requests challenge1) ≤ 10)
    × IsApart (some 100) (send_times requests challenge1)
enforce_send_rate-send_times_example =
    enforce_send_rate-send_times (90 * second) requests challenge1 (ground arith) (
      (ground arith, ground arith),
      ((ground arith, ground arith), ((ground arith, ground arith), tt)),
    )

abbrev two_rounds : List Round
two_rounds =
    record { now = 300; later = 400; token = "first worker"; answer = false; chosen = λ d. true }
    ∷ record {
      now = 2 * day;
      later = 2 * day + 5;
      token = "second worker";
      answer = false;
      chosen = λ d. true;
    }
    ∷ []

abbrev two_attempts : DeliveryOptions
two_attempts = record delivery_defaults { max_attempts = 2 }

abbrev waiting9 : EmailDelivery
waiting9 = record delivery9 {
  attempts = 0;
  next_attempt_at = some 250;
  lease_token = none;
  lease_until = none;
}
