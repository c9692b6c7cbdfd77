-- ===== src/Transactions/Tests.antt =====
-- `UnitOfWork` (internal/middleware/uow.go) with a number as the database and the list of the mails
-- sent as the outside world.
use danshi_backend.Base.{ok, some, ◌∷◌, refl, List, ◌⊎◌, none, [], ℕ, ◌+◌, ◌≡◌, false, true}
use danshi_backend.Transactions.Atomicity.{
  Committed, Untouched, unit_of_work_cases, unit_of_work-success, unit_of_work-server_error,
}
use danshi_backend.Transactions.Queues.{AfterCommit, BeforeCommit, run_after, run_before}
use danshi_backend.Transactions.UnitOfWork.{
  Response, should_commit_error, Handled, Ended, commit, finish, unit_of_work, not_reported,
  reported_error, handled, responds,
}

abbrev fresh : Response
fresh = record { status = 200; reported = not_reported; commit_error = false; has_body = false }

abbrev wrong_code : Response
wrong_code = record {
  status = 200;
  reported = reported_error 400;
  commit_error = true;
  has_body = false;
}

abbrev mail : AfterCommit (List ℕ)
mail sent = (1 ∷ sent, none)

abbrev crash : AfterCommit (List ℕ)
crash sent = (sent, some "nil pointer")

abbrev touch_session : BeforeCommit ℕ (List ℕ)
touch_session a = ok (a + 100, mail ∷ [])

abbrev next : ℕ → Handled ℕ (List ℕ)
next a = handled (a + 1) fresh (touch_session ∷ []) (crash ∷ mail ∷ [])

abbrev ended : Ended ℕ (List ℕ)
ended = record {
  database = 106;
  outside = 1 ∷ 1 ∷ [];
  reply = responds fresh;
  logged = "nil pointer" ∷ [];
}

request_runs : unit_of_work true true fresh next 5 [] ≡ ended
unfolding unit_of_work finish commit run_before run_after should_commit_error
request_runs = refl

-- A wrong verification code is answered by a 400, and counted.
wrong_code_counts :
    (unit_of_work true true fresh (λ a. handled (a + 1) wrong_code [] (mail ∷ [])) 5 []).database
    ≡ 6
unfolding unit_of_work finish commit run_before run_after should_commit_error
wrong_code_counts = refl

unit_of_work_cases_example :
    Untouched 5 [] (unit_of_work true false fresh next 5 [])
    ⊎ Committed next 5 [] (unit_of_work true false fresh next 5 [])
unit_of_work_cases_example = unit_of_work_cases true false fresh next 5 []

unit_of_work-success_example : Committed next 5 [] (unit_of_work true true fresh next 5 [])
unfolding unit_of_work finish commit run_before run_after should_commit_error
unit_of_work-success_example = unit_of_work-success true true fresh next 5 [] refl

unit_of_work-server_error_example : Untouched 5 [] (unit_of_work true false fresh next 5 [])
unfolding unit_of_work finish commit run_before run_after should_commit_error
unit_of_work-server_error_example = unit_of_work-server_error true false fresh next 5 [] refl
