-- ===== src/Transactions/UnitOfWork.antt =====
-- `UnitOfWork` of internal/middleware/uow.go, with the error marks of internal/httpx/errors.go.
use danshi_backend.Base.{
  ltb, leb, if◌then◌else◌, Result, ok, err, ◌||◌, ◌++◌, String, ◌&&◌, List, false, not, true, ℕ,
  Bool, [],
}
use danshi_backend.Transactions.Queues.{AfterCommit, BeforeCommit, run_after, run_before}

-- The mark that `Fail` leaves: none, one that holds no error, or an error with the HTTP status that
-- `apierr.As` gives it.
pub data Reported : Type 0 where
  not_reported reported_nothing : Reported
  reported_error : ℕ → Reported

pub record Response : Type 0 where
  pub status : ℕ
  pub reported : Reported
  pub commit_error : Bool
  pub has_body : Bool

abbrev pub has_error : Response → Bool
has_error r = elim r.reported [ not_reported ↦ false | _ ↦ true ]

-- `shouldCommitError`.
unfoldable pub should_commit_error : Response → Bool
should_commit_error r =
    if not r.commit_error then false else if leb 500 r.status then false else elim r.reported [
      | not_reported ↦ leb 400 r.status && ltb r.status 500
      | reported_nothing ↦ false
      | reported_error status ↦ leb 400 status && ltb status 500
    ]

-- `Fail` after `ResetBody`.
abbrev pub fail_clean : ℕ → Response → Response
fail_clean status r = record r { reported = reported_error status; has_body = false }

-- `Fail` of an error of the driver, which `apierr.As` turns into a 500.
abbrev pub fail : Response → Response
fail r = record r { reported = reported_error 500 }

-- What the handlers after the middleware do with the transaction: they panic, or leave the working
-- copy, a response and the queues.
pub data Handled (A W : Type 0) : Type 0 where
  panicked : String → Handled A W
  handled : A → Response → List (BeforeCommit A W) → List (AfterCommit W) → Handled A W

pub data HttpReply : Type 0 where
  responds : Response → HttpReply
  panics_again : String → HttpReply

pub record Ended (A W : Type 0) : Type 0 where
  pub database : A
  pub outside : W
  pub reply : HttpReply
  pub logged : List String

module _ {A W : Type 0} where
  abbrev pub rolled_back : A → W → HttpReply → Ended A W
  rolled_back a w reply = record { database = a; outside = w; reply = reply; logged = [] }

  -- After the operations before the commit: the commit, and the side effects after it.
  unfoldable pub commit :
      Bool
      → A
      → W
      → Response
      → List (AfterCommit W)
      → Result ℕ (A × List (AfterCommit W))
      → Ended A W
  unfolding run_after
  commit commits a w r after (err e) = rolled_back a w (responds (fail_clean e r))
  commit commits a w r after (ok (a', more)) =
      if not commits
      then rolled_back a w (responds (fail_clean 500 r))
      else let done = run_after (after ++ more) w in
        record { database = a'; outside = done.0; reply = responds r; logged = done.1 }

  unfoldable pub finish : Bool → A → W → Handled A W → Ended A W
  unfolding commit run_before should_commit_error
  finish commits a w (panicked v) = rolled_back a w (panics_again v)
  finish commits a w (handled a' r before after) =
      if (has_error r || leb 400 r.status) && not (should_commit_error r)
      then rolled_back a w (responds r)
      else commit commits a w r after (run_before before a')

  -- `begins` and `commits` say whether the driver succeeds; `next` is `c.Next`; `fresh` the response
  -- at the start of the request.
  unfoldable pub unit_of_work :
      (begins commits : Bool) → Response → (A → Handled A W) → A → W → Ended A W
  unfolding finish
  unit_of_work begins commits fresh next a w =
      if not begins then rolled_back a w (responds (fail fresh)) else finish commits a w (next a)
