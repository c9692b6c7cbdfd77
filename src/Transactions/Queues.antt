-- ===== src/Transactions/Queues.antt =====
-- The queues of internal/infra/db/before_commit.go and after_commit.go, and `RunInTx` of uow.go in
-- the same directory. `A` is what the transaction reads and writes, `W` the world outside it.
use danshi_backend.Base.{
  if◌then◌else◌, Result, ◌>>=◌, ok, err, Option, ℕ, String, ◌∷◌, some, [], Bool, not, none, ◌++◌,
  List,
}

-- A side effect that runs after the commit, and the value that it panicked with, if it did.
abbrev pub AfterCommit : Type 0 → Type 0
AfterCommit W = W → W × Option String

-- An operation that runs at the end of the transaction: it writes, and may register side effects, or
-- it fails with an error of this HTTP status. What it registers in its own queue is not run, since
-- `Run` has taken the queue's contents before.
abbrev pub BeforeCommit : Type 0 → Type 0 → Type 0
BeforeCommit A W = A → Result ℕ (A × List (AfterCommit W))

-- `AfterCommitQueue.Run`: the panics that it has recovered, in order.
unfoldable pub run_after : {W : Type 0} → List (AfterCommit W) → W → W × List String
run_after [] w = (w, [])
run_after (f ∷ fs) w =
    let done = f w in
    let rest = run_after fs done.0 in
    (rest.0, (elim done.1 [ none ↦ rest.1 | some v ↦ v ∷ rest.1 ]))

module _ {A W : Type 0} where
  -- `BeforeCommitQueue.Run`.
  unfoldable pub run_before : List (BeforeCommit A W) → A → Result ℕ (A × List (AfterCommit W))
  run_before [] a = ok (a, [])
  run_before (f ∷ fs) a = do
    first ← f a
    rest ← run_before fs first.0
    ok (rest.0, first.1 ++ rest.1)

  -- `RunInTx`: `fn` returns its error or the working copy and what it has registered; the driver may
  -- fail to begin or to commit. There is no queue for after the commit.
  unfoldable pub run_in_tx :
      (begins commits : Bool) → (A → Result ℕ (A × List (BeforeCommit A W))) → A → A × Option ℕ
  unfolding run_before
  run_in_tx begins commits fn a = if not begins then (a, some 500) else (elim ending [
    | err e ↦ (a, some e)
    | ok written ↦ if commits then (written.0, none) else (a, some 500)
  ])
    where
      ending : Result ℕ (A × List (AfterCommit W))
      ending = do done ← fn a; run_before done.1 done.0
