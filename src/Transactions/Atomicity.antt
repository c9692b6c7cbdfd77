-- ===== src/Transactions/Atomicity.antt =====
-- Whether a request's writes are kept (internal/middleware/uow.go): all of them or none, and in
-- accordance with the response that the client sees.
use danshi_backend.Base.{
  ltb, leb, Bool-cases, Result, ok, err, ◌||◌, ◌++◌, subst, ◌&&◌, inr, List, refl, false, ◌≡◌, ◌⊎◌,
  arith, not, true, ℕ, Bool, inl,
}
use danshi_backend.Transactions.Queues.{AfterCommit, BeforeCommit, run_after, run_before}
use danshi_backend.Transactions.UnitOfWork.{
  Response, has_error, should_commit_error, Handled, HttpReply, Ended, commit, finish, unit_of_work,
  reported_error, panicked, handled, responds, panics_again,
}

-- The HTTP status that the client sees: of the error if one is reported.
abbrev pub shown_status : Response → ℕ
shown_status r = elim r.reported [ reported_error status ↦ status | _ ↦ r.status ]

abbrev pub is_success : HttpReply → Bool
is_success (responds r) = not (has_error r) && ltb r.status 400
is_success (panics_again _) = false

abbrev pub is_server_error : HttpReply → Bool
is_server_error (responds r) = leb 500 (shown_status r)
is_server_error (panics_again _) = true

refused_status :
    (r : Response)
    → ((has_error r || leb 400 r.status) && not (should_commit_error r)) ≡ true
    → is_success (responds r) ≡ false
refused_status r h = ground (arith, h)

accepted_status :
    (r : Response)
    → ((has_error r || leb 400 r.status) && not (should_commit_error r)) ≡ false
    → ltb (shown_status r) 500 ≡ true
unfolding should_commit_error
accepted_status r h = ground (arith, h)

-- The request is committed: the handlers finished with this response, which is no server error, the
-- operations before the commit succeeded in order, and then the side effects ran.
pub record Committed {A W : Type 0} (next : A → Handled A W) (a : A) (w : W) (e : Ended A W)
    : Type 0 where
  pub working : A
  pub response : Response
  pub before : List (BeforeCommit A W)
  pub after : List (AfterCommit W)
  pub more : List (AfterCommit W)
  pub finished : next a ≡ handled working response before after
  pub written : run_before before working ≡ ok (e.database, more)
  pub ran : e.outside ≡ (run_after (after ++ more) w).0
  pub answered : e.reply ≡ responds response
  pub accepted : ltb (shown_status response) 500 ≡ true

-- Nothing of the request is left.
pub record Untouched {A W : Type 0} (a : A) (w : W) (e : Ended A W) : Type 0 where
  pub same_database : e.database ≡ a
  pub same_outside : e.outside ≡ w
  pub refused : is_success e.reply ≡ false

module _ {A W : Type 0} (next : A → Handled A W) (a : A) (w : W) where
  commit_cases :
      (commits : Bool) (a' : A) (r : Response) (before : List (BeforeCommit A W))
      (after : List (AfterCommit W)) (ending : Result ℕ (A × List (AfterCommit W)))
      → next a ≡ handled a' r before after
      → run_before before a' ≡ ending
      → ltb (shown_status r) 500 ≡ true
      → Untouched a w (commit commits a w r after ending)
        ⊎ Committed next a w (commit commits a w r after ending)
  unfolding commit
  commit_cases commits a' r before after (err e) n b fine =
      inl (record { same_database = refl; same_outside = refl; refused = refl })
  commit_cases false a' r before after (ok (b, more)) n e fine =
      inl (record { same_database = refl; same_outside = refl; refused = refl })
  commit_cases true a' r before after (ok (b, more)) n e fine = inr (record {
    working = a';
    response = r;
    before = before;
    after = after;
    more = more;
    finished = n;
    written = e;
    ran = refl;
    answered = refl;
    accepted = fine;
  })

  finish_cases :
      (commits : Bool) (h : Handled A W)
      → next a ≡ h
      → Untouched a w (finish commits a w h) ⊎ Committed next a w (finish commits a w h)
  unfolding finish
  finish_cases commits (panicked v) n =
      inl (record { same_database = refl; same_outside = refl; refused = refl })
  finish_cases commits (handled a' r before after) n =
      let refuse = (has_error r || leb 400 r.status) && not (should_commit_error r) in
      elim (Bool-cases refuse) [
        | inl e ↦
            rw (finish, e)
              (inl (record {
                same_database = refl;
                same_outside = refl;
                refused = refused_status r e;
              }))
        | inr e ↦
            rw (finish, e) (commit_cases commits a' r before after _ n refl (accepted_status r e))
      ]

-- A request is atomic. Either it leaves neither a write nor a side effect, and the client sees no
-- success; or its handlers finished without a server error, all its operations before the commit
-- succeeded in their order, everything that they wrote is kept, every side effect has then run, and
-- the client sees the handlers' response.
pub unit_of_work_cases :
    {A W : Type 0} (begins commits : Bool) (fresh : Response) (next : A → Handled A W) (a : A)
    (w : W)
    → Untouched a w (unit_of_work begins commits fresh next a w)
      ⊎ Committed next a w (unit_of_work begins commits fresh next a w)
unfolding unit_of_work
unit_of_work_cases false commits fresh next a w =
    inl (record { same_database = refl; same_outside = refl; refused = refl })
unit_of_work_cases true commits fresh next a w = finish_cases next a w commits (next a) refl

-- A client that sees a success reads committed data.
pub unit_of_work-success :
    {A W : Type 0} (begins commits : Bool) (fresh : Response) (next : A → Handled A W) (a : A)
    (w : W)
    → is_success (unit_of_work begins commits fresh next a w).reply ≡ true
    → Committed next a w (unit_of_work begins commits fresh next a w)
unit_of_work-success begins commits fresh next a w h =
    elim (unit_of_work_cases begins commits fresh next a w) [
      | inl u ↦ cc (h, u.refused)
      | inr c ↦ c
    ]

-- A request that ends in a server error or in a panic leaves nothing, whatever it has asked for.
pub unit_of_work-server_error :
    {A W : Type 0} (begins commits : Bool) (fresh : Response) (next : A → Handled A W) (a : A)
    (w : W)
    → is_server_error (unit_of_work begins commits fresh next a w).reply ≡ true
    → Untouched a w (unit_of_work begins commits fresh next a w)
unit_of_work-server_error begins commits fresh next a w h =
    elim (unit_of_work_cases begins commits fresh next a w) [
      | inl u ↦ u
      | inr c ↦
          let shown : leb 500 (shown_status c.response) ≡ true =
            subst (λ reply. is_server_error reply ≡ true) c.answered h in
          ground (arith, shown, c.accepted)
    ]
