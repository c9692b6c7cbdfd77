-- ===== src/Accounts/Requests.antt =====
-- What a service of internal/service returns: a result or an error, and the tables that its
-- statements leave. Whether they are kept is decided by the request's transaction. A statement that
-- fails aborts the transaction, and is no step of the model.
use danshi_backend.Base.{
  if◌then◌else◌, if_rule, Result, ok, err, ap, ℕ, refl, ◌≡◌, Option, false, true, Bool, none,
  String, some,
}
use danshi_backend.Accounts.Data.{Accounts}

-- The codes of an invalid field.
pub data FieldProblem : Type 0 where
  required too_short too_long invalid_format invalid_enum invalid_domain : FieldProblem
  out_of_range conflict : FieldProblem

-- The errors of internal/apierr that the services return, the username's reviews among them.
-- `persisted` marks one whose writes are kept (`persistedError` of internal/service/auth.go).
pub data AccountError : Type 0 where
  invalid_field : String → FieldProblem → AccountError
  service_unavailable verify_code_invalid email_taken username_taken : AccountError
  internal not_owner unauthorized session_not_found user_not_found username_refused : AccountError
  verify_code_too_many : ℕ → AccountError
  account_banned : Option ℕ → AccountError
  persisted : AccountError → AccountError

-- `ShouldCommitError`.
abbrev pub should_commit : AccountError → Bool
should_commit (persisted e) = true
should_commit _ = false

abbrev pub Request : Type 0 → Type 0
Request A = Accounts → Result AccountError A × Accounts

abbrev pub proceed :
    {A B : Type 0}
    → Result AccountError A
    → Accounts
    → (A → Request B)
    → Result AccountError B × Accounts
proceed (ok a) s f = f a s
proceed (err e) s f = (err e, s)

infixl 5 ◌>>=◌ ◌>>◌
abbrev pub ◌>>=◌ : {A B : Type 0} → Request A → (A → Request B) → Request B
◌>>=◌ m f s = proceed (m s).0 (m s).1 f

abbrev pub ◌>>◌ : {B : Type 0} → Request (Unit {0}) → Request B → Request B
m >> k = m >>= λ _. k

-- The same of results that touch no table.
abbrev pub and_then :
    {A B : Type 0} → Result AccountError A → (A → Result AccountError B) → Result AccountError B
and_then (ok a) f = f a
and_then (err e) f = err e

abbrev pub done : {A : Type 0} → A → Request A
done a s = (ok a, s)

abbrev pub refuse : {A : Type 0} → AccountError → Request A
refuse e s = (err e, s)

abbrev pub check : Bool → AccountError → Request (Unit {0})
check b e s = if b then (ok tt, s) else (err e, s)

abbrev pub read : {A : Type 0} → (Accounts → A) → Request A
read f s = (ok (f s), s)

abbrev pub lift : {A : Type 0} → Result AccountError A → Request A
lift r s = (r, s)

abbrev pub write : (Accounts → Accounts) → Request (Unit {0})
write f s = (ok tt, f s)

abbrev pub found : {A : Type 0} → Option A → AccountError → Request A
found none e = refuse e
found (some a) e = done a

-- The tables after the request's transaction (internal/middleware/uow.go): kept if it succeeded or
-- its error asks for that, and those before it otherwise.
abbrev pub is_kept : {A : Type 0} → Result AccountError A → Bool
is_kept (ok a) = true
is_kept (err e) = should_commit e

abbrev pub after : {A : Type 0} → Request A → Accounts → Accounts
after m s = if is_kept (m s).0 then (m s).1 else s

-- What holds before a request holds in the tables that it leaves.
pub record Keeps (P : Accounts → Type 0) {A : Type 0} (m : Request A) : Type 0 where
  pub keeps : (s : Accounts) → P s → P (m s).1

module _ {P : Accounts → Type 0} where
  proceed-Keeps :
      {A B : Type 0} (r : Result AccountError A) (s : Accounts) (f : A → Request B)
      → ((a : A) → Keeps P (f a))
      → P s
      → P (proceed r s f).1
  proceed-Keeps (ok a) s f k h = (k a).keeps s h
  proceed-Keeps (err e) s f k h = h

  pub bind-Keeps :
      {A B : Type 0} {m : Request A} {f : A → Request B}
      → Keeps P m
      → ((a : A) → Keeps P (f a))
      → Keeps P (m >>= f)
  bind-Keeps {m = m} {f} hm hf = record {
    keeps = λ s h. proceed-Keeps (m s).0 (m s).1 f hf (hm.keeps s h);
  }

  pub done-Keeps : {A : Type 0} {a : A} → Keeps P (done a)
  done-Keeps = record { keeps = λ s h. h }

  pub refuse-Keeps : {A : Type 0} {e : AccountError} → Keeps P (refuse {A = A} e)
  refuse-Keeps = record { keeps = λ s h. h }

  pub check-Keeps : (b : Bool) (e : AccountError) → Keeps P (check b e)
  check-Keeps b e = record {
    keeps = λ s h.
        if_rule (λ (r : Result AccountError (Unit {0}) × Accounts). P r.1) b (λ _. h) (λ _. h);
  }

  pub read-Keeps : {A : Type 0} {f : Accounts → A} → Keeps P (read f)
  read-Keeps = record { keeps = λ s h. h }

  pub lift-Keeps : {A : Type 0} {r : Result AccountError A} → Keeps P (lift r)
  lift-Keeps = record { keeps = λ s h. h }

  pub write-Keeps : {f : Accounts → Accounts} → ((s : Accounts) → P s → P (f s)) → Keeps P (write f)
  write-Keeps k = record { keeps = k }

  pub found-Keeps : {A : Type 0} (o : Option A) (e : AccountError) → Keeps P (found o e)
  found-Keeps none e = record { keeps = λ s h. h }
  found-Keeps (some a) e = record { keeps = λ s h. h }

  pub if-Keeps :
      {A : Type 0} (b : Bool) {m k : Request A}
      → Keeps P m
      → Keeps P k
      → Keeps P (if b then m else k)
  if-Keeps true hm hk = hm
  if-Keeps false hm hk = hk

  -- A property that a request keeps survives its transaction, kept or rolled back.
  pub after-Keeps : {A : Type 0} (m : Request A) (s : Accounts) → Keeps P m → P s → P (after m s)
  after-Keeps m s k h = if_rule P (is_kept (m s).0) (λ _. k.keeps s h) (λ _. h)

module _ {A B : Type 0} (m : Request A) (f : A → Request B) where
  proceed-eq_ok :
      (r : Result AccountError A) (s : Accounts) {b : B} {s' : Accounts}
      → proceed r s f ≡ (ok b, s')
      → (a : A) × (r ≡ ok a) × (f a s ≡ (ok b, s'))
  proceed-eq_ok (ok a) s h = (a, refl, h)
  proceed-eq_ok (err e) s {b} h = cc (ap (λ (r : Result AccountError B × Accounts). r.0) h)

  -- A sequence succeeds only where both of its parts do.
  pub request-eq_ok :
      (s : Accounts) {b : B} {s' : Accounts}
      → (m >>= f) s ≡ (ok b, s')
      → (a : A) × ((m s).0 ≡ ok a) × (f a (m s).1 ≡ (ok b, s'))
  request-eq_ok s h = proceed-eq_ok (m s).0 (m s).1 h

pub ruleset keeps_rules = (
  bind-Keeps, done-Keeps, refuse-Keeps, check-Keeps, read-Keeps, lift-Keeps, write-Keeps,
  found-Keeps, if-Keeps,
)
