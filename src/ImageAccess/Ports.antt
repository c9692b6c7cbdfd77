-- ===== src/ImageAccess/Ports.antt =====
-- What the worker of internal/service/image_access_worker.go calls and does not implement: object
-- storage, the cache purge provider (internal/service/moderation_ports.go), the clock, and the
-- database's transactions, in which other processes change the table between two of its own.
use danshi_backend.Base.{ℕ, suc, String, Bool, List, ◌∷◌}
use danshi_backend.ImageAccess.Delivery.{Delivery}

pub data PurgeErrorKind : Type 0 where
  unknown retryable permanent : PurgeErrorKind

-- An error of the provider: with a kind, or any other.
pub data PurgeError : Type 0 where
  classified : PurgeErrorKind → PurgeError
  unclassified : PurgeError

abbrev pub classify : PurgeError → PurgeErrorKind
classify (classified kind) = kind
classify unclassified = permanent

pub data TaskState : Type 0 where
  processing success failed timeout canceled protocol_unknown : TaskState
  other_state : String → TaskState

pub record Submission : Type 0 where
  pub job_id : String
  pub partial : Bool

pub record Recovery : Type 0 where
  pub found : Bool
  pub effect_succeeded : Bool
  pub ambiguous : Bool
  pub job_id : String
  pub state : TaskState

pub data Reply {ℓ} (E : Type 0) (A : Type ℓ) : Type ℓ where
  replied : A → Reply E A
  failed_with : E → Reply E A

-- A transaction that fails is rolled back.
pub data TxError : Type 0 where
  tx_failed : TxError

-- A call that reaches a system outside the database.
pub data Call : Type 0 where
  set_access : String → Bool → Call
  submit_call : String → Call
  describe_call : String → String → Call
  recover_call : String → Call

-- Every answer depends on how many interactions came before, so a port may answer the same
-- question differently each time. `others n` is what other transactions commit before the n-th
-- interaction; `tx_fails n` says that the transaction then fails.
pub record Ports : Type 0 where
  pub clock : ℕ → ℕ
  pub others : ℕ → List Delivery → List Delivery
  pub tx_fails : ℕ → Bool
  pub set_object_public_access : ℕ → String → Bool → Reply (Unit {0}) (Unit {0})
  pub provider_submit : ℕ → String → Reply PurgeError Submission
  pub provider_describe : ℕ → String → String → Reply PurgeError TaskState
  pub provider_recover : ℕ → String → ℕ → ℕ → Reply PurgeError Recovery

-- The table, the interactions so far, and the outside calls made, the latest first.
pub record World : Type 0 where
  pub table : List Delivery
  pub tick : ℕ
  pub calls : List Call

abbrev pub M : Type 0 → Type 0
M A = World → A × World

abbrev pub pure : {A : Type 0} → A → M A
pure a w = (a, w)

infixl 5 ◌>>=◌ ◌>>◌
abbrev pub ◌>>=◌ : {A B : Type 0} → M A → (A → M B) → M B
◌>>=◌ m f w = let (a, w') = m w in f a w'

abbrev pub ◌>>◌ : {A B : Type 0} → M A → M B → M B
m >> k = m >>= λ _. k

abbrev pub call : {A : Type 0} → Call → (ℕ → A) → M A
call c answer w = (answer w.tick, record w { tick = suc w.tick; calls = c ∷ w.calls })
