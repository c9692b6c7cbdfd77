-- ===== src/ImageAccess/Checks.antt =====
-- The CHECK constraints that migrations/00012_image_access_outbox.sql puts on a delivery, and what
-- the worker of internal/service/image_access_worker.go adds to them: its budgets, and that only a
-- row which is still to be delivered is leased.
pub mod Commit
pub mod Submit
pub mod Observe
pub mod Process
pub mod Statements
pub mod Others
use Prim.Native.String.{len}
use danshi_backend.Base.{
  leb, is_some, or_else, All, ◌<◌, ◌≤◌, Bool, ◌∷◌, not, ◌||◌, none, String, Option, ◌&&◌, ◌≡◌, true,
  some, str_eq, ℕ, false, List, [],
}
use danshi_backend.ImageAccess.Delivery.{
  submitted, State, Delivery, Claim, is_terminal, pending_acl, submitting, succeeded, dead_letter,
}
use danshi_backend.ImageAccess.Keys.{IsUnique}
use danshi_backend.ImageAccess.Options.{Options}
use danshi_backend.ImageAccess.Outbox.{fenced, held_by}
use danshi_backend.ImageAccess.Ports.{Submission, Recovery, Ports, replied}

-- The states that a row may have which needs no purge.
abbrev pub needs_no_purge : State → Bool
needs_no_purge pending_acl = true
needs_no_purge s = is_terminal s

-- `provider_job_id IS NULL OR length(provider_job_id) BETWEEN 1 AND 128`.
abbrev pub job_fits : Option String → Bool
job_fits none = true
job_fits (some job) = not (str_eq job "") && leb (len job) 128

-- `lease_token IS NULL OR length(lease_token) BETWEEN 16 AND 64`.
abbrev pub token_fits : Option String → Bool
token_fits none = true
token_fits (some token) = leb 16 (len token) && leb (len token) 64

pub record IsValid (o : Options) (d : Delivery) : Type 0 where
  pub generation_pos : 0 < d.generation
  pub lease_whole : is_some d.lease_token ≡ is_some d.lease_until
  pub lease_live : is_some d.lease_token ≡ true → is_terminal d.state ≡ false
  pub token_length : token_fits d.lease_token ≡ true
  pub job_length : job_fits d.provider_job_id ≡ true
  pub submitting_started : d.state ≡ submitting → is_some d.submission_started_at ≡ true
  pub submitted_started : d.state ≡ submitted → is_some d.submission_started_at ≡ true
  pub submitted_job : d.state ≡ submitted → is_some d.provider_job_id ≡ true
  pub succeeded_completed : d.state ≡ succeeded → is_some d.completed_at ≡ true
  pub dead_stamped : d.state ≡ dead_letter → is_some d.dead_lettered_at ≡ true
  pub purge_states : (d.purge_required || needs_no_purge d.state) ≡ true
  pub terminal_idle : is_terminal d.state ≡ not (is_some d.next_attempt_at)
  pub acl_budget : d.acl_attempts ≤ o.max_acl_attempts
  pub submit_budget : d.submit_attempts ≤ o.max_submissions
  pub unknown_budget : d.unknown_checks ≤ o.max_unknown_checks

-- What a row has in common with the claim that is processed, as long as the fence holds.
pub record Same (c : Claim) (d : Delivery) : Type 0 where
  pub same_state : d.state ≡ c.state
  pub same_purge : d.purge_required ≡ c.purge_required

-- A claim is never ahead of the row that it leases.
abbrev pub Current : Claim → Delivery → Type 0
Current c d =
    held_by c.image_asset_id (or_else c.lease_token "") d ≡ true → c.generation ≤ d.generation

pub record Row (o : Options) (c : Claim) (d : Delivery) : Type 0 where
  pub valid : IsValid o d
  pub current : Current c d
  pub follows : fenced c d ≡ true → Same c d

-- `image_asset_id` is the primary key, and every row is within the constraints.
abbrev pub ValidTable : Options → List Delivery → Type 0
ValidTable o t = IsUnique t × All (IsValid o) t

abbrev pub Rows : Options → Claim → List Delivery → Type 0
Rows o c t = IsUnique t × All (Row o c) t

-- What other transactions commit keeps the keys and the constraints, and a row that is still under
-- this fence (asset, generation and token) afterwards is as before to whoever holds it. The job ids
-- of the provider fit their column.
pub record RespectsFence (o : Options) (p : Ports) (asset generation : ℕ) (token : Option String)
    : Type 0 where
  pub keep_rows :
      (c : Claim)
      → c.image_asset_id ≡ asset
      → c.generation ≡ generation
      → c.lease_token ≡ token
      → (n : ℕ) (t : List Delivery) → Rows o c t
      → Rows o c (p.others n t)
  pub keep_valid : (n : ℕ) (t : List Delivery) → ValidTable o t → ValidTable o (p.others n t)
  pub submitted_ids :
      (n : ℕ) (url : String) (s : Submission)
      → p.provider_submit n url ≡ replied s
      → leb (len s.job_id) 128 ≡ true
  pub recovered_ids :
      (n : ℕ) (url : String) (from to : ℕ) (r : Recovery)
      → p.provider_recover n url from to ≡ replied r
      → leb (len r.job_id) 128 ≡ true

abbrev pub Respects : Options → Ports → Claim → Type 0
Respects o p c = RespectsFence o p c.image_asset_id c.generation c.lease_token

pub Row-IsValid :
    (o : Options) (c : Claim) (ds : List Delivery) → All (Row o c) ds → All (IsValid o) ds
Row-IsValid o c [] h = tt
Row-IsValid o c (d ∷ ds) h = (h.0.valid, Row-IsValid o c ds h.1)
