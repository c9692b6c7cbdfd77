-- ===== src/ImageAccess/Tests.antt =====
-- The outbox of internal/service/image_access_worker.go at concrete inputs.
use Prim.Native.String.{len}
use danshi_backend.Base.{
  leb, ◌==◌, Option-cases, or_else, length, All, pos, negsuc, refl, ◌≤◌, Bool, ◌∷◌, none, String,
  Option, inr, arith, ◌≡◌, true, some, str_eq, ◌*◌, inl, subst, false, List, [],
}
use danshi_backend.ImageAccess.Backoff.{second, minute, retry_backoff, retry_backoff-min}
use danshi_backend.ImageAccess.Checks.{IsValid, ValidTable, Rows, Respects}
use danshi_backend.ImageAccess.Checks.Others.{
  claim_due-Row_foreign, update_claim-Row_foreign, claim_due-ValidTable, update_claim-ValidTable,
}
use danshi_backend.ImageAccess.Checks.Process.{process_claim-IsValid}
use danshi_backend.ImageAccess.Checks.Statements.{enqueue-IsValid, enqueue-Row}
use danshi_backend.ImageAccess.Completeness.{claim_due_complete}
use danshi_backend.ImageAccess.Delivery.{
  Delivery, Claim, Updates, submitting, succeeded, dead_letter,
}
use danshi_backend.ImageAccess.Fencing.{enqueue-update_claim}
use danshi_backend.ImageAccess.Handover.{claim_due-exclusive}
use danshi_backend.ImageAccess.Keys.{IsRow}
use danshi_backend.ImageAccess.Leases.{claim_due-undisturbed, IsClaimOf, claim_due-claims}
use danshi_backend.ImageAccess.Options.{RawOptions, Options, with_defaults}
use danshi_backend.ImageAccess.Outbox.{
  Tables, new_delivery, next_generation, enqueue, lease, Assets, to_claim, claim_due, update_claim,
}
use danshi_backend.ImageAccess.Ports.{
  PurgeError, Submission, Recovery, Reply, Ports, World, processing, success, replied, failed_with,
}
use danshi_backend.ImageAccess.Submissions.{submissions}
use danshi_backend.ImageAccess.Submissions.Bound.{process_claim-submissions}
use danshi_backend.ImageAccess.Submissions.Observe.{process_claim_silent}
use danshi_backend.ImageAccess.Worker.{process, process_claim}
use danshi_backend.ImageAccess.Worker.Commit.{
  rescheduled, with_delivery, now_utc, update, settle, schedule,
}
use danshi_backend.ImageAccess.Worker.Submit.{
  after_submit, after_started, submit, after_ready, after_access, apply_acl,
}

abbrev zeros : RawOptions
zeros = record {
  batch_size = pos 0;
  lease_duration = pos 0;
  acl_timeout = negsuc 4;
  unknown_grace = pos 0;
  pending_timeout = pos 0;
  max_acl_attempts = pos 0;
  max_submissions = negsuc 0;
  max_poll_failures = pos 0;
  max_unknown_checks = pos 0;
}

abbrev options : Options
options = record {
  batch_size = 4;
  lease_duration = 60 * second;
  acl_timeout = 15 * second;
  unknown_grace = 90 * second;
  pending_timeout = 10 * minute;
  max_acl_attempts = 8;
  max_submissions = 3;
  max_poll_failures = 8;
  max_unknown_checks = 12;
}

with_defaults-zeros : with_defaults zeros ≡ options
unfolding with_defaults
with_defaults-zeros = refl

abbrev token : String
token = "0123456789abcdef0123456789abcdef"

-- Image 7 was blocked: its object is to be private and its cache purged.
abbrev row : Delivery
row = record (next_generation 5 false true 100 (new_delivery 7 3 true false 40)) { created_at = 40 }

abbrev leased : Delivery
leased = lease 1000 token 200 row

abbrev finished : Delivery
finished = record (new_delivery 8 4 true false 40) {
  state = succeeded;
  next_attempt_at = none;
  completed_at = some 60;
}

abbrev assets : Assets
assets a = ("posts/7.jpg", "https://img.example/7.jpg")

abbrev claim : Claim
claim = to_claim assets leased

abbrev started : Claim
started =
    with_delivery claim
      λ d. record d { state = submitting; submit_attempts = 1; submission_started_at = some 100 }

abbrev world : List Delivery → World
world t = record { table = t; tick = 0; calls = [] }

-- Everything answers, a second passes with each interaction, and nobody else writes.
abbrev ports : Ports
ports = record {
  clock = λ n. n * second;
  others = λ n t. t;
  tx_fails = λ n. false;
  set_object_public_access = λ n key public. replied tt;
  provider_submit = λ n url. replied (record { job_id = "job-1"; partial = false });
  provider_describe = λ n url job. replied success;
  provider_recover = λ n url from to. replied (record {
    found = true;
    effect_succeeded = false;
    ambiguous = false;
    job_id = "job-1";
    state = processing;
  });
}

claim_runs :
    claim_due assets (λ a. false) 200 1000 token 4 (row ∷ finished ∷ [])
    ≡ some (leased ∷ finished ∷ [], claim ∷ [])
unfolding claim_due
claim_runs = refl

process_runs : (process_claim ports options claim (world (leased ∷ []))).0 ≡ (rescheduled, none)
unfolding process_claim process apply_acl after_access after_ready submit after_started after_submit
    schedule settle update update_claim now_utc retry_backoff
process_runs = refl

leased-Rows : Rows options claim (leased ∷ finished ∷ [])
leased-Rows = (
  (refl, (refl, tt)),
  (
    record {
      valid = ground arith;
      current = λ m. ground arith;
      follows = λ _. record { same_state = refl; same_purge = refl };
    },
    (record { valid = ground arith; current = λ m. ground arith; follows = λ m. cc }, tt),
  ),
)

-- Meanwhile: another worker claims what is due (the row of the claim included, its lease being over),
-- a sibling of the claim (asset 9, the same worker) is given up, and an intent for asset 11 is queued.
abbrev claimed_rows : List Delivery → Option (List Delivery × List Claim) → List Delivery
claimed_rows t none = t
claimed_rows t (some (t', claims)) = t'

abbrev another : List Delivery → Option (List Delivery × List Claim)
another = claim_due assets (λ a. false) 2000 9000 "fedcba9876543210" 4

abbrev sibling : Claim
sibling = to_claim assets (lease 1000 token 200 (record row { image_asset_id = 9 }))

abbrev abandoned : Updates
abandoned d = record d {
  state = dead_letter;
  next_attempt_at = none;
  lease_token = none;
  lease_until = none;
  dead_lettered_at = some 210;
}

abbrev queued : List Delivery → Tables
queued t = record { intents = []; next_intent_id = 9; deliveries = t }

abbrev meanwhile : List Delivery → List Delivery
meanwhile t =
    let given = (update_claim sibling abandoned (claimed_rows t (another t))).0 in
    (enqueue 11 95 true true 300 (queued given)).0.deliveries

claimed_rows-Rows :
    (c : Claim) (t : List Delivery)
    → str_eq "fedcba9876543210" (or_else c.lease_token "") ≡ false
    → Rows options c t
    → Rows options c (claimed_rows t (another t))
claimed_rows-Rows c t other h = elim (Option-cases (another t)) [
  | inl e ↦ rw e h
  | inr ((t', claims), e) ↦ rw e (
      claim_due-Row_foreign options c assets (λ a. false) 2000 9000 "fedcba9876543210" 4 t t' claims
        refl other e h)
]

claimed_rows-ValidTable :
    (t : List Delivery) → ValidTable options t → ValidTable options (claimed_rows t (another t))
claimed_rows-ValidTable t h = elim (Option-cases (another t)) [
  | inl e ↦ rw e h
  | inr ((t', claims), e) ↦ rw e (
      claim_due-ValidTable options assets (λ a. false) 2000 9000 "fedcba9876543210" 4 t t' claims
        refl e h)
]

abandoned-IsValid : (d : Delivery) → IsValid options d → IsValid options (abandoned d)
abandoned-IsValid d v = ground arith

abbrev busy : Ports
busy = record ports { others = λ n t. meanwhile t }

abbrev job_of : {A : Type 0} → (A → String) → Reply PurgeError A → Bool
job_of f (failed_with e) = true
job_of f (replied a) = leb (len (f a)) 128

-- All of this is tolerated.
busy-Respects : Respects options busy claim
busy-Respects = record {
  keep_rows = λ c a g k n t h.
      let other : str_eq "fedcba9876543210" (or_else c.lease_token "") ≡ false = rw k refl in
      let apart : (9 == c.image_asset_id) ≡ false = rw a refl in
      enqueue-Row options c 11 95 true true 300
        (queued (update_claim sibling abandoned (claimed_rows t (another t))).0)
        (update_claim-Row_foreign options c sibling abandoned (claimed_rows t (another t))
          (λ d. refl) (λ d v m. abandoned-IsValid d v) (λ d. inl refl) (inl apart)
          (claimed_rows-Rows c t other h));
  keep_valid = λ n t h.
      enqueue-IsValid options 11 95 true true 300
        (queued (update_claim sibling abandoned (claimed_rows t (another t))).0)
        (update_claim-ValidTable options sibling abandoned (claimed_rows t (another t)) (λ d. refl)
          (λ d v m. abandoned-IsValid d v) (claimed_rows-ValidTable t h));
  submitted_ids = λ n url a e. subst (λ r. job_of (λ (x : Submission). x.job_id) r ≡ true) e refl;
  recovered_ids =
      λ n url from to a e. subst (λ r. job_of (λ (x : Recovery). x.job_id) r ≡ true) e refl;
}

process_claim-IsValid_example :
    ValidTable options (process_claim busy options claim (world (leased ∷ finished ∷ []))).1.table
process_claim-IsValid_example =
    process_claim-IsValid options busy claim busy-Respects (world (leased ∷ finished ∷ []))
      leased-Rows

claim_due-claims_example :
    (length (claim ∷ []) ≤ 4)
    × All
        (IsClaimOf assets
          (λ a. false)
          200
          1000
          token
          4
          (row ∷ finished ∷ [])
          (leased ∷ finished ∷ []))
        (claim ∷ [])
claim_due-claims_example =
    claim_due-claims assets (λ a. false) 200 1000 token 4 (row ∷ finished ∷ [])
      (leased ∷ finished ∷ []) (claim ∷ []) (refl, (refl, tt)) claim_runs

claim_due-undisturbed_example : IsRow (leased ∷ finished ∷ []) finished
claim_due-undisturbed_example =
    claim_due-undisturbed assets (λ a. false) 200 1000 token 4 (row ∷ finished ∷ [])
      (leased ∷ finished ∷ []) (claim ∷ []) finished (refl, (refl, tt)) claim_runs refl (inl refl)

abbrev tables : Tables
tables = record { intents = []; next_intent_id = 6; deliveries = leased ∷ finished ∷ [] }

enqueue-update_claim_example :
    let ds = (enqueue 7 90 true true 500 tables).0.deliveries in
    update_claim claim (λ d. record d { state = succeeded }) ds ≡ (ds, false)
enqueue-update_claim_example =
    enqueue-update_claim claim 90 true true 500 (λ d. record d { state = succeeded }) tables refl
      (refl, (refl, tt)) ((λ _. omega arith), ((λ m. cc), tt))

process_claim_silent_example :
    submissions (process_claim ports options started (world (started.delivery ∷ []))).1.calls ≡ 0
process_claim_silent_example =
    process_claim_silent ports options started (inl refl) (world (started.delivery ∷ []))

process_claim-submissions_example :
    submissions (process_claim ports options claim (world (leased ∷ []))).1.calls ≤ 1
process_claim-submissions_example =
    process_claim-submissions ports options claim (world (leased ∷ []))

retry_backoff-min_example : retry_backoff 4 (10 * second) (5 * minute) ≡ 80 * second
retry_backoff-min_example = retry_backoff-min 4 (10 * second) (5 * minute)

second_claim :
    claim_due assets (λ a. false) 300 2000 "another worker" 9 (leased ∷ finished ∷ [])
    ≡ some (leased ∷ finished ∷ [], [])
unfolding claim_due
second_claim = refl

claim_due-exclusive_example : All (λ c. IsRow (leased ∷ finished ∷ []) c.delivery) (claim ∷ [])
claim_due-exclusive_example =
    claim_due-exclusive assets (λ a. false) 200 1000 token 4 (row ∷ finished ∷ [])
      (leased ∷ finished ∷ []) (leased ∷ finished ∷ []) (claim ∷ []) [] (λ a. false) 300 2000
      "another worker" 9 (refl, (refl, tt)) claim_runs second_claim (ground arith)

claim_due_complete_example : IsRow (leased ∷ finished ∷ []) leased
claim_due_complete_example =
    claim_due_complete assets (λ a. false) 200 1000 token 4 (row ∷ finished ∷ [])
      (leased ∷ finished ∷ []) (claim ∷ []) row claim_runs (ground arith) refl refl refl
