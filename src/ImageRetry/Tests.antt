-- ===== src/ImageRetry/Tests.antt =====
-- The queue of internal/service/image_moderation_retry_worker.go at a concrete store.
use danshi_backend.Base.{All, ◌∷◌, refl, false, ◌≡◌, String, ◌*◌, List, some, ℕ, [], arith, none}
use danshi_backend.ImageAccess.Backoff.{second, minute}
use danshi_backend.ImageRetry.Batches.{process_retry_claim-superseded}
use danshi_backend.ImageRetry.Checks.{IsValidRetry, ClaimedRow, process_retry_claim-IsValid}
use danshi_backend.ImageRetry.Queue.{RetryClaim, lease_retry, dead_retry, dead_letter_claim}
use danshi_backend.ImageRetry.Worker.{
  RetryPorts, RetryOptions, run_statement, retry_failed, after_submission, process_retry_claim,
  retry_dead, retry_superseded,
}
use danshi_backend.Moderation.Data.{
  ModerationStatus, Retry, Store, moderation_pending, retry_pending, submit_failed,
}

abbrev options : RetryOptions
options = record { max_attempts = 3; base_backoff = 30 * second; max_backoff = 30 * minute }

abbrev waiting : Retry
waiting = record {
  image_asset_id = 7;
  state = retry_pending;
  attempts = 2;
  next_attempt_at = some 10;
  lease_token = none;
  lease_until = none;
  last_error_code = submit_failed;
  dead_lettered_at = none;
  created_at = 1;
  updated_at = 1;
}

abbrev token : String
token = "0123456789abcdef0123456789abcdef"

abbrev held : Retry
held = lease_retry 500 token 20 waiting

abbrev claim : RetryClaim
claim = record { retry = held; object_key = "posts/7.jpg"; moderation = moderation_pending }

abbrev store : List Retry → Store
store rs = record {
  posts = [];
  post_images = [];
  assets = [];
  records = [];
  next_record_id = 1;
  outbox = record { intents = []; next_intent_id = 1; deliveries = [] };
  retries = rs;
  alerts = [];
}

abbrev unreachable : RetryPorts
unreachable = record { submit_image = λ a k. none; clock = 100; others = λ s. s; tx_fails = false }

abbrev buried : Store
buried = store (dead_retry 3 100 held ∷ [])

abbrev asset : ℕ → String × ModerationStatus
asset a = ("posts/7.jpg", moderation_pending)

-- The third failure of three is the last.
third_failure :
    process_retry_claim unreachable options claim (store (held ∷ [])) ≡ (buried, retry_dead, none)
unfolding process_retry_claim after_submission retry_failed run_statement dead_letter_claim
third_failure = refl

held-ClaimedRow : ClaimedRow options claim held
held-ClaimedRow = record {
  valid = record {
    tried = omega arith;
    paired = refl;
    scheduled = refl;
    buried = refl;
    released = refl;
    open_budget = λ k. omega arith;
    spent = λ k. cc k;
  };
  counted = λ k. refl;
}

process_retry_claim-IsValid_example :
    All
      (IsValidRetry options)
      (process_retry_claim unreachable options claim (store (held ∷ []))).0.retries
process_retry_claim-IsValid_example =
    process_retry_claim-IsValid unreachable options claim (store (held ∷ [])) (held-ClaimedRow, tt)

process_retry_claim-superseded_example :
    process_retry_claim unreachable options claim (store (waiting ∷ []))
    ≡ (store (waiting ∷ []), retry_superseded, none)
process_retry_claim-superseded_example =
    process_retry_claim-superseded unreachable options claim (store (waiting ∷ [])) refl refl
      (λ a k. cc k)
