-- ===== src/ImageRetry/Queue.antt =====
-- The statements of internal/repository/image_moderation_retry.go over the rows of the queue.
use danshi_backend.Base.{
  ltb, ◌==◌, if◌then◌else◌, or_else, length, take, filter, any, not, Bool, true, Option, ◌||◌, some,
  String, [], ◌∷◌, ◌&&◌, map, none, ℕ, false, List,
}
use danshi_backend.ImageAccess.Outbox.{reached, lease_open, token_is}
use danshi_backend.Moderation.Data.{
  ModerationStatus, RetryError, Retry, retry_pending, retry_dead_letter, submissions_exhausted,
}

-- A claimed row with what the join reads from `image_assets`.
pub record RetryClaim : Type 0 where
  pub retry : Retry
  pub object_key : String
  pub moderation : ModerationStatus

abbrev pub has_retry : ℕ → Retry → Bool
has_retry image r = r.image_asset_id == image

abbrev pub is_retry_pending : Retry → Bool
is_retry_pending r = elim r.state [ retry_pending ↦ true | retry_dead_letter ↦ false ]

-- `Enqueue`: an existing row, also a dead letter, is left as it is.
unfoldable pub enqueue_retry : ℕ → ℕ → RetryError → ℕ → List Retry → List Retry
enqueue_retry image next code now_t rs =
    if any (has_retry image) rs
    then rs
    else record {
      image_asset_id = image;
      state = retry_pending;
      attempts = 1;
      next_attempt_at = some next;
      lease_token = none;
      lease_until = none;
      last_error_code = code;
      dead_lettered_at = none;
      created_at = now_t;
      updated_at = now_t;
    }
      ∷ rs

abbrev pub is_retry_due : ℕ → Retry → Bool
is_retry_due now_t r =
    is_retry_pending r && reached now_t r.next_attempt_at && lease_open now_t r.lease_until

abbrev pub retry_before : Retry → Retry → Bool
retry_before r r' =
    ltb (or_else r.next_attempt_at 0) (or_else r'.next_attempt_at 0)
    || or_else r.next_attempt_at 0 == or_else r'.next_attempt_at 0
      && ltb r.image_asset_id r'.image_asset_id

unfoldable pub insert_retry : Retry → List Retry → List Retry
insert_retry r [] = r ∷ []
insert_retry r (q ∷ qs) = if retry_before r q then r ∷ q ∷ qs else q ∷ insert_retry r qs

unfoldable pub order_retries : List Retry → List Retry
unfolding insert_retry
order_retries [] = []
order_retries (r ∷ rs) = insert_retry r (order_retries rs)

abbrev pub lease_retry : ℕ → String → ℕ → Retry → Retry
lease_retry until token now_t r = record r {
  lease_token = some token;
  lease_until = some until;
  updated_at = now_t;
}

-- The rows that a claim takes: due, not locked by a transaction in progress, the first `limit`.
unfoldable pub retry_candidates : (ℕ → Bool) → ℕ → ℕ → List Retry → List Retry
unfolding order_retries
retry_candidates locked now_t limit rs =
    take limit
      (order_retries (filter (λ r. is_retry_due now_t r && not (locked r.image_asset_id)) rs))

-- `ClaimDue`; `asset` is the row of an image that the join finds by the foreign key.
unfoldable pub claim_due_retries :
    (ℕ → String × ModerationStatus)
    → (ℕ → Bool)
    → ℕ
    → ℕ
    → String
    → ℕ
    → List Retry
    → Option (List Retry × List RetryClaim)
unfolding retry_candidates
claim_due_retries asset locked now_t until token limit rs =
    if limit == 0 || ltb 100 limit
    then none
    else some (
      map (λ r. if any (has_retry r.image_asset_id) cs then lease_retry until token now_t r else r)
          rs,
      map
          (λ (r : Retry). record {
            retry = lease_retry until token now_t r;
            object_key = (asset r.image_asset_id).0;
            moderation = (asset r.image_asset_id).1;
          })
          cs,
    )
  where
    cs : List Retry
    cs = retry_candidates locked now_t limit rs

-- The WHERE clause of the three statements on a claim.
abbrev pub fenced_retry : RetryClaim → Retry → Bool
fenced_retry c r =
    r.image_asset_id == c.retry.image_asset_id
    && is_retry_pending r
    && token_is (or_else c.retry.lease_token "") r.lease_token

-- An UPDATE under the fence: the new rows, and whether exactly one was written.
abbrev pub update_retry : RetryClaim → (Retry → Retry) → List Retry → List Retry × Bool
update_retry c u rs =
    (map (λ r. if fenced_retry c r then u r else r) rs, length (filter (fenced_retry c) rs) == 1)

abbrev pub rescheduled_retry : ℕ → ℕ → RetryError → ℕ → Retry → Retry
rescheduled_retry attempts next code now_t r = record r {
  attempts = attempts;
  next_attempt_at = some next;
  lease_token = none;
  lease_until = none;
  last_error_code = code;
  updated_at = now_t;
}

abbrev pub dead_retry : ℕ → ℕ → Retry → Retry
dead_retry attempts now_t r = record r {
  state = retry_dead_letter;
  attempts = attempts;
  next_attempt_at = none;
  lease_token = none;
  lease_until = none;
  last_error_code = submissions_exhausted;
  dead_lettered_at = some now_t;
  updated_at = now_t;
}

unfoldable pub reschedule_claim :
    RetryClaim → ℕ → ℕ → RetryError → ℕ → List Retry → List Retry × Bool
reschedule_claim c attempts next code now_t =
    update_retry c (rescheduled_retry attempts next code now_t)

unfoldable pub dead_letter_claim : RetryClaim → ℕ → ℕ → List Retry → List Retry × Bool
dead_letter_claim c attempts now_t = update_retry c (dead_retry attempts now_t)

unfoldable pub delete_claim : RetryClaim → List Retry → List Retry × Bool
delete_claim c rs =
    (filter (λ r. not (fenced_retry c r)) rs, length (filter (fenced_retry c) rs) == 1)
