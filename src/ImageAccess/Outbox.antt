-- ===== src/ImageAccess/Outbox.antt =====
-- internal/repository/image_access.go: the statements over the two outbox tables. A table is the
-- list of its rows; the conflict targets and the WHERE clauses are written out.
use danshi_backend.Base.{
  ltb, leb, ◌==◌, if◌then◌else◌, or_else, take, filter, any, map, Bool, some, true, not, [], ◌||◌,
  ◌+◌, List, false, Option, ℕ, none, str_eq, String, ◌∷◌, ◌&&◌,
}
use danshi_backend.ImageAccess.Delivery.{Intent, Delivery, Claim, Updates, is_terminal, pending_acl}

pub record Tables : Type 0 where
  pub intents : List Intent
  pub next_intent_id : ℕ
  pub deliveries : List Delivery

-- UPDATE … WHERE: the matching rows are rewritten, and counted.
unfoldable pub update_where : (Delivery → Bool) → Updates → List Delivery → List Delivery
update_where p u [] = []
update_where p u (r ∷ rs) = (if p r then u r else r) ∷ update_where p u rs

unfoldable pub affected : (Delivery → Bool) → List Delivery → ℕ
affected p [] = 0
affected p (r ∷ rs) = (if p r then 1 else 0) + affected p rs

abbrev pub has_source : ℕ → Intent → Bool
has_source s i = i.source_moderation_record_id == s

-- The row that a first intent creates.
abbrev pub new_delivery : ℕ → ℕ → Bool → Bool → ℕ → Delivery
new_delivery asset intent desired purge now = record {
  image_asset_id = asset;
  desired_intent_id = intent;
  desired_public = desired;
  purge_required = purge;
  generation = 1;
  state = pending_acl;
  acl_attempts = 0;
  submit_attempts = 0;
  poll_attempts = 0;
  unknown_checks = 0;
  provider_job_id = none;
  submission_started_at = none;
  next_attempt_at = some now;
  lease_token = none;
  lease_until = none;
  last_error_code = none;
  completed_at = none;
  dead_lettered_at = none;
  created_at = now;
  updated_at = now;
}

-- ON CONFLICT (image_asset_id) DO UPDATE: the lease is left as it is.
abbrev pub next_generation : ℕ → Bool → Bool → ℕ → Updates
next_generation intent desired purge now d = record d {
  desired_intent_id = intent;
  desired_public = desired;
  purge_required = purge;
  generation = d.generation + 1;
  state = pending_acl;
  acl_attempts = 0;
  submit_attempts = 0;
  poll_attempts = 0;
  unknown_checks = 0;
  provider_job_id = none;
  submission_started_at = none;
  next_attempt_at = some now;
  last_error_code = none;
  completed_at = none;
  dead_lettered_at = none;
  updated_at = now;
}

unfoldable pub upsert : ℕ → ℕ → Bool → Bool → ℕ → List Delivery → List Delivery
upsert asset intent desired purge now [] = new_delivery asset intent desired purge now ∷ []
upsert asset intent desired purge now (d ∷ ds) =
    if d.image_asset_id == asset
    then next_generation intent desired purge now d ∷ ds
    else d ∷ upsert asset intent desired purge now ds

-- `Enqueue`: nothing is written where the source record already has an intent.
unfoldable pub enqueue : ℕ → ℕ → Bool → Bool → ℕ → Tables → Tables × Bool
unfolding upsert
enqueue asset source desired purge now t =
    if any (has_source source) t.intents then (t, false) else (
      record t {
        intents = intent ∷ t.intents;
        next_intent_id = t.next_intent_id + 1;
        deliveries = upsert asset t.next_intent_id desired purge now t.deliveries;
      },
      true,
    )
  where
    intent : Intent
    intent = record {
      id = t.next_intent_id;
      image_asset_id = asset;
      source_moderation_record_id = source;
      desired_public = desired;
      created_at = now;
    }

abbrev pub reached : ℕ → Option ℕ → Bool
reached now none = false
reached now (some t) = leb t now

abbrev pub lease_open : ℕ → Option ℕ → Bool
lease_open now none = true
lease_open now (some t) = leb t now

-- The WHERE clause of `ClaimDue`.
abbrev pub is_due : ℕ → Delivery → Bool
is_due now d =
    not (is_terminal d.state) && reached now d.next_attempt_at && lease_open now d.lease_until

-- ORDER BY next_attempt_at, image_asset_id.
abbrev pub due_before : Delivery → Delivery → Bool
due_before c d =
    ltb (or_else c.next_attempt_at 0) (or_else d.next_attempt_at 0)
    || or_else c.next_attempt_at 0 == or_else d.next_attempt_at 0
      && ltb c.image_asset_id d.image_asset_id

unfoldable pub insert_due : Delivery → List Delivery → List Delivery
insert_due d [] = d ∷ []
insert_due d (c ∷ cs) = if due_before d c then d ∷ c ∷ cs else c ∷ insert_due d cs

unfoldable pub order_due : List Delivery → List Delivery
unfolding insert_due
order_due [] = []
order_due (d ∷ ds) = insert_due d (order_due ds)

-- The rows that a claim takes: due, not locked by a transaction in progress, the first `limit`.
unfoldable pub candidates : (ℕ → Bool) → ℕ → ℕ → List Delivery → List Delivery
unfolding order_due
candidates locked now limit ds =
    take limit (order_due (filter (λ d. is_due now d && not (locked d.image_asset_id)) ds))

abbrev pub lease : ℕ → String → ℕ → Updates
lease until token now d = record d {
  lease_token = some token;
  lease_until = some until;
  updated_at = now;
}

abbrev pub is_among : List Delivery → Delivery → Bool
is_among cs d = any (λ (c : Delivery). c.image_asset_id == d.image_asset_id) cs

-- What the join with `image_assets` reads: the object key and the public URL of an asset.
abbrev pub Assets : Type 0
Assets = ℕ → String × String

abbrev pub to_claim : Assets → Delivery → Claim
to_claim assets d = record {
  delivery = d;
  object_key = (assets d.image_asset_id).0;
  public_url = (assets d.image_asset_id).1;
}

-- `ClaimDue` after its check of the limit. Every row's foreign key has its asset, so the join
-- drops none, and the claimed rows keep the order of the candidates.
unfoldable pub claim_due :
    Assets → (ℕ → Bool) → ℕ → ℕ → String → ℕ → List Delivery → Option (List Delivery × List Claim)
unfolding candidates update_where
claim_due assets locked now until token limit ds =
    if limit == 0 || ltb 1000 limit
    then none
    else some (
      update_where (is_among cs) (lease until token now) ds,
      map (λ d. to_claim assets (lease until token now d)) cs,
    )
  where
    cs : List Delivery
    cs = candidates locked now limit ds

-- `lease_token = ?` with `valueOrEmpty`: a NULL column equals nothing.
abbrev pub token_is : String → Option String → Bool
token_is token none = false
token_is token (some t) = str_eq t token

abbrev pub fenced : Claim → Delivery → Bool
fenced c d =
    d.image_asset_id == c.image_asset_id
    && d.generation == c.generation
    && token_is (or_else c.lease_token "") d.lease_token

-- `UpdateClaim`: the new rows, and whether exactly one was written.
unfoldable pub update_claim : Claim → Updates → List Delivery → List Delivery × Bool
unfolding update_where affected
update_claim c u ds = (update_where (fenced c) u ds, affected (fenced c) ds == 1)

abbrev pub held_by : ℕ → String → Delivery → Bool
held_by asset token d = d.image_asset_id == asset && token_is token d.lease_token

abbrev pub unleased : ℕ → Updates
unleased now d = record d {
  lease_token = none;
  lease_until = none;
  next_attempt_at = some now;
  updated_at = now;
}

-- `ReleaseSuperseded`.
unfoldable pub release_superseded : ℕ → String → ℕ → List Delivery → List Delivery
unfolding update_where
release_superseded asset token now = update_where (held_by asset token) (unleased now)
