-- ===== src/Alerts/Backlog.antt =====
-- `CheckReviewBacklog` of internal/service/moderation_alerting.go. Its queries lie in one transaction:
-- one that fails aborts the check, and is no step of the model. Times count nanoseconds.
-- The alert goes out exactly when the result says so, with its depth and its threshold.
use danshi_backend.Base.{
  ltb, leb, if◌then◌else◌, ℤ, pos, negsuc, Result, ok, err, ◌+◌, ℕ, ◌||◌, none, Bool, false, some,
  Option, true, not, ◌&&◌,
}

pub data OptionsError : Type 0 where
  threshold_not_positive cooldown_not_positive : OptionsError

-- The row `review_backlog` of the alert states, locked by the check.
pub record AlertState : Type 0 where
  pub active : Bool
  pub last_observed_count : ℕ
  pub last_alerted_at : Option ℕ
  pub state_updated_at : ℕ

pub record BacklogCheck : Type 0 where
  pub queue_depth : ℕ
  pub alert_threshold : ℕ
  pub alert_scheduled : Bool

abbrev pub is_positive : ℤ → Bool
is_positive (pos n) = ltb 0 n
is_positive (negsuc n) = false

abbrev pub magnitude : ℤ → ℕ
magnitude (pos n) = n
magnitude (negsuc n) = 0

abbrev pub is_cool : ℕ → ℕ → Option ℕ → Bool
is_cool now cooldown none = true
is_cool now cooldown (some last) = leb (last + cooldown) now

abbrev pub should_alert : ℕ → ℕ → ℕ → ℕ → AlertState → Bool
should_alert threshold cooldown now depth s =
    leb threshold depth && (not s.active || is_cool now cooldown s.last_alerted_at)

-- The state that a check saves.
abbrev pub observed : ℕ → ℕ → ℕ → ℕ → AlertState → AlertState
observed threshold cooldown now depth s = record {
  active = leb threshold depth;
  last_observed_count = depth;
  last_alerted_at =
      if should_alert threshold cooldown now depth s then some now else s.last_alerted_at;
  state_updated_at = now;
}

-- `CheckReviewBacklog` at the time `now` (the clock's, where the options leave it open), with `depth` posts in the queue.
unfoldable pub check_review_backlog :
    (threshold cooldown : ℤ) (now depth : ℕ)
    → AlertState
    → Result OptionsError (BacklogCheck × AlertState)
check_review_backlog threshold cooldown now depth s =
    if not (is_positive threshold)
    then err threshold_not_positive
    else if not (is_positive cooldown)
    then err cooldown_not_positive
    else ok (
      record {
        queue_depth = depth;
        alert_threshold = magnitude threshold;
        alert_scheduled = should_alert (magnitude threshold) (magnitude cooldown) now depth s;
      },
      observed (magnitude threshold) (magnitude cooldown) now depth s,
    )
