-- ===== src/Alerts/Monitor.antt =====
-- `CallbackAuthFailureMonitor` of internal/service/moderation_alerting.go. The source holds its mutex
-- during a call, so calls follow one another. Times count nanoseconds; the zero time is `none`.
use danshi_backend.Base.{
  ltb, leb, if◌then◌else◌, ℤ, pos, negsuc, ◌&&◌, some, Option, false, not, ◌+◌, none, ℕ, true, Bool,
}
use danshi_backend.ImageAccess.Backoff.{minute}

pub record CallbackAuthFailureMonitor : Type 0 where
  pub threshold : ℕ
  pub window : ℕ
  pub window_start : Option ℕ
  pub failures : ℕ
  pub alerted : Bool

abbrev pub or_default : ℕ → ℕ → ℤ → ℕ
or_default least value (negsuc n) = value
or_default least value (pos n) = if ltb n least then value else n

-- `NewCallbackAuthFailureMonitor`.
abbrev pub new_monitor : ℤ → ℤ → CallbackAuthFailureMonitor
new_monitor threshold window = record {
  threshold = or_default 2 5 threshold;
  window = or_default 1 minute window;
  window_start = none;
  failures = 0;
  alerted = false;
}

abbrev pub is_over : ℕ → Option ℕ → ℕ → Bool
is_over now none window = true
is_over now (some start) window = leb (start + window) now

abbrev pub open_window : ℕ → CallbackAuthFailureMonitor → CallbackAuthFailureMonitor
open_window now m =
    if is_over now m.window_start m.window
    then record m { window_start = some now; failures = 0; alerted = false }
    else m

abbrev pub count_failure : CallbackAuthFailureMonitor → (ℕ × Bool) × CallbackAuthFailureMonitor
count_failure m =
    let counted = record m { failures = m.failures + 1 } in
    if leb m.threshold (m.failures + 1) && not m.alerted
    then ((m.failures + 1, true), record counted { alerted = true })
    else ((m.failures + 1, false), counted)

-- `RecordFailure` at the time `now`: the occurrences so far, whether to alert, and the state left.
unfoldable pub record_failure :
    ℕ → CallbackAuthFailureMonitor → (ℕ × Bool) × CallbackAuthFailureMonitor
record_failure now m = count_failure (open_window now m)
