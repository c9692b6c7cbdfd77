-- ===== src/Alerts/Windows.antt =====
-- How often the monitor of internal/service/moderation_alerting.go alerts.
use danshi_backend.Base.{
  ltb, leb, ◌==◌, if◌then◌else◌, if_rule, length, All, ℤ, pos, negsuc, ◌≡◌, ℕ, false, ap, subst,
  not, ◌+◌, List, ◌<◌, sym, ◌&&◌, refl, arith, some, Bool, true, suc, [], ◌≤◌, ◌∷◌,
}
use danshi_backend.Alerts.Monitor.{
  CallbackAuthFailureMonitor, new_monitor, is_over, open_window, count_failure, record_failure,
}

-- What holds between calls: an alert was raised in this window exactly when the threshold is reached.
abbrev pub IsSound : CallbackAuthFailureMonitor → Type 0
IsSound m = (2 ≤ m.threshold) × (m.alerted ≡ leb m.threshold m.failures)

pub new_monitor-IsSound : (threshold window : ℤ) → IsSound (new_monitor threshold window)
new_monitor-IsSound (pos n) window = ground arith
new_monitor-IsSound (negsuc n) window = ground arith

open_window-IsSound :
    (now : ℕ) (m : CallbackAuthFailureMonitor) → IsSound m → IsSound (open_window now m)
open_window-IsSound now m h =
    if_rule IsSound (is_over now m.window_start m.window) (λ _. (h.0, ground (arith, h.0))) (λ _. h)

count_failure-IsSound :
    (m : CallbackAuthFailureMonitor)
    → IsSound m
    → IsSound (count_failure m).1
      × ((count_failure m).0 ≡ (m.failures + 1, m.failures + 1 == m.threshold))
count_failure-IsSound m h = ground (arith, h.0, h.1)

pub record_failure-IsSound :
    (now : ℕ) (m : CallbackAuthFailureMonitor) → IsSound m → IsSound (record_failure now m).1
unfolding record_failure
record_failure-IsSound now m h =
    (count_failure-IsSound (open_window now m) (open_window-IsSound now m h)).0

-- The number of alerts that failures at these times raise.
abbrev pub alerts : List ℕ → CallbackAuthFailureMonitor → ℕ
alerts [] m = 0
alerts (now ∷ ts) m =
    let step = record_failure now m in (if step.0.1 then 1 else 0) + alerts ts step.1

count_failure-window :
    (m : CallbackAuthFailureMonitor)
    → ((count_failure m).1.window_start ≡ m.window_start)
      × ((count_failure m).1.window ≡ m.window)
      × ((count_failure m).1.threshold ≡ m.threshold)
      × ((count_failure m).1.failures ≡ m.failures + 1)
count_failure-window m =
    if_rule
      (λ (r : (ℕ × Bool) × CallbackAuthFailureMonitor).
        (r.1.window_start ≡ m.window_start)
        × (r.1.window ≡ m.window)
        × (r.1.threshold ≡ m.threshold)
        × (r.1.failures ≡ m.failures + 1))
      (leb m.threshold (m.failures + 1) && not m.alerted) (λ _. (refl, refl, refl, refl))
      (λ _. (refl, refl, refl, refl))

abbrev crossing : (threshold before after : ℕ) → ℕ
crossing threshold before after = if ltb before threshold && leb threshold after then 1 else 0

crossing_add :
    (threshold a b c : ℕ)
    → a ≤ b
    → b ≤ c
    → crossing threshold a b + crossing threshold b c ≡ crossing threshold a c
crossing_add threshold a b c h k = ground (arith, h, k)

abbrev alert_now : CallbackAuthFailureMonitor → ℕ
alert_now m = if (count_failure m).0.1 then 1 else 0

record_failure_within :
    (now start : ℕ) (m : CallbackAuthFailureMonitor)
    → m.window_start ≡ some start
    → now < start + m.window
    → record_failure now m ≡ count_failure m
unfolding record_failure
record_failure_within now start m e h =
    let still : is_over now m.window_start m.window ≡ false = rw e (ground (arith, h)) in
    let stays : open_window now m ≡ m = rw still refl in ap count_failure stays

alert_now-crossing :
    (m : CallbackAuthFailureMonitor)
    → IsSound m
    → alert_now m ≡ crossing m.threshold m.failures (m.failures + 1)
alert_now-crossing m h = rw (count_failure-IsSound m h).1 (ground arith)

alerts_counted :
    (ts : List ℕ) (start : ℕ) (m : CallbackAuthFailureMonitor)
    → IsSound m
    → m.window_start ≡ some start
    → All (λ now. now < start + m.window) ts
    → alert_now m + alerts ts (count_failure m).1
      ≡ crossing m.threshold m.failures (m.failures + 1 + length ts)
alerts_counted [] start m h e all = ground (arith, alert_now-crossing m h)
alerts_counted (now ∷ ts) start m h e all =
    let next = (count_failure m).1 in
    let (opened, span, budget, counted) = count_failure-window m in
    let same : record_failure now next ≡ count_failure next =
      record_failure_within now start next (cc (opened, e)) (omega (arith, all.0, span)) in
    let rest =
      alerts_counted ts start next (count_failure-IsSound m h).0 (cc (opened, e))
        (subst (λ w. All (λ now. now < start + w) ts) (sym span) all.1) in
    let total : crossing next.threshold next.failures (next.failures + 1 + length ts)
        ≡ crossing m.threshold (m.failures + 1) (m.failures + 1 + suc (length ts)) =
      rw (budget, counted) (ap (crossing m.threshold (m.failures + 1)) (omega arith)) in
    rw (same, alert_now-crossing m h, rest, total)
      (crossing_add m.threshold m.failures (m.failures + 1) (m.failures + 1 + suc (length ts))
        (omega arith) (omega arith))

-- When a failure comes after the monitor's window is over (or before it has one), and the failures
-- `ts` follow less than a window later, they raise exactly one alert between them if together they
-- are at least as many as the threshold, and none otherwise; the monitor is one whose flag says
-- whether the threshold, at least 2, was reached, as a new monitor's does.
pub record_failure_alerts :
    (now : ℕ) (ts : List ℕ) (m : CallbackAuthFailureMonitor)
    → IsSound m
    → is_over now m.window_start m.window ≡ true
    → All (λ t. t < now + m.window) ts
    → alerts (now ∷ ts) m ≡ (if leb m.threshold (1 + length ts) then 1 else 0)
unfolding record_failure
record_failure_alerts now ts m h over all =
    let fresh : CallbackAuthFailureMonitor = record m {
      window_start = some now;
      failures = 0;
      alerted = false;
    } in
    let opened : open_window now m ≡ fresh = rw over refl in
    let counted = alerts_counted ts now fresh (h.0, ground (arith, h.0)) refl all in
    let shut : crossing m.threshold 0 (0 + 1 + length ts)
        ≡ (if leb m.threshold (1 + length ts) then 1 else 0) =
      ground (arith, h.0) in
    rw opened (cc (counted, shut))
