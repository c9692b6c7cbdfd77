-- ===== src/Alerts/Tests.antt =====
-- The monitor of internal/service/moderation_alerting.go at concrete inputs.
use danshi_backend.Base.{pos, negsuc, err, some, none, refl, ◌≡◌, false, [], ◌∷◌, arith, true}
use danshi_backend.Alerts.Backlog.{AlertState, check_review_backlog, threshold_not_positive}
use danshi_backend.Alerts.Cooldown.{alert_times, IsSpaced, check_review_backlog_cooldown}
use danshi_backend.Alerts.Monitor.{CallbackAuthFailureMonitor, new_monitor, record_failure}
use danshi_backend.Alerts.Windows.{new_monitor-IsSound, alerts, record_failure_alerts}
use danshi_backend.ImageAccess.Backoff.{minute}

abbrev monitor : CallbackAuthFailureMonitor
monitor = new_monitor (pos 3) (pos 100)

abbrev after_two : CallbackAuthFailureMonitor
after_two = record monitor { window_start = some 1000; failures = 2 }

defaults_used :
    new_monitor (negsuc 0) (pos 0)
    ≡ record { threshold = 5; window = minute; window_start = none; failures = 0; alerted = false }
defaults_used = refl

third_failure_alerts :
    record_failure 1099 after_two ≡ ((3, true), record after_two { failures = 3; alerted = true })
unfolding record_failure
third_failure_alerts = refl

next_window_starts_anew :
    record_failure 1100 after_two
    ≡ ((1, false), record after_two { window_start = some 1100; failures = 1 })
unfolding record_failure
next_window_starts_anew = refl

record_failure_alerts_example : alerts (1000 ∷ 1010 ∷ 1020 ∷ 1030 ∷ 1099 ∷ []) monitor ≡ 1
record_failure_alerts_example =
    record_failure_alerts 1000 (1010 ∷ 1020 ∷ 1030 ∷ 1099 ∷ []) monitor
      (new_monitor-IsSound (pos 3) (pos 100)) refl
      (ground arith, (ground arith, (ground arith, (ground arith, tt))))

abbrev raised : AlertState
raised = record {
  active = true;
  last_observed_count = 12;
  last_alerted_at = some 1000;
  state_updated_at = 1000;
}

threshold_refused :
    check_review_backlog (pos 0) (pos 50) 1010 12 raised ≡ err threshold_not_positive
unfolding check_review_backlog
threshold_refused = refl

backlog_alerts :
    alert_times (pos 10) (pos 50) ((1040, 11) ∷ (1050, 10) ∷ (1099, 30) ∷ (1100, 12) ∷ []) raised
    ≡ 1050 ∷ 1100 ∷ []
unfolding check_review_backlog
backlog_alerts = refl

check_review_backlog_cooldown_example :
    IsSpaced 50 1000 (
      alert_times (pos 10) (pos 50) ((1040, 11) ∷ (1050, 10) ∷ (1099, 30) ∷ (1100, 12) ∷ []) raised)
check_review_backlog_cooldown_example =
    check_review_backlog_cooldown 10 50 ((1040, 11) ∷ (1050, 10) ∷ (1099, 30) ∷ (1100, 12) ∷ [])
      raised 1000 (ground arith) (ground arith) refl refl
      (ground arith, (ground arith, (ground arith, (ground arith, tt))))
