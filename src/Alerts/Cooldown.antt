-- ===== src/Alerts/Cooldown.antt =====
-- How often `CheckReviewBacklog` of internal/service/moderation_alerting.go alerts.
use danshi_backend.Base.{
  ltb, leb, if◌then◌else◌, if_rule, All, ℤ, pos, Result, ok, err, arith, List, ap, ◌∷◌, ◌+◌, some,
  ◌<◌, [], ◌≡◌, true, ◌≤◌, ℕ, refl,
}
use danshi_backend.Alerts.Backlog.{
  OptionsError, AlertState, BacklogCheck, should_alert, observed, check_review_backlog,
}

-- The times at which the checks of a sequence alert; a check that is refused does not.
abbrev pub alert_times : ℤ → ℤ → List (ℕ × ℕ) → AlertState → List ℕ
alert_times threshold cooldown [] s = []
alert_times threshold cooldown ((now, depth) ∷ checks) s =
    elim (check_review_backlog threshold cooldown now depth s) [
      | err e ↦ []
      | ok (r, s') ↦
          let rest = alert_times threshold cooldown checks s' in
          if r.alert_scheduled then now ∷ rest else rest
    ]

-- Each time is at least a cooldown after the one before it.
abbrev pub IsSpaced : ℕ → ℕ → List ℕ → Type 0
IsSpaced cooldown last [] = Unit {0}
IsSpaced cooldown last (t ∷ ts) = (last + cooldown ≤ t) × IsSpaced cooldown t ts

check_runs :
    (threshold cooldown now depth : ℕ) (s : AlertState)
    → 0 < threshold
    → 0 < cooldown
    → check_review_backlog (pos threshold) (pos cooldown) now depth s
      ≡ ok (
        record {
          queue_depth = depth;
          alert_threshold = threshold;
          alert_scheduled = should_alert threshold cooldown now depth s;
        },
        observed threshold cooldown now depth s,
      )
unfolding check_review_backlog
check_runs threshold cooldown now depth s ht hc =
    let t : ltb 0 threshold ≡ true = ground (arith, ht) in
    let c : ltb 0 cooldown ≡ true = ground (arith, hc) in rw (t, c) refl

alert_times-cons :
    (threshold cooldown now depth : ℕ) (checks : List (ℕ × ℕ)) (s : AlertState)
    → 0 < threshold
    → 0 < cooldown
    → let rest =
        alert_times
          (pos threshold)
          (pos cooldown)
          checks
          (observed threshold cooldown now depth s) in
      alert_times (pos threshold) (pos cooldown) ((now, depth) ∷ checks) s
      ≡ (if should_alert threshold cooldown now depth s then now ∷ rest else rest)
alert_times-cons threshold cooldown now depth checks s ht hc =
    ap
      (λ (r : Result OptionsError (BacklogCheck × AlertState)). elim r [
        | err e ↦ []
        | ok (r, s') ↦
            let rest = alert_times (pos threshold) (pos cooldown) checks s' in
            if r.alert_scheduled then now ∷ rest else rest
      ])
      (check_runs threshold cooldown now depth s ht hc)

-- In a run of checks that all find the queue at the threshold or above, after one that did too, each
-- alert comes at least a cooldown after the alert before it; both options are positive.
pub check_review_backlog_cooldown :
    (threshold cooldown : ℕ) (checks : List (ℕ × ℕ)) (s : AlertState) (last : ℕ)
    → 0 < threshold
    → 0 < cooldown
    → s.active ≡ true
    → s.last_alerted_at ≡ some last
    → All (λ (c : ℕ × ℕ). threshold ≤ c.1) checks
    → IsSpaced cooldown last (alert_times (pos threshold) (pos cooldown) checks s)
check_review_backlog_cooldown threshold cooldown [] s last ht hc ha hl all = tt
check_review_backlog_cooldown threshold cooldown ((now, depth) ∷ checks) s last ht hc ha hl all =
    let over : leb threshold depth ≡ true = ground (arith, all.0) in
    let due : should_alert threshold cooldown now depth s ≡ leb (last + cooldown) now =
      rw (over, ha, hl) refl in
    let after = observed threshold cooldown now depth s in
    let next = λ (l : ℕ) (e : after.last_alerted_at ≡ some l).
      check_review_backlog_cooldown threshold cooldown checks after l ht hc over e all.1 in
    rw (alert_times-cons threshold cooldown now depth checks s ht hc) (
      if_rule (IsSpaced cooldown last) (should_alert threshold cooldown now depth s)
        (λ e.
          let cool : leb (last + cooldown) now ≡ true = cc (due, e) in
          (ground (arith, cool), next now (rw e refl)))
        (λ e. next last (rw e hl)))
