-- ===== src/ImageAccess/Options.antt =====
-- The worker's budgets and timeouts: `ImageAccessWorkerOptions` and
-- `withImageAccessWorkerDefaults` of internal/service/image_access_worker.go. The clock, the field
-- `Now`, is among the worker's ports.
use danshi_backend.Base.{ltb, if◌then◌else◌, ℤ, pos, negsuc, ℕ, suc, zero, ◌*◌}
use danshi_backend.ImageAccess.Backoff.{second, minute}

pub record RawOptions : Type 0 where
  pub batch_size : ℤ
  pub lease_duration : ℤ
  pub acl_timeout : ℤ
  pub unknown_grace : ℤ
  pub pending_timeout : ℤ
  pub max_acl_attempts : ℤ
  pub max_submissions : ℤ
  pub max_poll_failures : ℤ
  pub max_unknown_checks : ℤ

pub record Options : Type 0 where
  pub batch_size : ℕ
  pub lease_duration : ℕ
  pub acl_timeout : ℕ
  pub unknown_grace : ℕ
  pub pending_timeout : ℕ
  pub max_acl_attempts : ℕ
  pub max_submissions : ℕ
  pub max_poll_failures : ℕ
  pub max_unknown_checks : ℕ

-- `if x <= 0 { x = default }`.
abbrev pub or_default : ℤ → ℕ → ℕ
or_default (pos zero) d = d
or_default (pos (suc n)) d = suc n
or_default (negsuc n) d = d

unfoldable pub with_defaults : RawOptions → Options
with_defaults o = record {
  batch_size = let n = or_default o.batch_size 4 in if ltb 4 n then 4 else n;
  lease_duration = or_default o.lease_duration (60 * second);
  acl_timeout = or_default o.acl_timeout (15 * second);
  unknown_grace = or_default o.unknown_grace (90 * second);
  pending_timeout = or_default o.pending_timeout (10 * minute);
  max_acl_attempts = or_default o.max_acl_attempts 8;
  max_submissions = or_default o.max_submissions 3;
  max_poll_failures = or_default o.max_poll_failures 8;
  max_unknown_checks = or_default o.max_unknown_checks 12;
}
