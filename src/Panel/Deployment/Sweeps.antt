-- ===== src/Panel/Deployment/Sweeps.antt =====
-- internal/panel/deployment/timeout.go and recovery.go. Times are seconds; the timeouts are
-- configured in seconds.
use antimage.Common.{ℕ, ◌+◌, ◌-◌, Bool, false, none, some, List, [], ◌∷◌, ltb, if◌then◌else◌, ◌&&◌}
use antimage.Panel.Deployment.Tables.{
  Strategy, all_at_once, canary, staged, rolling, other_strategy, failed, timed_out, Deployment,
  Tables, is_active,
}
use antimage.Panel.Deployment.Writes.{update_deployment, complete, interrupt_rollouts}

-- TimeoutConfig
pub record TimeoutConfig : Type 0 where
  pub all_at_once : ℕ
  pub canary : ℕ
  pub staged : ℕ
  pub rolling : ℕ

-- DefaultTimeoutConfig
abbrev pub default_timeout_config : TimeoutConfig
default_timeout_config = record { all_at_once = 300; canary = 900; staged = 1800; rolling = 2700 }

abbrev pub timeout_of : TimeoutConfig → Strategy → ℕ
timeout_of config all_at_once = config.all_at_once
timeout_of config canary = config.canary
timeout_of config staged = config.staged
timeout_of config rolling = config.rolling
timeout_of config other_strategy = 300

-- `elapsed > timeout`
abbrev pub has_timed_out : TimeoutConfig → ℕ → Deployment → Bool
has_timed_out config now d = elim d.started_at [
  | none ↦ false
  | some started ↦ ltb (started + timeout_of config d.strategy) now
]

-- The rows that EnforceTimeouts collects.
unfoldable pub timed_out_rows : TimeoutConfig → ℕ → List (ℕ × Deployment) → List (ℕ × ℕ)
timed_out_rows config now [] = []
timed_out_rows config now (d ∷ rest) =
    let others = timed_out_rows config now rest in
    if is_active d.1.status && has_timed_out config now d.1
    then (elim d.1.started_at [ none ↦ others | some started ↦ (d.0, now - started) ∷ others ])
    else others

unfoldable pub fail_all : ℕ → List (ℕ × ℕ) → Tables → Tables
fail_all now [] db = db
fail_all now (d ∷ rest) db =
    fail_all now rest (interrupt_rollouts d.0 (complete d.0 failed now (some (timed_out d.1)) db))

-- EnforceTimeouts
unfoldable pub enforce_timeouts : TimeoutConfig → ℕ → Tables → Tables
enforce_timeouts config now db = fail_all now (timed_out_rows config now db.deployments) db

-- SELECT id FROM deployments WHERE status = ?
unfoldable pub active_ids : List (ℕ × Deployment) → List ℕ
active_ids [] = []
active_ids (d ∷ rest) =
    let others = active_ids rest in if is_active d.1.status then d.0 ∷ others else others

unfoldable pub recover_all : ℕ → List ℕ → Tables → Tables
recover_all now [] db = db
recover_all now (id ∷ rest) db = recover_all now rest (
    interrupt_rollouts id
      (update_deployment id (λ d. record d { status = failed; completed_at = some now }) db))

-- RecoverStaleDeployments
unfoldable pub recover_stale_deployments : ℕ → Tables → Tables
recover_stale_deployments now db = recover_all now (active_ids db.deployments) db
