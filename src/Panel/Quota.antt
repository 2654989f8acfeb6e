-- ===== src/Panel/Quota.antt =====
-- internal/panel/nodes: quota_billable.go and quota.go, over the tables of subjects and of usage.
pub mod Over
pub mod Sweeps
pub mod Judged
pub mod Enforced
pub mod Renewed
