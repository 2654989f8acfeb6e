-- ===== src/Panel.antt =====
-- The panel's record of its nodes: internal/panel/nodes over internal/panel/store.
pub mod Db
pub mod Commit
pub mod ApplyRuns
pub mod Billing
pub mod Consistency
pub mod Limiter
pub mod Presence
pub mod Publishing
pub mod Rbac
pub mod Resellers
pub mod Usage
pub mod Deployment
pub mod Subjects
pub mod Quota
pub mod Hub
