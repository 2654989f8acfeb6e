-- ===== src/Agent.antt =====
-- internal/node: the agent that runs on a node.
pub mod Plan
pub mod Host
pub mod Retry
pub mod Reconcile
pub mod Accounting
pub mod Enforcement
