-- ===== src/Tests.antt =====
-- Runs of the definitions, and each theorem at a concrete input.
mod Status
mod Nodes
mod Billing
mod Reconcile
mod Enforcement
mod Limiter
mod Rbac
mod Resellers
mod Usage
mod Accounting
mod Deployment
mod Subjects
mod Quota
mod Hub
