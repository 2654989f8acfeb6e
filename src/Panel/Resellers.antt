-- ===== src/Panel/Resellers.antt =====
-- internal/panel/resellers/resellers.go: tenants, their ledger of credit, and the customers that they
-- provision. A method is a function of the tables inside the caller's transaction; `trim` is
-- strings.TrimSpace.
pub mod Tables
pub mod Ledger
pub mod Provision
pub mod Account
pub mod Provisions
pub mod Promises
pub mod Kept
pub mod Replay
pub mod Tenants
pub mod Tenancy
