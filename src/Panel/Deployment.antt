-- ===== src/Panel/Deployment.antt =====
-- internal/panel/deployment: orchestrator.go, timeout.go and recovery.go, and the health check of
-- validator.go.
pub mod Tables
pub mod Writes
pub mod Execution
pub mod Sweeps
pub mod Exclusive
pub mod Keeps
pub mod Stages
pub mod Applied
pub mod Pauses
pub mod Calls
