-- ===== src/Panel/Usage.antt =====
-- internal/panel/nodes/accounting.go: the ingest of usage reports, and the roll-ups.
pub mod Tables
pub mod Ingest
pub mod Rollup
pub mod Counted
pub mod Once
pub mod Folded
pub mod History
pub mod Repeats
