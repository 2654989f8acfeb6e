-- ===== src/Panel/Subjects.antt =====
-- internal/panel/subjects: subjects.go, tokens.go and sweeper.go.
pub mod Tables
pub mod Credentials
pub mod Store
pub mod Tokens
pub mod Sweeper
pub mod Sealed
pub mod Marked
pub mod Affected
pub mod Swept
pub mod Created
pub mod Unique
pub mod Links
pub mod Indexed
pub mod Reissued
pub mod Calls
