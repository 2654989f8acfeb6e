-- ===== src/Panel/Hub.antt =====
-- internal/panel/control/hub.go.
pub mod Channels
pub mod Streams
pub mod Commands
pub mod Sound
pub mod Entries
pub mod Calls
pub mod Safe
pub mod Callers
pub mod Answered
pub mod Promises
pub mod Superseded
