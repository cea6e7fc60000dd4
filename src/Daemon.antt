-- ===== src/Daemon.antt =====
-- systemd/daemons/daemon.go: the life of a service. Each child models one part of the file, run by
-- one goroutine at a time; `State` and `Flow` hold what they share.
pub mod Enable
pub mod State
pub mod Flow
pub mod Host
pub mod Stop
pub mod Start
pub mod Keeps
pub mod Restart
pub mod Monitor
pub mod Status
mod Tests
