-- ===== src/Daemon/Keeps.antt =====
-- Rules for the statements of `Flow`, for the proofs on systemd/daemons/daemon.go.
pub mod Rules
pub mod Upkeep
pub mod Good
pub use Rules.*
pub use Upkeep.*
pub use Good.*
