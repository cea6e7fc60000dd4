-- ===== src/Daemon/Start/Stages.antt =====
-- systemd/daemons/daemon.go, the statements of `start`, in the order of the source. Warnings about
-- limits and the log messages leave no trace in the model.
pub mod Enter
pub mod Conditions
pub mod Links
pub mod Commands
unfoldable pub use Enter.*
unfoldable pub use Conditions.*
unfoldable pub use Links.*
unfoldable pub use Commands.*
