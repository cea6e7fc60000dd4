-- ===== src/Daemons.antt =====
-- systemd/daemons/daemons.go: all the services of the system.
pub mod Link
pub mod Load
pub mod Boot
pub mod Shutdown
