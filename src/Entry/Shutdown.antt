-- ===== src/Entry/Shutdown.antt =====
-- systemd/shutdown.go, `shutdown`: `StopAll`, the last reaping, and the exit.
pub mod Exits
use docker_systemd.Base.{ℕ, Bool, true, false, List, Bytes, Option, none, some}
use docker_systemd.Daemon.Flow.{M, pure, panic, out_of_fuel, ◌>>=◌, ◌>>◌}
use docker_systemd.Daemon.Host.{Host}
use docker_systemd.Daemons.Shutdown.{stop_all}
use docker_systemd.Procwait.Reap.{Answer, ReapEnd, final_reap}

-- `procwait.FinalReap`, with how it ended and after how many calls of `Wait4`, if it has within the
-- rounds it is given.
abbrev pub reaped : Option (ReapEnd × ℕ) → M (ReapEnd × ℕ)
reaped none = out_of_fuel
reaped (some r) = pure r

module _ (host : Host) (now : ℕ → ℕ) (wait4 : ℕ → Answer) (rounds : ℕ) where
  -- With whether `d` is there. The value is the exit code, with the end of the last reaping. `StopAll`
  -- returns no error.
  unfoldable pub shutdown_daemon : Bool → List Bytes → M (ℕ × (ReapEnd × ℕ))
  shutdown_daemon false names = panic
  shutdown_daemon true names = do
    stop_all host names
    r ← reaped (final_reap now wait4 rounds)
    pure (0, r)
