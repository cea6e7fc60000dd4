-- ===== src/Daemon/Monitor/Watch/Crash.antt =====
-- systemd/daemons/daemon.go, `monitorCmds` with a command that did not start.
use docker_systemd.Base.{ℕ, ◌≡◌, refl, List, [], ◌∷◌, ◌++◌, Bytes, Option, none, some}
use docker_systemd.Text.Laws.{equal_self}
use docker_systemd.Daemon.State.{Daemon, System, find, update}
use docker_systemd.Daemon.Flow.{panicked, panic, pure, ◌>>=◌, read, modify, tick}
use docker_systemd.Daemon.Host.{Host}
use docker_systemd.Daemon.Keeps.{find-update}
use docker_systemd.Daemon.Monitor.Watch.{Watched, set_pids, wait_for, wait_cmds, watch}

-- The service behind a change of it.
pub find_changed :
    (name : Bytes) (f : Daemon → Daemon) (s : System) (d : Daemon)
    → find name s.list ≡ some d
    → find name (update name f s.list) ≡ some (f d)
find_changed name f s d e = rw (find-update name name f s.list, equal_self name, e) refl

module _ (host : Host) (sys : Watched) (name : Bytes) where
  wait_cmds-nil :
      (xs ys : List (Option ℕ)) (s : System)
      → wait_cmds host sys name (xs ++ none ∷ ys) s ≡ panicked
  unfolding wait_cmds wait_for ◌>>=◌ tick panic pure
  wait_cmds-nil [] ys s = refl
  wait_cmds-nil (none ∷ xs) ys s = refl
  wait_cmds-nil (some pid ∷ xs) ys s = rw (wait_cmds-nil xs ys _) refl

  -- If one of the commands of a service did not start, `monitorCmds` dereferences nil, whatever the
  -- others do.
  pub watch-nil :
      (rounds : ℕ) (xs ys : List (Option ℕ)) (s : System) (d : Daemon)
      → find name s.list ≡ some d
      → d.cmds ≡ xs ++ none ∷ ys
      → watch host sys name rounds s ≡ panicked
  unfolding watch ◌>>=◌ modify read
  watch-nil rounds xs ys s d here cmds =
      rw (find_changed name (set_pids []) s d here, cmds, wait_cmds-nil xs ys) refl
