-- ===== src/Daemon/Monitor/Watch/Whole.antt =====
-- systemd/daemons/daemon.go, `monitorCmds` from its beginning to its end.
use docker_systemd.Base.{ℕ, suc, ◌+◌, ◌≤◌, ◌<◌, arith, Bool, List, Bytes}
use docker_systemd.Daemon.State.{System}
use docker_systemd.Daemon.Flow.{M, ◌>>=◌}
use docker_systemd.Daemon.Host.{Host, Launch}
use docker_systemd.Daemon.Keeps.{IsGood, Holds, Keeps, Keeps-pure, and_then, IsGood-Stable}
use docker_systemd.Daemon.Monitor.{after_exit}
use docker_systemd.Daemon.Monitor.Keeps.{after_exit-IsGood}
use docker_systemd.Daemon.Monitor.Watch.{Watched, watch, monitor_cmds}
use docker_systemd.Daemon.Monitor.Watch.Later.{Holds-weaken}
use docker_systemd.Daemon.Monitor.Watch.Ends.{IsQuiet, Keeps-watch}

-- Where the service has no process left from the call `n` on, and is of a rank below `fuel`, in a
-- system whose services call services of lower rank only: `monitorCmds` ends, in at most `n + 1` rounds
-- of each loop that looks for processes (fewer when some calls have been made before), or it stops at
-- a nil dereference or a mutex that it holds. The system is then again of that kind, with the same
-- services masked and no command of the `ExecStart` of a masked service run, if what the other
-- goroutines do meanwhile leaves it so.
pub monitor_cmds-IsGood :
    (rank : Bytes → ℕ) (mask : Bytes → Bool) (host : Host) (sys : Watched) (name : Bytes) (fuel : ℕ)
    (others meanwhile : M (Unit {0})) (n rounds : ℕ) (s : System)
    → IsQuiet sys name n
    → n ≤ rounds + s.clock
    → rank name < fuel
    → Keeps (IsGood rank mask) others
    → Keeps (IsGood rank mask) meanwhile
    → IsGood rank mask s
    → Holds (IsGood rank mask) (monitor_cmds host sys name fuel others meanwhile (suc rounds) s)
unfolding monitor_cmds ◌>>=◌
monitor_cmds-IsGood rank mask host sys name fuel others meanwhile n rounds s quiet enough below kept
      kept' good =
    (and_then first λ ans. and_then kept λ _. and_then (behind ans) λ _. Keeps-pure _).at s good
  where
    first : Keeps (IsGood rank mask) (λ _. watch host sys name (suc rounds) s)
    first = record {
      at = λ _ _.
          Holds-weaken _
            ((Keeps-watch host sys name (IsGood-Stable name) n quiet rounds s.clock enough).at s
              (omega arith, good))
            (λ t h. h.1);
    }

    behind :
        (ans : List Launch) → Keeps (IsGood rank mask) (after_exit host fuel meanwhile name ans)
    behind ans = record {
      at = λ t h. after_exit-IsGood rank mask host fuel meanwhile name ans t below kept' h;
    }
