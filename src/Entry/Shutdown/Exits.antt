-- ===== src/Entry/Shutdown/Exits.antt =====
-- systemd/shutdown.go, `shutdown`: how it ends.
use docker_systemd.Base.{ℕ, ◌+◌, ◌≤◌, ◌≢◌, true, List, Bytes, Option, none, some}
use docker_systemd.Daemon.State.{System}
use docker_systemd.Daemon.Flow.{
  Flow, next, returned, panicked, deadlocked, no_fuel, continue, pure, ◌>>=◌,
}
use docker_systemd.Daemon.Host.{Host}
use docker_systemd.Daemons.Shutdown.{stop_all}
use docker_systemd.Daemons.Shutdown.Stopped.{
  AreSettled, IsIn, Completes, completes, Refuses, stop_all-AreSettled,
}
use docker_systemd.Procwait.Reap.{
  Answer, a_process, ReapEnd, EndsBy, HasReaped, AfterReap, final_reap, final_reap-EndsBy,
  final_reap-HasReaped,
}
use docker_systemd.Entry.Shutdown.{reaped, shutdown_daemon}

-- The program exits with 0 in a system with `P`, and the last reaping has ended so, or the program
-- stops at a nil dereference or a mutex.
pub data Exits (P : System → Type 0) (Q : ReapEnd × ℕ → Type 0)
    : Flow (ℕ × (ReapEnd × ℕ)) → Type 0 where
  exits : {s : System} {r : ReapEnd × ℕ} → P s → Q r → Exits P Q (next (0, r) s)
  crashes : Exits P Q panicked
  blocks : Exits P Q deadlocked

-- What the last reaping must have done: it has made at most so many calls of `Wait4`, and ended as it
-- may.
abbrev pub IsLastReaping : (ℕ → ℕ) → (ℕ → Answer) → ℕ → ReapEnd × ℕ → Type 0
IsLastReaping now wait4 bound (reason, calls) =
    (calls ≤ bound) × HasReaped now wait4 (now 0) (reason, calls)

reaped-Exits :
    {P : System → Type 0} (now : ℕ → ℕ) (wait4 : ℕ → Answer) (bound : ℕ) (o : Option (ReapEnd × ℕ))
    (s : System)
    → EndsBy bound o
    → AfterReap now wait4 (now 0) o
    → P s
    → Exits P (IsLastReaping now wait4 bound) (continue (reaped o s) (λ r. pure (0, r)))
unfolding pure
reaped-Exits now wait4 bound none s h a p = absurd (cc)
reaped-Exits now wait4 bound (some (reason, calls)) s h a p = exits p (h, a)

-- When the services have been loaded and `Wait4` gives no process from its call `n` on: `shutdown`
-- exits with 0, unless it dereferences nil or locks a mutex that its goroutine holds. By then every
-- service that its loop has met is stopped or stopping, unless it is masked, none can be started, and
-- the last reaping has called `Wait4` at most `n + 3` times, and has ended because its last call
-- failed, or its last three calls had no process, or more than ten seconds had passed.
pub shutdown_daemon-Exits :
    (host : Host) (now : ℕ → ℕ) (wait4 : ℕ → Answer) (n : ℕ) (names : List Bytes) (s : System)
    → ((at wpid : ℕ) → n ≤ at → wait4 at ≢ a_process wpid)
    → Exits
        (λ t. AreSettled (λ m. IsIn m names) t × Refuses host t)
        (IsLastReaping now wait4 (n + 3))
        (shutdown_daemon host now wait4 (n + 3) true names s)
unfolding shutdown_daemon ◌>>=◌
shutdown_daemon-Exits host now wait4 n names s none_left =
    by_stop (stop_all host names s) (stop_all-AreSettled host names s)
  where
    P : System → Type 0
    P t = AreSettled (λ m. IsIn m names) t × Refuses host t

    by_stop :
        (r : Flow (Unit {0}))
        → Completes P r
        → Exits P
            (IsLastReaping now wait4 (n + 3))
            (continue r (λ _. reaped (final_reap now wait4 (n + 3)) >>= λ e. pure (0, e)))
    by_stop (next a t) (completes p) =
        reaped-Exits now wait4 (n + 3) (final_reap now wait4 (n + 3)) t
          (final_reap-EndsBy now wait4 n none_left) (final_reap-HasReaped now wait4 (n + 3)) p
    by_stop (returned a t) h = elim h [ ]
    by_stop panicked h = crashes
    by_stop deadlocked h = blocks
    by_stop no_fuel h = elim h [ ]
