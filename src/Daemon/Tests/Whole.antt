-- ===== src/Daemon/Tests/Whole.antt =====
-- The daemon as a whole: `LoadAndStart`, `StopAll` and `shutdown`, `monitorCmds` and `Status`, on the
-- systems of the other tests.
use docker_systemd.Daemon.Status.{status_of, cmd_pids, child_pids, listed_pids}
use docker_systemd.Daemon.Status.Tells.{Tells, status_of-Tells}
use docker_systemd.Base.{◌≢◌}
use docker_systemd.Procwait.Reap.{Answer, no_process, a_process}
use docker_systemd.Entry.Shutdown.{shutdown_daemon}
use docker_systemd.Entry.Shutdown.Exits.{Exits, IsLastReaping, shutdown_daemon-Exits}
use docker_systemd.Text.{codes, has_suffix, trim_suffix}
use docker_systemd.Base.{◌≡◌, refl, List, [], ◌∷◌, Bytes, true, false, none, some, Option}
use docker_systemd.Base.{ℕ, arith, Bool, if◌then◌else◌}
use mathlib.Core.Option
use docker_systemd.Daemon.Keeps.{IsGood, Holds}
use docker_systemd.Daemon.Monitor.Watch.{Watched, own_processes, monitor_cmds}
use docker_systemd.Daemon.Monitor.Watch.Ends.{IsQuiet}
use docker_systemd.Daemon.Monitor.Watch.Whole.{monitor_cmds-IsGood}
use docker_systemd.Base.{sym, ap, ◌∙◌, ◌==◌, ◌≤◌}
use docker_systemd.Daemon.Keeps.{Keeps-pure}
use docker_systemd.Daemon.Flow.{pure, panicked}
use docker_systemd.Daemons.Shutdown.{stop_all, stop_items}
use docker_systemd.Daemons.Shutdown.Stopped.{
  Completes, AreSettled, IsIn, Refuses, stop_all-AreSettled,
}
use docker_systemd.Daemons.Boot.{start_entries, start_wanted}
use docker_systemd.Daemons.Boot.Ends.{
  ends_here, directory, other_file, service_file, Starts, start_entries-Starts,
}
use docker_systemd.Daemon.Flow.{no_fuel}
use docker_systemd.Daemon.State.{DaemonState, running, Daemon, System, find}
use docker_systemd.Daemon.Flow.{Flow, next, statements}
use docker_systemd.Daemon.Host.{exited}
use docker_systemd.Text.{equal}
use docker_systemd.Daemon.Tests.{
  calm, service, boot, web, program, pair, rank, mask, pair-IsGood, harsh, busy,
}

stop_all-AreSettled_example :
    Completes
      (λ t. AreSettled (λ m. IsIn m (codes "d" ∷ codes "w" ∷ [])) t × Refuses harsh t)
      (stop_all harsh (codes "d" ∷ codes "w" ∷ []) busy)
stop_all-AreSettled_example = stop_all-AreSettled harsh (codes "d" ∷ codes "w" ∷ []) busy

-- A service that runs when it is masked still runs behind `StopAll`.
abbrev masked_web : System
masked_web = boot ((codes "w", record (service web) { state = running; masked = true }) ∷ [])

abbrev state_behind : Flow (Unit {0}) → Option DaemonState
state_behind (next r s) = elim (find (codes "w") s.list) [ none ↦ none | some d ↦ some d.state ]
state_behind _ = none

stop_all-masked : state_behind (stop_all calm (codes "w" ∷ []) masked_web) ≡ some running
unfolding program stop_all stop_items
stop_all-masked = refl

-- A directory of wanted services, with a directory and another file in it.
abbrev wanted_entries : List (Bytes × Bool)
wanted_entries =
    (codes "old.service", true) ∷ (codes "notes", false) ∷ (codes "w.service", false) ∷ []

start_entries-Starts_example :
    Starts
      (IsGood rank mask)
      calm
      2
      (codes "w" ∷ [])
      pair
      (start_entries calm 2 wanted_entries pair)
unfolding has_suffix
start_entries-Starts_example =
    start_entries-Starts rank mask calm 2 wanted_entries (codes "w" ∷ []) pair
      (directory (other_file refl (service_file ends_here))) (omega arith, tt) pair-IsGood

-- A wanted service `x` without a unit file ends the program.
boot-missing : start_entries calm 2 ((codes "x.service", false) ∷ wanted_entries) pair ≡ panicked
unfolding program start_entries start_wanted has_suffix trim_suffix
boot-missing = refl

-- A process of `w` that the first look finds, for a service of a type that forks.
abbrev watched : Watched
watched = record {
  wait_pid = λ pid at. exited 1;
  is = λ pid at. false;
  find = λ pid at. 50 ∷ [];
  processes = λ at. some (
      if at == 0
      then record { pid = 40; ppid = 1; environ = some (codes "SYSTEMD_SERVICE_NAME=w") } ∷ []
      else []);
  has_string = λ list s. true;
}

none_listed : (at : ℕ) → 1 ≤ at → watched.processes at ≡ some []
none_listed at late = let later : (at == 0) ≡ false = ground arith in rw later refl

watched-IsQuiet : IsQuiet watched (codes "w") 1
unfolding own_processes
watched-IsQuiet = record {
  unlisted = λ at list late listed.
      ap (own_processes (codes "w"))
        (sym (Option.some-injective _ _ (sym (none_listed at late) ∙ listed)));
  gone = λ pid at late. refl;
}

monitor_cmds-IsGood_example :
    Holds (IsGood rank mask) (monitor_cmds calm watched (codes "w") 2 (pure tt) (pure tt) 2 pair)
unfolding equal
monitor_cmds-IsGood_example =
    monitor_cmds-IsGood rank mask calm watched (codes "w") 2 (pure tt) (pure tt) 1 1 pair
      watched-IsQuiet (omega arith) (omega arith) (Keeps-pure tt) (Keeps-pure tt) pair-IsGood

-- The only number of the test is 7.
abbrev as_seven : ℕ → Bytes
as_seven n = codes "7"

abbrev busy_web : Daemon
busy_web = record (service (record web { exec_stop = codes "bye" ∷ [] })) {
  state = running;
  cmds = some 7 ∷ [];
}

status_of-Tells_example : Tells busy_web busy (status_of as_seven (codes "w") busy)
unfolding equal
status_of-Tells_example = status_of-Tells as_seven busy (codes "w") busy_web refl

status-running : status_of as_seven (codes "w") busy ≡ next (codes "State: Running (7)", none) busy
unfolding statements equal status_of cmd_pids child_pids listed_pids
status-running = refl

-- One process has ended when the last reaping begins.
abbrev one_left : ℕ → Answer
one_left at = if at == 0 then a_process 7 else no_process

one_left-then_none : (at wpid : ℕ) → 1 ≤ at → one_left at ≢ a_process wpid
one_left-then_none at wpid later e = ground arith

shutdown_daemon-Exits_example :
    Exits
      (λ t. AreSettled (λ m. IsIn m (codes "d" ∷ codes "w" ∷ [])) t × Refuses harsh t)
      (IsLastReaping (λ at. at) one_left 4)
      (shutdown_daemon harsh (λ at. at) one_left 4 true (codes "d" ∷ codes "w" ∷ []) busy)
shutdown_daemon-Exits_example =
    shutdown_daemon-Exits harsh (λ at. at) one_left 1 (codes "d" ∷ codes "w" ∷ []) busy
      one_left-then_none

-- A signal before the services are loaded.
shutdown_daemon-early : shutdown_daemon harsh (λ at. at) one_left 4 false [] busy ≡ panicked
unfolding shutdown_daemon docker_systemd.Daemon.Flow.panic
shutdown_daemon-early = refl
