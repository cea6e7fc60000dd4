-- ===== src/Daemon/Tests.antt =====
-- Runs of `start`, `stop`, `Restart`, `Reload` and `monitorCmds` (systemd/daemons/daemon.go) on small
-- systems, and the theorems at them.
mod Whole
use docker_systemd.Daemon.Status.{status_of, cmd_pids, child_pids, listed_pids}
use docker_systemd.Daemon.Status.Tells.{Tells, status_of-Tells}
use docker_systemd.Base.{◌≢◌}
use docker_systemd.Procwait.Reap.{Answer, no_process, a_process}
use docker_systemd.Entry.Shutdown.{shutdown_daemon}
use docker_systemd.Entry.Shutdown.Exits.{Exits, shutdown_daemon-Exits}
use docker_systemd.Text.{codes, has_suffix, trim_suffix}
use docker_systemd.Base.{◌<◌, ◌≡◌, refl, List, [], ◌∷◌, Bytes, true, false, none, some, Option}
use docker_systemd.Definition.{Definition, empty, with_deps, requires, Relation}
use docker_systemd.Base.{ℕ, ◌+◌, arith, Bool, if◌then◌else◌, subst, Bool-cases, inl, inr}
use mathlib.Core.Option
use docker_systemd.Text.Laws.{equal_iff}
use docker_systemd.Daemon.Keeps.{IsGood, Fits, Holds, IsRanked, LinksBelow, is_called}
use docker_systemd.Daemon.Stop.Waits.{wait_exit-rounds}
use docker_systemd.Daemon.Stop.Frame.{OnlyOwn, stop-OnlyOwn}
use docker_systemd.Daemon.Stop.Outcome.{Stops, stop-Stops}
use docker_systemd.Daemon.Restart.{restart, reload}
use docker_systemd.Daemon.Restart.Restarts.{Restarts, restart-Restarts}
use docker_systemd.Daemon.Restart.Reloads.{Reloads, reload-Reloads}
use docker_systemd.Daemon.Monitor.{
  after_exit, upheld, stop_links, handle_stop_deps, nap, start_again, give_up, restart_by,
}
use docker_systemd.Daemon.Monitor.Watch.{Watched, own_processes, monitor_cmds}
use docker_systemd.Daemon.Monitor.Watch.Ends.{IsQuiet}
use docker_systemd.Daemon.Monitor.Watch.Whole.{monitor_cmds-IsGood}
use docker_systemd.Base.{sym, ap, ◌∙◌, ◌==◌, ◌≤◌}
use docker_systemd.Daemon.Keeps.{Keeps-pure}
use docker_systemd.Daemon.Flow.{pure, panicked}
use docker_systemd.Daemons.Shutdown.{stop_all, stop_items}
use docker_systemd.Daemons.Shutdown.Stopped.{
  Completes, AreSettled, IsIn, Refuses, stop_all-AreSettled,
}
use docker_systemd.Daemons.Boot.{start_entries, start_wanted}
use docker_systemd.Daemon.Flow.{no_fuel}
use docker_systemd.Daemon.Start.Ends.{start-IsGood}
use docker_systemd.Daemon.State.{DaemonState, running, stopped, Daemon, System, find, Fault, killed}
use docker_systemd.Daemon.Flow.{Flow, next, statements}
use docker_systemd.Daemon.Host.{Host, exited, signaled, run_command, new_logger, time_now}
use docker_systemd.Text.{has_prefix, trim_prefix, equal, split}
use docker_systemd.Daemon.Stop.{
  stop, stop_enter, stop_commands, stop_finish, run_all, send_term, send_kill, all_exited,
  wait_exit, wait_rounds, stop_link,
}
use docker_systemd.Daemon.Start.Stages.{
  start_enter, check_abort, start_cleanup, start_environment, env_files, conditions, start_links,
  run_held, fail, requisites, needed, wanted, conflicting, run_commands, start_commands,
  start_running,
}
use docker_systemd.Daemon.Start.{start, start_body, run_service}

-- A host on which every command succeeds.
abbrev pub calm : Host
calm = record {
  log_opens = λ _ _. true;
  run = λ _ _. exited 0;
  spawn = λ _ n. some n;
  environ = λ _. [];
  read_file = λ _ _. some [];
  find_user = λ _ _. some (1, 1);
  find_group = λ _ _. some 1;
  current_user = λ _. some 0;
  alive = λ _ _. false;
  now = λ n. n;
}

abbrev pub service : Definition → Daemon
service def = record {
  state = stopped;
  state_error = none;
  def = some def;
  old_def = none;
  paths = [];
  masked = false;
  is_manual = false;
  cmds = [];
  pids = [];
  held = false;
}

abbrev pub boot : List (Bytes × Daemon) → System
boot list = record {
  list = list;
  shutdown = false;
  log_to_file = true;
  clock = 0;
  slept = 0;
  trace = [];
}

abbrev pub web : Definition
web = record empty { exec_start = codes "web" ∷ [] }

abbrev state_of : Bytes → Flow (Option Fault) → Option DaemonState
state_of n (next r s) = elim (find n s.list) [ none ↦ none | some d ↦ some d.state ]
state_of n _ = none

unfoldable pub program : Unit {0}
unfolding statements start start_body run_service start_enter check_abort start_cleanup
    start_environment env_files conditions start_links run_held fail requisites needed wanted
    conflicting run_commands start_commands start_running stop stop_enter stop_commands stop_finish
    run_all send_term send_kill all_exited wait_exit stop_link run_command new_logger time_now
    has_prefix trim_prefix equal split
program = tt

start-web :
    state_of (codes "w") (start calm 1 (codes "w") true (boot ((codes "w", service web) ∷ [])))
    ≡ some running
unfolding program
start-web = refl

-- A service `w` that needs a service `d`, which is masked.
abbrev site : Definition
site = with_deps requires ((codes "d", some (codes "d")) ∷ []) web

abbrev masked_db : Daemon
masked_db = record (service empty) { masked = true }

abbrev pub pair : System
pair = boot ((codes "w", service site) ∷ (codes "d", masked_db) ∷ [])

abbrev pub rank : Bytes → ℕ
rank n = if equal n (codes "w") then 1 else 0

abbrev pub mask : Bytes → Bool
mask n = equal n (codes "d")

site-IsRanked : (r : Relation) → is_called r ≡ true → LinksBelow rank mask 1 (site.deps r)
unfolding program
site-IsRanked requires h = (omega arith, tt)
site-IsRanked _ h = tt

site-Fits : Fits rank mask (codes "w") (service site)
unfolding program
site-Fits = record {
  masked_is = refl;
  ranked =
      λ def p. subst (IsRanked rank mask (codes "w")) (Option.some-injective _ _ p) site-IsRanked;
}

db-Fits : Fits rank mask (codes "d") masked_db
unfolding program
db-Fits = record {
  masked_is = refl;
  ranked = λ def p. subst (IsRanked rank mask (codes "d")) (Option.some-injective _ _ p) λ r h. tt;
}

pair-Fits : (n : Bytes) (d : Daemon) → find n pair.list ≡ some d → Fits rank mask n d
pair-Fits n d e = elim (Bool-cases (equal (codes "w") n)) [
  | inl w ↦
      let name : codes "w" ≡ n = (equal_iff (codes "w") n).0 w in
      let is_d : service site ≡ d = Option.some-injective _ _ (
        subst
          (λ b.
            (if b
              then some (service site)
              else if equal (codes "d") n
              then some masked_db
              else none)
            ≡ some d)
          w e) in
      subst (λ d. Fits rank mask n d) is_d
        (subst (λ n. Fits rank mask n (service site)) name site-Fits)
  | inr not_w ↦ elim (Bool-cases (equal (codes "d") n)) [
    | inl db ↦
        let name : codes "d" ≡ n = (equal_iff (codes "d") n).0 db in
        let is_d : masked_db ≡ d = Option.some-injective _ _ (ground (arith, e, not_w, db)) in
        subst (λ d. Fits rank mask n d) is_d (subst (λ n. Fits rank mask n masked_db) name db-Fits)
    | inr not_d ↦ ground (arith, e, not_w, not_d)
  ]
]

pub pair-IsGood : IsGood rank mask pair
pair-IsGood = record { fits = pair-Fits; allowed = tt }

start-IsGood_example : Holds (IsGood rank mask) (start calm 2 (codes "w") false pair)
unfolding program
start-IsGood_example =
    start-IsGood rank mask calm 2 (codes "w") false pair (omega arith) pair-IsGood

wait_exit-rounds_example :
    wait_exit calm (codes "w") (wait_rounds calm (codes "w") 30000000 + 7) 0 30000000 pair
    ≡ wait_exit calm (codes "w") (wait_rounds calm (codes "w") 30000000) 0 30000000 pair
unfolding program
wait_exit-rounds_example =
    wait_exit-rounds calm (codes "w") 0 30000000 (λ n m h. h) 7 pair (omega arith)

-- The service `w` as it is in `pair`.
abbrev stopped_web : Daemon
stopped_web = service site

restart-Restarts_example :
    Restarts
      (IsGood rank mask)
      calm
      2
      (codes "w")
      pair
      stopped_web
      (restart calm 2 (codes "w") pair)
unfolding equal
restart-Restarts_example =
    restart-Restarts rank mask calm 2 (codes "w") pair stopped_web (omega arith) pair-IsGood refl

-- A host on which no command succeeds and no process ends.
abbrev pub harsh : Host
harsh = record calm { run = λ _ _. signaled 9; alive = λ _ _. true; now = λ _. 0 }

-- `w` with one process and one command to run when it stops.
abbrev pub busy : System
busy = boot (
    (
      codes "w",
      record (service (record web { exec_stop = codes "bye" ∷ [] })) {
        state = running;
        cmds = some 7 ∷ [];
      },
    )
    ∷ (codes "d", masked_db)
    ∷ [])

-- The error that the service `n` shows.
abbrev error_of : Bytes → Flow (Option Fault) → Option Fault
error_of n (next r s) = elim (find n s.list) [ none ↦ none | some d ↦ d.state_error ]
error_of n _ = none

stop-harsh : error_of (codes "w") (stop harsh (codes "w") true busy) ≡ some killed
unfolding program
stop-harsh = refl

stop-OnlyOwn_example : Holds (OnlyOwn (codes "w") busy) (stop harsh (codes "w") true busy)
stop-OnlyOwn_example = stop-OnlyOwn harsh (codes "w") true busy

stop-Stops_example : Stops (codes "w") (stop harsh (codes "w") true busy)
stop-Stops_example = stop-Stops harsh (codes "w") true busy

-- The service `w` as it is in `busy`.
abbrev busy_web : Daemon
busy_web = record (service (record web { exec_stop = codes "bye" ∷ [] })) {
  state = running;
  cmds = some 7 ∷ [];
}

reload-Reloads_example : Reloads calm (codes "w") busy busy_web (reload calm (codes "w") busy)
unfolding equal
reload-Reloads_example = reload-Reloads calm (codes "w") busy busy_web refl

-- A service that is to be started again after a failure.
abbrev again : System
again = boot (
    (codes "w", record (service (record web { restart = codes "on-failure" })) { state = running })
    ∷ [])

after_exit-failure :
    (state_of (codes "w") (after_exit calm 1 (pure tt) (codes "w") (exited 1 ∷ []) again)
      ≡ some running)
    × (state_of (codes "w") (after_exit calm 1 (pure tt) (codes "w") (exited 0 ∷ []) again)
        ≡ some stopped)
unfolding program after_exit upheld stop_links handle_stop_deps nap start_again give_up restart_by
after_exit-failure = (refl, refl)
