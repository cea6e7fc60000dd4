-- ===== src/Daemon/Monitor/Needed/Tests.antt =====
-- A round of `monitorNeeded`, and the theorem at it.
use docker_systemd.Base.{◌≡◌, refl, true, false, [], ◌∷◌, Bytes, none, some}
use docker_systemd.Text.{codes, equal}
use docker_systemd.Definition.{Definition, empty, with_deps, wanted_by}
use docker_systemd.Daemon.State.{Daemon, running, System}
use docker_systemd.Daemon.Flow.{pure, continue}
use docker_systemd.Daemon.Host.{Host, exited}
use docker_systemd.Daemon.Stop.{stop_link}
use docker_systemd.Daemon.Stop.Outcome.{Stops}
use docker_systemd.Daemon.Monitor.Needed.{monitor_needed}
use docker_systemd.Daemon.Monitor.Needed.Stops.{slept, monitor_needed-Stops}

abbrev web : Bytes
web = codes "web"

abbrev db : Bytes
db = codes "db"

abbrev quiet : Host
quiet = record {
  log_opens = λ _ _. true;
  run = λ _ _. exited 0;
  spawn = λ _ n. some n;
  environ = λ _. [];
  read_file = λ _ _. none;
  find_user = λ _ _. none;
  find_group = λ _ _. none;
  current_user = λ _. some 0;
  alive = λ _ _. false;
  now = λ n. n;
}

abbrev running_with : Definition → Daemon
running_with def = record {
  state = running;
  state_error = none;
  def = some def;
  old_def = none;
  paths = [];
  masked = false;
  is_manual = false;
  cmds = [];
  pids = [];
  held = false;
}

-- `db` is wanted by `web`, which runs.
abbrev db_def : Definition
db_def = with_deps wanted_by ((web, some web) ∷ []) (record empty { stop_when_unneeded = true })

abbrev both : System
both = record {
  list = (web, running_with empty) ∷ (db, running_with db_def) ∷ [];
  shutdown = false;
  log_to_file = false;
  clock = 0;
  slept = 0;
  trace = [];
}

-- What the round of `db` finds.
abbrev later : System
later = slept both

monitor_needed-Stops_example :
    Stops db (stop_link quiet (some db) later)
    × (monitor_needed quiet (pure tt) db 1 both
        ≡ continue (stop_link quiet (some db) later) (λ _. pure tt))
unfolding equal pure
monitor_needed-Stops_example =
    monitor_needed-Stops quiet (pure tt) db 0 both later (running_with db_def) db_def refl refl refl
      refl refl refl
      (((web, running_with empty, refl, refl, refl), tt), (tt, (tt, (tt, (tt, (tt, tt))))))
