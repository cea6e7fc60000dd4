-- ===== src/Daemon/Monitor/Watch/Tests.antt =====
-- The wait for the processes of a service, and the theorems at it.
use docker_systemd.Base.{
  ◌≡◌, refl, true, false, ltb, List, [], ◌∷◌, Bytes, none, some, if◌then◌else◌,
}
use docker_systemd.Text.{codes, equal, has_prefix, split}
use docker_systemd.Definition.{Definition, empty}
use docker_systemd.Daemon.State.{Daemon, running, System}
use docker_systemd.Daemon.Flow.{Flow, next, panicked, statements, pure}
use docker_systemd.Daemon.Host.{Host, Launch, exited}
use docker_systemd.Daemon.Monitor.Watch.{
  Process, Watched, watch, wait_cmds, wait_each, wait_for, wait_forked, wait_processes, wait_kids,
  kids_of, living, not_nil, own_processes, named_by, wait_pid_file, digits_of,
}
use docker_systemd.Daemon.Monitor.Watch.Crash.{watch-nil}
use docker_systemd.Daemon.Monitor.Watch.Plain.{watch_plain}

abbrev app : Bytes
app = codes "app"

-- The pid file says 70.
abbrev host : Host
host = record {
  log_opens = λ _ _. true;
  run = λ _ _. exited 0;
  spawn = λ _ n. some n;
  environ = λ _. [];
  read_file = λ _ _. some (codes "70");
  find_user = λ _ _. none;
  find_group = λ _ _. none;
  current_user = λ _. some 0;
  alive = λ _ _. false;
  now = λ n. n;
}

-- A process 40 with the name of the service is listed up to the call 3, and a child 50 of every
-- process is there up to the call 8; a process exits with its pid.
abbrev forked : Watched
forked = record {
  wait_pid = λ pid at. exited pid;
  is = λ pid at. ltb at 8;
  find = λ pid at. 50 ∷ [];
  processes = λ at. some (
      if ltb at 3
      then record { pid = 40; ppid = 1; environ = some (codes "SYSTEMD_SERVICE_NAME=app") } ∷ []
      else []);
  has_string = λ list s. equal s (codes "forking");
}

abbrev service : Definition → Daemon
service def = record {
  state = running;
  state_error = none;
  def = some def;
  old_def = none;
  paths = [];
  masked = false;
  is_manual = false;
  cmds = [];
  pids = [];
  held = false;
}

abbrev system : Daemon → System
system d = record {
  list = (app, d) ∷ [];
  shutdown = false;
  log_to_file = false;
  clock = 0;
  slept = 0;
  trace = [];
}

abbrev plain : Daemon
plain = record (service empty) { cmds = some 10 ∷ some 20 ∷ [] }

abbrev failed : Daemon
failed = record (service empty) { cmds = some 10 ∷ none ∷ some 20 ∷ [] }

abbrev forking : Daemon
forking = record (service (record empty { service_type = codes "forking" })) { cmds = some 10 ∷ [] }

watch-nil_example : watch host forked app 0 (system failed) ≡ panicked
unfolding equal
watch-nil_example =
    watch-nil host forked app 0 (some 10 ∷ []) (some 20 ∷ []) (system failed) failed refl refl

watch_plain_example :
    watch host forked app 0 (system plain)
    ≡ next (exited 10 ∷ exited 20 ∷ []) (record (system (record plain { cmds = [] })) { clock = 2 })
unfolding equal docker_systemd.Daemon.Monitor.Watch.Plain.answers_of
watch_plain_example =
    watch_plain host forked app 0 (10 ∷ 20 ∷ []) (system plain) plain empty refl refl refl refl

-- The statuses of the process, of the one that the list has, and of the children that are there.
abbrev answers : Flow (List Launch) → List Launch
answers (next ans s) = ans
answers _ = []

watch-forked :
    answers (watch host forked app 9 (system forking)) ≡ exited 10 ∷ exited 40 ∷ exited 50 ∷ []
unfolding statements equal watch wait_cmds wait_for wait_forked wait_processes wait_each
    own_processes named_by has_prefix split wait_kids kids_of living not_nil pure
watch-forked = refl
