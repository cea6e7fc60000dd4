-- ===== src/Daemon/State.antt =====
-- systemd/daemons/def.go and the types `daemon` and `daemons` (systemd/daemons/daemon.go,
-- systemd/daemons/daemons.go): the state of a service and of the whole system.
use docker_systemd.Base.{ℕ, Bool, List, [], ◌∷◌, Bytes, Option, none, some, if◌then◌else◌}
use docker_systemd.Text.{equal}
use docker_systemd.Definition.{Definition}

pub data DaemonState : Type 0 where
  running stopped starting stopping restarting : DaemonState

-- The errors that the code makes. `not_running` is `fmt.Errorf("%s: %s", name, nil)`.
pub data Fault : Type 0 where
  is_masked is_shutting_down aborted_by_shutdown aborted_by_stop log_not_opened : Fault
  killed wrong_state process_failed no_user no_group no_current_user : Fault
  no_env_file command_failed not_running : Bytes → Fault
  cleanup reload_failed : Fault → Fault
  dependency pre_failed start_failed post_failed : Bytes → Fault → Fault
  stop_pre_failed stop_failed stop_post_failed : Bytes → Fault → Fault

-- A service. `cmds` holds the process of each command, or nil for one that did not start; `held`
-- says that this goroutine keeps the service's mutex locked across a call.
pub record Daemon : Type 0 where
  pub state : DaemonState
  pub state_error : Option Fault
  pub def : Option Definition
  pub old_def : Option Definition
  pub paths : List Bytes
  pub masked : Bool
  pub is_manual : Bool
  pub cmds : List (Option ℕ)
  pub pids : List ℕ
  pub held : Bool

-- What the code does to the outside, with the service's name.
pub data Event : Type 0 where
  ran : Bytes → Bytes → Event
  spawned : Bytes → Bytes → Event
  sent_term sent_kill sent_hup : Bytes → ℕ → Event
  monitored : Bytes → Event
  powered_off : Event

-- `daemons.list` with the services by name, the newest event first in `trace`; `clock` counts the
-- calls to the outside, `slept` the nanoseconds spent in `time.Sleep`.
pub record System : Type 0 where
  pub list : List (Bytes × Daemon)
  pub shutdown : Bool
  pub log_to_file : Bool
  pub clock : ℕ
  pub slept : ℕ
  pub trace : List Event

abbrev pub find : Bytes → List (Bytes × Daemon) → Option Daemon
find name [] = none
find name ((n, d) ∷ list) = if equal n name then some d else find name list

abbrev pub update : Bytes → (Daemon → Daemon) → List (Bytes × Daemon) → List (Bytes × Daemon)
update name f [] = []
update name f ((n, d) ∷ list) =
    if equal n name then (n, f d) ∷ list else (n, d) ∷ update name f list
