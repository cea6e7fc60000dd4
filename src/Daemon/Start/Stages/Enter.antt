-- ===== src/Daemon/Start/Stages/Enter.antt =====
-- systemd/daemons/daemon.go, the guards of `start`, its new state, and the stop of an earlier run.
use docker_systemd.Base.{Bool, true, false, [], ◌∷◌, Bytes, Option, none, some, if◌then◌else◌}
use docker_systemd.Text.{equal}
use docker_systemd.Definition.{Definition}
use docker_systemd.Daemon.State.{
  DaemonState, running, stopped, starting, stopping, Fault, is_masked, is_shutting_down,
  aborted_by_shutdown, aborted_by_stop, cleanup, Daemon,
}
use docker_systemd.Daemon.Flow.{M, pure, return, ◌>>=◌, ◌>>◌, get, modify, lock, defined}
use docker_systemd.Daemon.Host.{Host}
use docker_systemd.Daemon.Stop.{is_restarting, set_state, set_error, stop}

abbrev pub is_stopping : DaemonState → Bool
is_stopping stopping = true
is_stopping _ = false

abbrev pub is_running : DaemonState → Bool
is_running running = true
is_running _ = false

abbrev pub is_stopped : DaemonState → Bool
is_stopped stopped = true
is_stopped _ = false

-- `isShuttingDown`
abbrev pub shutting_down : M Bool
shutting_down = get (λ s. s.shutdown)

abbrev pub set_manual : Daemon → Daemon
set_manual d = record d { is_manual = true }

abbrev pub set_def : (Definition → Definition) → Option Definition → Option Definition
set_def f none = none
set_def f (some def) = some (f def)

abbrev pub set_remain : Definition → Definition
set_remain def = record def { remain_after_exit = true }

abbrev pub oneshot : Bytes
oneshot = b'o' ∷ b'n' ∷ b'e' ∷ b's' ∷ b'h' ∷ b'o' ∷ b't' ∷ []

-- `RemainAfterExit` of a oneshot service.
abbrev pub remain_if_oneshot : Daemon → Daemon
remain_if_oneshot d = record d {
  def = set_def (λ def. if equal def.service_type oneshot then set_remain def else def) d.def;
}

-- The tests on the state, in front of which the mutex is locked.
abbrev pub enter_state : DaemonState → M (Unit {0})
enter_state starting = return none
enter_state stopping = return none
enter_state _ = pure tt

-- `startCheckAbortState`, and the return of its error.
unfoldable pub check_abort : Bytes → M (Unit {0})
check_abort name = do
  down ← shutting_down
  (if down then return (some aborted_by_shutdown) else pure tt)
  d ← lock name
  (if is_stopping d.state then return (some aborted_by_stop) else pure tt)

-- The guards, and the new state.
unfoldable pub start_enter : Bytes → Bool → M (Unit {0})
start_enter name is_manual = do
  down ← shutting_down
  (if down then return (some is_shutting_down) else pure tt)
  d ← lock name
  enter_state d.state
  (if d.masked then return (some is_masked) else pure tt)
  defined d.def
  (if is_manual then modify name set_manual else pure tt)
  (if is_running d.state then return none else pure tt)
  (if is_restarting d.state then pure tt else modify name (set_state starting))
  modify name remain_if_oneshot
  check_abort name

-- What is left of an earlier run is stopped first.
abbrev pub cleaned : Bytes → Option Fault → M (Unit {0})
cleaned name none = modify name (set_error none)
cleaned name (some e) = do
  modify name (set_state stopped)
  modify name (set_error (some e))
  return (some (cleanup e))

unfoldable pub start_cleanup : Host → Bytes → M (Unit {0})
start_cleanup host name = do
  err ← stop host name false
  check_abort name
  lock name
  cleaned name err
