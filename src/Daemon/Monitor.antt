-- ===== src/Daemon/Monitor.antt =====
-- systemd/daemons/daemon.go, method `monitorCmds` from the exit of the last process on, and
-- `handleStopDeps`. How the processes ended is given; `meanwhile` is what other goroutines do while
-- this one sleeps.
pub mod Keeps
pub mod Needed
pub mod Watch
use docker_systemd.Base.{
  ℕ, Bool, true, false, not, ◌&&◌, ◌||◌, List, [], ◌∷◌, Bytes, Option, none, some, ◌==◌,
  if◌then◌else◌,
}
use docker_systemd.Text.{codes, equal, has_prefix}
use docker_systemd.Definition.{
  Definition, Duration, nanoseconds, negative, bound_by, consists_of, upheld_by, Links,
}
use docker_systemd.Daemon.State.{
  DaemonState, stopped, stopping, restarting, Fault, process_failed, Daemon, powered_off,
}
use docker_systemd.Daemon.Flow.{
  M, pure, return, panic, ◌>>=◌, ◌>>◌, call, read, modify, emit, sleep, lock, defined,
}
use docker_systemd.Daemon.Host.{Host, Launch, not_started, exited, signaled}
use docker_systemd.Daemon.Stop.{stop_link, set_state, set_error}
use docker_systemd.Daemon.Start.{start}
use docker_systemd.Daemon.Start.Stages.{is_stopped, is_running, shutting_down, set_def}

-- `aa != nil && aa.ExitStatus() != 0`, where `not_started` stands for nil.
abbrev pub went_wrong : Launch → Bool
went_wrong not_started = false
went_wrong (exited status) = not (status == 0)
went_wrong (signaled _) = true

abbrev pub any_wrong : List Launch → Bool
any_wrong [] = false
any_wrong (aa ∷ ans) = went_wrong aa || any_wrong ans

-- The error that the loops over `ans` leave in a `stateError` that was nil.
abbrev pub failure : List Launch → Option Fault
failure ans = if any_wrong ans then some process_failed else none

-- The cases of the switch on `restart`.
pub data Policy : Type 0 where
  always on_failure on_success otherwise : Policy

abbrev pub policy_of : Bytes → Policy
policy_of restart =
    if equal restart (codes "always")
    then always
    else if equal restart (codes "on-failure")
        || equal restart (codes "on-abnormal")
        || equal restart (codes "on-watchdog")
        || equal restart (codes "on-abort")
    then on_failure
    else if equal restart (codes "on-success")
    then on_success
    else otherwise

-- The states in which the program itself ended the processes.
abbrev pub was_ended : DaemonState → Bool
was_ended stopped = true
was_ended stopping = true
was_ended restarting = true
was_ended _ = false

-- The loop over `UpheldBy`.
unfoldable pub upheld : Policy → Links → M Policy
upheld restart [] = pure restart
upheld restart ((n, none) ∷ links) = panic
upheld restart ((n, some other) ∷ links) = do
  dep ← lock other
  upheld (if is_running dep.state then always else restart) links

abbrev pub default_sleep : Duration → Duration
default_sleep (nanoseconds n) = nanoseconds (if n == 0 then 1000000000 else n)
default_sleep (negative n) = negative n

abbrev pub set_sleep : Definition → Definition
set_sleep def = record def { restart_sleep = default_sleep def.restart_sleep }

-- `if d.def.RestartSleep == 0 { d.def.RestartSleep = time.Second }`
abbrev pub with_sleep : Daemon → Daemon
with_sleep d = record d { def = set_def set_sleep d.def }

abbrev pub sleep_for : Duration → M (Unit {0})
sleep_for (nanoseconds n) = sleep n
sleep_for (negative n) = pure tt

abbrev pub set_stopped : Daemon → Daemon
set_stopped d = record d { state = stopped; is_manual = false }

module _ (host : Host) (fuel : ℕ) (meanwhile : M (Unit {0})) (name : Bytes) where
  unfoldable pub stop_links : Links → M (Unit {0})
  stop_links [] = pure tt
  stop_links ((n, target) ∷ links) = do stop_link host target; stop_links links

  -- `handleStopDeps`
  unfoldable pub handle_stop_deps : M (Unit {0})
  handle_stop_deps = do
    d ← read name
    def ← defined d.def
    stop_links (def.deps bound_by)
    stop_links (def.deps consists_of)

  -- The sleep before a restart, which ends here when the service or the system was stopped then.
  unfoldable pub nap : M (Unit {0})
  nap = do
    modify name (set_state restarting)
    d ← read name
    def ← defined d.def
    sleep_for def.restart_sleep
    meanwhile
    down ← shutting_down
    d' ← read name
    (if down || is_stopped d'.state then return none else pure tt)

  -- `d.start(d.isManual)`
  unfoldable pub start_again : M (Option Fault)
  start_again = do d ← read name; start host fuel name d.is_manual

  unfoldable pub give_up : M (Unit {0})
  give_up = do modify name set_stopped; handle_stop_deps

  abbrev pub give_up_on : Option Fault → M (Unit {0})
  give_up_on none = pure tt
  give_up_on (some e) = give_up

  abbrev pub or_stop_deps : Option Fault → M (Unit {0})
  or_stop_deps none = pure tt
  or_stop_deps (some e) = handle_stop_deps

  abbrev pub on_failure_ends : Definition → Option Fault → M (Unit {0})
  on_failure_ends def (some e) = do nap; start_again; pure tt
  on_failure_ends def none = if def.remain_after_exit then pure tt else give_up

  abbrev pub on_success_ends : Definition → Option Fault → M (Unit {0})
  on_success_ends def (some e) = give_up
  on_success_ends def none =
      if def.remain_after_exit then pure tt else do nap; err ← start_again; or_stop_deps err

  abbrev pub otherwise_ends : Definition → Option Fault → M (Unit {0})
  otherwise_ends def (some e) = give_up
  otherwise_ends def none = if def.remain_after_exit then pure tt else give_up

  -- The switch.
  unfoldable pub restart_by : Policy → List Launch → M (Unit {0})
  restart_by always ans = do
    nap
    modify name (set_error none)
    d ← read name
    (if is_stopped d.state then return none else pure tt)
    start_again
    pure tt
  restart_by on_failure ans = do
    modify name (set_error (failure ans))
    d ← read name
    def ← defined d.def
    on_failure_ends def d.state_error
  restart_by on_success ans = do
    modify name (set_error (failure ans))
    d ← read name
    def ← defined d.def
    on_success_ends def d.state_error
  restart_by otherwise ans = do
    (if any_wrong ans then modify name (set_error (some process_failed)) else pure tt)
    d ← read name
    def ← defined d.def
    otherwise_ends def d.state_error

  -- What is done when all processes have exited.
  unfoldable pub after_exit : List Launch → M (Option Fault)
  after_exit ans = call do
    d ← read name
    def ← defined d.def
    (if has_prefix (if any_wrong ans then def.failure_action else def.success_action)
          (codes "poweroff")
        then (emit powered_off >> return none)
        else pure tt)
    restart ←
        (if was_ended d.state
          then pure otherwise
          else upheld (policy_of def.restart) (def.deps upheld_by))
    modify name with_sleep
    restart_by restart ans
    pure none
