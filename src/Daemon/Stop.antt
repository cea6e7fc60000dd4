-- ===== src/Daemon/Stop.antt =====
-- systemd/daemons/daemon.go, methods `Stop` and `stop`.
pub mod Acts
pub mod Keeps
pub mod Waits
pub mod Frame
pub mod Outcome
pub mod Settles
use docker_systemd.Base.{
  ℕ, zero, suc, ◌+◌, ◌-◌, ◌*◌, ◌/◌, Bool, true, false, not, ◌&&◌, ◌||◌, List, [], ◌∷◌, Bytes,
  Option, none, some, ltb, ◌==◌, if◌then◌else◌,
}
use docker_systemd.Text.{equal}
use docker_systemd.Definition.{Definition, Duration, nanoseconds, negative}
use docker_systemd.Daemon.State.{
  DaemonState, running, stopped, starting, stopping, restarting, Fault, is_masked, killed,
  log_not_opened, stop_pre_failed, stop_failed, stop_post_failed, Daemon, sent_term, sent_kill,
  System,
}
use docker_systemd.Daemon.Flow.{
  M, pure, return, panic, ◌>>=◌, ◌>>◌, call, read, modify, emit, tick, sleep, lock, lock_def,
  defined,
}
use docker_systemd.Daemon.Host.{Host, Command, run_command, new_logger, time_now}

abbrev pub is_restarting : DaemonState → Bool
is_restarting restarting = true
is_restarting _ = false

abbrev pub set_state : DaemonState → Daemon → Daemon
set_state st d = record d { state = st }

abbrev pub set_error : Option Fault → Daemon → Daemon
set_error e d = record d { state_error = e }

-- `tout`: five seconds, or the definition's stop timeout, in nanoseconds. A timeout below zero has
-- passed at the first look at the clock.
abbrev pub timeout_of : Duration → ℕ
timeout_of (nanoseconds n) = if n == 0 then 5000000000 else n
timeout_of (negative _) = 0

module _ (host : Host) (name : Bytes) where
  -- A failing command leaves its error, and the next one runs all the same.
  abbrev pub report : (Bytes → Fault → Fault) → Bytes → Option Fault → M (Unit {0})
  report wrap line none = pure tt
  report wrap line (some e) = do lock name; modify name (set_error (some (wrap line e)))

  -- The loops over `ExecStopPre`, `ExecStop` and `ExecStopPost`.
  unfoldable pub run_all : (Bytes → Fault → Fault) → Bytes → List Bytes → M (Unit {0})
  run_all wrap dir [] = pure tt
  run_all wrap dir (line ∷ lines) = do
    err ← run_command host name (record { line = line; env = none; dir = dir; credential = none })
    report wrap line err
    run_all wrap dir lines

  -- SIGTERM, or SIGKILL, to every process of `d.cmds`.
  unfoldable pub send_term : List (Option ℕ) → M (Unit {0})
  send_term [] = pure tt
  send_term (none ∷ cmds) = send_term cmds
  send_term (some pid ∷ cmds) = do emit (sent_term name pid); send_term cmds

  unfoldable pub send_kill : List (Option ℕ) → M (Unit {0})
  send_kill [] = pure tt
  send_kill (none ∷ cmds) = send_kill cmds
  send_kill (some pid ∷ cmds) = do emit (sent_kill name pid); send_kill cmds

  -- The inner loop of the wait: whether no process is alive, up to the first that is.
  unfoldable pub all_exited : List (Option ℕ) → M Bool
  all_exited [] = pure true
  all_exited (none ∷ cmds) = panic
  all_exited (some pid ∷ cmds) = do
    at ← tick
    (if host.alive pid at then pure false else all_exited cmds)

  -- The wait for the processes, at most `rounds` times round: whether they have exited.
  unfoldable pub wait_exit : (rounds start tout : ℕ) → M Bool
  wait_exit zero start tout = pure false
  wait_exit (suc rounds) start tout = do
    sleep 10000000
    d ← lock name
    exited ← all_exited d.cmds
    now ← time_now host
    (if exited
        then pure true
        else if ltb tout (now - start)
        then pure false
        else wait_exit rounds start tout)

  -- One round sleeps ten milliseconds, so that many rounds pass the timeout.
  abbrev pub wait_rounds : ℕ → ℕ
  wait_rounds tout = tout / 10000000 + 2

  -- The head of `stop`, up to the logger.
  unfoldable pub stop_enter : Bool → M (Unit {0})
  stop_enter print_stopping = do
    d ← lock name
    (if d.masked then return (some is_masked) else pure tt)
    (if not (is_restarting d.state) || print_stopping
        then modify name (set_state stopping)
        else pure tt)
    opened ← new_logger host name
    (if opened
        then pure tt
        else (modify name (set_error (some log_not_opened)) >> return (some log_not_opened)))

  -- The commands and signals.
  unfoldable pub stop_commands : M (Unit {0})
  stop_commands = do
    def ← lock_def name
    run_all stop_pre_failed [] def.exec_stop_pre
    run_all stop_failed def.working_directory def.exec_stop
    d ← lock name
    send_term d.cmds
    run_all stop_post_failed [] def.exec_stop_post

  -- The wait, SIGKILL for what is left, and the new state.
  unfoldable pub stop_finish : M (Option Fault)
  stop_finish = do
    def ← lock_def name
    start ← time_now host
    let tout = timeout_of def.stop_timeout
    exited ← wait_exit (wait_rounds tout) start tout
    d ← lock name
    (if exited then pure tt else (send_kill d.cmds >> modify name (set_error (some killed))))
    modify name (set_state stopped)
    pure none

  -- `stop(printStopping)`
  unfoldable pub stop : Bool → M (Option Fault)
  stop print_stopping = call (do stop_enter print_stopping; stop_commands; stop_finish)

-- `i.Stop()` through a pointer that may be nil.
unfoldable pub stop_link : Host → Option Bytes → M (Option Fault)
stop_link host none = pure none
stop_link host (some name) = stop host name true
