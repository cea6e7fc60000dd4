-- ===== src/Daemon/Restart.antt =====
-- systemd/daemons/daemon.go, methods `Restart` and `Reload`.
pub mod Restarts
pub mod Reloads
use docker_systemd.Base.{
  ℕ, Bool, true, false, List, [], ◌∷◌, Bytes, Option, none, some, if◌then◌else◌,
}
use docker_systemd.Daemon.State.{
  DaemonState, running, stopped, starting, stopping, restarting, Fault, is_masked, wrong_state,
  aborted_by_stop, reload_failed, Daemon, sent_hup,
}
use docker_systemd.Daemon.Flow.{
  M, pure, return, panic, ◌>>=◌, ◌>>◌, call, modify, emit, lock, lock_def, defined,
}
use docker_systemd.Daemon.Host.{Host, Command, run_command}
use docker_systemd.Daemon.Stop.{stop, set_state}
use docker_systemd.Daemon.Start.{start}
use docker_systemd.Daemon.Start.Stages.{is_stopping, is_running}

-- The states from which a service may be restarted are running and stopped.
abbrev pub restart_state : DaemonState → M (Unit {0})
restart_state restarting = return (some wrong_state)
restart_state stopping = return (some wrong_state)
restart_state starting = return (some wrong_state)
restart_state _ = pure tt

-- `if err != nil { return err }`
abbrev pub or_error : Option Fault → M (Unit {0})
or_error none = pure tt
or_error (some e) = return (some e)

module _ (host : Host) where
  -- `Restart`, with the fuel of its call of `Start`.
  unfoldable pub restart : ℕ → Bytes → M (Option Fault)
  restart fuel name = call do
    d ← lock name
    (if d.masked then return (some is_masked) else pure tt)
    restart_state d.state
    modify name (set_state restarting)
    err ← stop host name true
    or_error err
    d' ← lock name
    (if is_stopping d'.state then return (some aborted_by_stop) else pure tt)
    start host fuel name true

  -- SIGHUP to every process.
  unfoldable pub send_hup : Bytes → List (Option ℕ) → M (Unit {0})
  send_hup name [] = pure tt
  send_hup name (none ∷ cmds) = panic
  send_hup name (some pid ∷ cmds) = do emit (sent_hup name pid); send_hup name cmds

  abbrev pub reload_result : Option Fault → M (Option Fault)
  reload_result none = pure none
  reload_result (some e) = return (some (reload_failed e))

  -- `ExecReload`, or SIGHUP where there is none.
  unfoldable pub reload_with : Bytes → Bytes → M (Option Fault)
  reload_with name [] = do d ← lock name; send_hup name d.cmds; pure none
  reload_with name (c ∷ line) = do
    err ←
        run_command host name (record { line = c ∷ line; env = none; dir = []; credential = none })
    reload_result err

  -- `Reload`
  unfoldable pub reload : Bytes → M (Option Fault)
  reload name = call do
    d ← lock name
    (if d.masked then return (some is_masked) else pure tt)
    (if is_running d.state then pure tt else return (some wrong_state))
    def ← defined d.def
    reload_with name def.exec_reload
