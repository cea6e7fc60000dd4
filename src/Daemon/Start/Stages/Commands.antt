-- ===== src/Daemon/Start/Stages/Commands.antt =====
-- systemd/daemons/daemon.go, the commands of `start`, and its end.
use docker_systemd.Base.{
  ℕ, true, List, [], ◌∷◌, ◌++◌, Bytes, Option, none, some, ◌==◌, if◌then◌else◌,
}
use docker_systemd.Definition.{on_success, Links}
use docker_systemd.Daemon.State.{
  running, Fault, aborted_by_stop, command_failed, start_failed, spawned, monitored,
}
use docker_systemd.Daemon.Flow.{M, pure, return, ◌>>=◌, ◌>>◌, modify, emit, tick, lock}
use docker_systemd.Daemon.Host.{Host, Command, run_command}
use docker_systemd.Daemon.Stop.{set_state, set_error, stop, stop_link}
use docker_systemd.Daemon.Start.Stages.Enter.{is_stopping, check_abort}
use docker_systemd.Daemon.Start.Stages.Conditions.{Environment, may_fail, undashed}
use docker_systemd.Daemon.Start.Stages.Links.{run_held, fail, target_name, or_fail}

module _ (host : Host) (start_it : Option Bytes → M (Option Fault)) (name : Bytes) where
  -- The loop over `Conflicts`.
  unfoldable pub conflicting : Links → M (Unit {0})
  conflicting [] = pure tt
  conflicting ((n, target) ∷ links) = do
    check_abort name
    err ← stop_link host target
    or_fail start_it name (target_name start_it n target) err
    conflicting links

  -- A command that failed: with a leading `-` that is only logged, else the service is stopped and
  -- `start` ends.
  abbrev pub command_result : (Bytes → Fault → Fault) → Bytes → Option Fault → M (Unit {0})
  command_result wrap line none = pure tt
  command_result wrap line (some e) =
      if may_fail line
      then pure tt
      else do stop host name true; fail start_it name (wrap (undashed line) e) (some e)

  module _ (environment : Environment) where
    -- The loops over `ExecStartPre` and `ExecStartPost`.
    unfoldable pub run_commands : (Bytes → Fault → Fault) → List Bytes → M (Unit {0})
    run_commands wrap [] = pure tt
    run_commands wrap (line ∷ lines) = do
      check_abort name
      err ←
          run_command host name (record {
            line = undashed line;
            env = some environment.env;
            dir = [];
            credential = none;
          })
      command_result wrap line err
      run_commands wrap lines

    -- `"SYSTEMD_SERVICE_NAME="+d.name`
    abbrev name_variable : Bytes
    name_variable =
        b'S' ∷ b'Y' ∷ b'S' ∷ b'T' ∷ b'E' ∷ b'M' ∷ b'D' ∷ b'_' ∷ b'S' ∷ b'E' ∷ b'R' ∷ b'V' ∷ b'I'
        ∷ b'C' ∷ b'E' ∷ b'_' ∷ b'N' ∷ b'A' ∷ b'M' ∷ b'E' ∷ b'=' ∷ name

    abbrev start_command : Bytes → Bytes → Command
    start_command dir line = record {
      line = undashed line;
      env = some (environment.env ++ (name_variable ∷ []));
      dir = dir;
      credential = if environment.uid == 0 then none else some (environment.uid, environment.gid);
    }

    abbrev pub spawn_error : Bytes → Option ℕ → Option Fault
    spawn_error line none = some (command_failed (undashed line))
    spawn_error line (some pid) = none

    -- The loop over `ExecStart`, with `cmds` so far.
    unfoldable pub start_commands : Bytes → List (Option ℕ) → List Bytes → M (List (Option ℕ))
    start_commands dir cmds [] = pure cmds
    start_commands dir cmds (line ∷ lines) = do
      check_abort name
      at ← tick
      emit (spawned name (undashed line))
      let pid = host.spawn (start_command dir line) at
      command_result start_failed line (spawn_error line pid)
      start_commands dir (cmds ++ (pid ∷ [])) lines

-- The end of `start`: the service is running, and a goroutine waits for its processes.
unfoldable pub start_running :
    (Option Bytes → M (Option Fault)) → Bytes → List (Option ℕ) → M (Option Fault)
start_running start_it name cmds = do
  d ← lock name
  (if is_stopping d.state then return (some aborted_by_stop) else pure tt)
  modify name (set_state running)
  modify name (set_error none)
  run_held start_it name on_success
  modify name (λ d. record d { cmds = cmds })
  emit (monitored name)
  pure none
