-- ===== src/Daemon/Start.antt =====
-- systemd/daemons/daemon.go, methods `Start`, `start`, `startCheckAbortState`, `runOnFailure` and
-- `runOnSuccess`. The statements of `start` stand in `Start/Stages.antt`; here they are composed.
pub mod Stages
pub mod Keeps
pub mod Ends
use docker_systemd.Base.{ℕ, zero, suc, Bool, true, false, List, [], ◌∷◌, Bytes, Option, none, some}
use docker_systemd.Definition.{
  Definition, Relation, requires, binds_to, wants, upholds, conflicts, requisite, Links,
}
use docker_systemd.Daemon.State.{Fault, pre_failed, post_failed}
use docker_systemd.Daemon.Flow.{M, pure, return, out_of_fuel, ◌>>=◌, ◌>>◌, call, lock_def}
use docker_systemd.Daemon.Host.{Host}
use docker_systemd.Daemon.Start.Stages.{
  start_enter, start_cleanup, start_environment, Environment, conditions, requisites, needed,
  wanted, conflicting, run_commands, start_commands, start_running,
}

-- `i.start(false)` through a pointer that may be nil.
abbrev pub start_link : (Bytes → M (Option Fault)) → Option Bytes → M (Option Fault)
start_link start_it none = pure none
start_link start_it (some name) = start_it name

module _ (host : Host) where
  -- The service's own commands, from `ExecStartPre` to the end of `start`.
  unfoldable pub run_service : (Bytes → M (Option Fault)) → Bytes → Environment → M (Option Fault)
  run_service start_it name environment = do
    def ← lock_def name
    run_commands host (start_link start_it) name environment pre_failed def.exec_start_pre
    cmds ←
        start_commands host (start_link start_it) name environment def.working_directory []
          def.exec_start
    run_commands host (start_link start_it) name environment post_failed def.exec_start_post
    start_running (start_link start_it) name cmds

  -- The body of `start`, with the calls of `start(false)` on other services as a parameter.
  unfoldable pub start_body : (Bytes → M (Option Fault)) → Bytes → Bool → M (Option Fault)
  start_body start_it name is_manual = do
    start_enter name is_manual
    start_cleanup host name
    environment ← start_environment host name
    def ← lock_def name
    conditions host name environment def.exec_condition
    needs ← lock_def name
    requisites (start_link start_it) name (needs.deps requisite)
    needed (start_link start_it) name (needs.deps requires)
    needed (start_link start_it) name (needs.deps binds_to)
    wanted (start_link start_it) name (needs.deps wants)
    wanted (start_link start_it) name (needs.deps upholds)
    conflicting host (start_link start_it) name (needs.deps conflicts)
    run_service start_it name environment

  -- `start(isManual)`; each call of another service's `start` takes one unit of fuel.
  unfoldable pub start : ℕ → Bytes → Bool → M (Option Fault)
  start zero name is_manual = out_of_fuel
  start (suc fuel) name is_manual =
      call (start_body (λ other. start fuel other false) name is_manual)
