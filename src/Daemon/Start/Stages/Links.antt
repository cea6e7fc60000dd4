-- ===== src/Daemon/Start/Stages/Links.antt =====
-- systemd/daemons/daemon.go, the calls of `start` on other services.
use docker_systemd.Base.{Bool, true, false, [], ◌∷◌, Bytes, Option, none, some, if◌then◌else◌}
use docker_systemd.Definition.{Relation, on_failure, Links}
use docker_systemd.Daemon.State.{stopped, Fault, not_running, dependency, Daemon}
use docker_systemd.Daemon.Flow.{M, pure, return, panic, ◌>>=◌, ◌>>◌, read, modify, lock, defined}
use docker_systemd.Daemon.Stop.{set_state, set_error}
use docker_systemd.Daemon.Start.Stages.Enter.{is_running, check_abort}

-- The functions below take the call of `start(false)` through a pointer.
module _ (start_it : Option Bytes → M (Option Fault)) where
  -- The loop of `runOnFailure` and `runOnSuccess`; errors are only logged.
  unfoldable pub start_links : Links → M (Unit {0})
  start_links [] = pure tt
  start_links ((n, target) ∷ links) = do start_it target; start_links links

  abbrev pub hold : Bool → Daemon → Daemon
  hold h d = record d { held = h }

  -- `runOnFailure` and `runOnSuccess`, which the callers make with the mutex locked.
  unfoldable pub run_held : Bytes → Relation → M (Unit {0})
  run_held name r = do
    modify name (hold true)
    d ← read name
    def ← defined d.def
    start_links (def.deps r)
    modify name (hold false)

  -- What `start` does on every failure: the new state and error, and the services to start then.
  unfoldable pub fail : {A : Type 0} → Bytes → Fault → Option Fault → M A
  fail name error result = do
    lock name
    modify name (set_state stopped)
    modify name (set_error (some error))
    run_held name on_failure
    return result

  -- One service of `Requisite`. The error that is returned is that of `NewLogger`, so it is nil.
  abbrev pub requisite_link : Bytes → Option Bytes → M (Unit {0})
  requisite_link name none = panic
  requisite_link name (some other) = do
    i ← lock other
    (if is_running i.state then pure tt else fail name (not_running other) none)

  unfoldable pub requisites : Bytes → Links → M (Unit {0})
  requisites name [] = pure tt
  requisites name ((n, target) ∷ links) = do
    check_abort name
    requisite_link name target
    requisites name links

  -- What the service's error names where the call through a pointer failed.
  abbrev pub target_name : Bytes → Option Bytes → Bytes
  target_name n none = n
  target_name n (some other) = other

  abbrev pub or_fail : Bytes → Bytes → Option Fault → M (Unit {0})
  or_fail name other none = pure tt
  or_fail name other (some e) = fail name (dependency other e) (some e)

  -- The loops over `Requires` and `BindsTo`.
  unfoldable pub needed : Bytes → Links → M (Unit {0})
  needed name [] = pure tt
  needed name ((n, target) ∷ links) = do
    check_abort name
    err ← start_it target
    or_fail name (target_name n target) err
    needed name links

  -- The loops over `Wants` and `Upholds`.
  unfoldable pub wanted : Bytes → Links → M (Unit {0})
  wanted name [] = pure tt
  wanted name ((n, target) ∷ links) = do check_abort name; start_it target; wanted name links
