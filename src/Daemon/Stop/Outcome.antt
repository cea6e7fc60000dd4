-- ===== src/Daemon/Stop/Outcome.antt =====
-- systemd/daemons/daemon.go, `stop`: its result, and the state of its service behind it.
pub mod Ends
use docker_systemd.Base.{
  ℕ, zero, suc, ◌-◌, ◌≡◌, refl, sym, ap, ◌∙◌, arith, subst, Bool, true, false, not, ◌||◌, List, [],
  ◌∷◌, Bytes, Option, none, some, ltb, if◌then◌else◌,
}
use mathlib.Core.Option
use docker_systemd.Text.{equal}
use docker_systemd.Text.Laws.{equal_self}
use docker_systemd.Definition.{Definition}
use docker_systemd.Daemon.State.{
  stopped, Fault, is_masked, log_not_opened, Daemon, Event, System, find, update,
}
use docker_systemd.Daemon.Flow.{
  Flow, next, returned, panicked, deadlocked, no_fuel, M, pure, return, panic, deadlock, continue,
  ◌>>=◌, as_value, call, get, read, read_result, modify, emit, tick, sleep, defined, acquired, lock,
  lock_def,
}
use docker_systemd.Daemon.Host.{Host, Command, run_command, new_logger, time_now}
use docker_systemd.Daemon.Keeps.{find-update}
use docker_systemd.Daemon.Stop.{
  is_restarting, set_state, report, run_all, send_term, send_kill, all_exited, wait_exit,
  stop_enter, stop_commands, stop_finish, stop,
}
use docker_systemd.Daemon.Stop.Outcome.Ends.{
  IsRefusal, Leaves, goes_on, refuses, crashed, blocked, Ensures, and_next, Ends-pure, Ends-lock,
  Ends-lock_def, Ends-modify, Ends-if, Ends-time_now, Ends-send_kill, Ends-wait_exit,
  Ends-stop_enter, Ends-stop_commands,
}

-- The service is stopped, if there is one of that name.
abbrev pub IsStopped : Bytes → System → Type 0
IsStopped name s = (d : Daemon) → find name s.list ≡ some d → d.state ≡ stopped

-- The result is no error, and the service is stopped.
abbrev pub Done : Bytes → Option Fault → System → Type 0
Done name r s = (r ≡ none) × IsStopped name s

mapped-stopped :
    (o : Option Daemon) (d : Daemon) → Option.map (set_state stopped) o ≡ some d → d.state ≡ stopped
mapped-stopped none d e = cc
mapped-stopped (some old) d e = sym (ap Daemon.state (Option.some-injective _ _ e))

module _ {R : Fault → Type 0} (host : Host) (name : Bytes) where
  now_stopped :
      Ensures R (Done name) (modify name (set_state stopped) >>= λ _. pure {A = Option Fault} none)
  unfolding modify pure ◌>>=◌
  now_stopped = record {
    at = λ s. goes_on (refl, λ d e. mapped-stopped (find name s.list) d (sym (found s) ∙ e));
  }
    where
      found :
          (s : System)
          → find name (update name (set_state stopped) s.list)
            ≡ Option.map (set_state stopped) (find name s.list)
      found s = rw (find-update name name (set_state stopped) s.list, equal_self name) refl

  stop_finish-Done : Ensures R (Done name) (stop_finish host name)
  unfolding stop_finish
  stop_finish-Done = and_next (Ends-lock_def name) λ def.
      and_next (Ends-time_now host name) λ start.
        and_next (Ends-wait_exit host name _ _ _) λ exited. and_next (Ends-lock name) λ d.
          and_next
            (Ends-if exited (Ends-pure _)
              (and_next (Ends-send_kill host name _) λ _. Ends-modify _ _))
            λ _. now_stopped

  -- Behind its head, `stop` returns no error of its own.
  pub stop_rest-Done :
      Ensures R (Done name) (stop_commands host name >>= λ _. stop_finish host name)
  stop_rest-Done = and_next (Ends-stop_commands host name) λ _. stop_finish-Done

module _ (host : Host) (name : Bytes) where
  stop_body-Done :
      (b : Bool)
      → Ensures IsRefusal
          (Done name)
          (stop_enter host name b >>= λ _. stop_commands host name >>= λ _. stop_finish host name)
  stop_body-Done b = and_next (Ends-stop_enter host name b) λ _. stop_rest-Done host name

-- How a call of `stop` ends: with no error and its service stopped, or with the error that the
-- service is masked or its log cannot be opened; or the program stops there, at a nil dereference or
-- a mutex that its goroutine holds.
pub data Stops (name : Bytes) : Flow (Option Fault) → Type 0 where
  succeeds : {s : System} → IsStopped name s → Stops name (next none s)
  fails : {e : Fault} {s : System} → IsRefusal e → Stops name (next (some e) s)
  crashes : Stops name panicked
  blocks : Stops name deadlocked

Stops-as_value :
    (name : Bytes) (r : Flow (Option Fault))
    → Leaves IsRefusal (Done name) r
    → Stops name (as_value r)
Stops-as_value name (next none s) (goes_on h) = succeeds h.1
Stops-as_value name (next (some e) s) (goes_on h) = let no = h.0 in cc
Stops-as_value name (returned (some e) s) (refuses h) = fails h
Stops-as_value name (returned none s) h = elim h [ ]
Stops-as_value name panicked crashed = crashes
Stops-as_value name deadlocked blocked = blocks
Stops-as_value name no_fuel h = elim h [ ]

-- On any host and from any system, a call of `stop` ends with no error and its service stopped, also
-- when its commands fail or its processes must be killed, or with the error that the service is
-- masked or that its log cannot be opened, unless it dereferences nil or locks a mutex that its
-- goroutine holds.
pub stop-Stops :
    (host : Host) (name : Bytes) (print_stopping : Bool) (s : System)
    → Stops name (stop host name print_stopping s)
unfolding stop call
stop-Stops host name print_stopping s =
    Stops-as_value name _ ((stop_body-Done host name print_stopping).at s)
