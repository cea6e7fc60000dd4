-- ===== src/Daemon/Restart/Reloads.antt =====
-- systemd/daemons/daemon.go, `Reload`: what it does, by the service and the host.
use docker_systemd.Base.{
  ℕ, ◌+◌, zero, suc, ◌==◌, ◌≡◌, ◌≢◌, subst, refl, sym, ap, ◌⊎◌, inl, inr, arith, true, false, List,
  [], ◌∷◌, Bytes, Option, none, some, Bool-cases, Option-cases,
}
use docker_systemd.Definition.{Definition}
use docker_systemd.Daemon.State.{
  DaemonState, running, stopped, starting, stopping, restarting, Fault, is_masked, wrong_state,
  reload_failed, command_failed, Daemon, Event, sent_hup, ran, System, find,
}
use docker_systemd.Daemon.Flow.{
  Flow, next, as_value, panicked, deadlocked, pure, panic, return, statements,
}
use docker_systemd.Daemon.Host.{
  Host, Command, Launch, exited, not_started, signaled, run_error, run_command,
}
use docker_systemd.Daemon.Start.Stages.{is_running}
use docker_systemd.Daemon.Restart.{send_hup, reload_result, reload_with, reload}

abbrev pub somes : List ℕ → List (Option ℕ)
somes [] = []
somes (pid ∷ pids) = some pid ∷ somes pids

-- A command did not start.
abbrev pub HasNil : List (Option ℕ) → Type 0
HasNil [] = true ≡ false
HasNil (none ∷ cmds) = Unit
HasNil (some pid ∷ cmds) = HasNil cmds

-- A trace with a SIGHUP to each of these processes in order, behind what it had.
abbrev pub hung_up : Bytes → List ℕ → List Event → List Event
hung_up name [] trace = trace
hung_up name (pid ∷ pids) trace = hung_up name pids (sent_hup name pid ∷ trace)

-- The service is running, not masked, and has this definition.
abbrev pub Runs : Daemon → Definition → Type 0
Runs d def = (d.masked ≡ false) × (d.state ≡ running) × (d.def ≡ some def)

abbrev pub reload_command : Definition → Command
reload_command def = record { line = def.exec_reload; env = none; dir = []; credential = none }

-- The system behind a run of the command.
abbrev pub behind_run : Bytes → Definition → System → System
behind_run name def s = record s { clock = s.clock + 1; trace = ran name def.exec_reload ∷ s.trace }

-- What `Reload` of the service `d` with this name does in the system `s`.
pub data Reloads (host : Host) (name : Bytes) (s : System) (d : Daemon)
    : Flow (Option Fault) → Type 0 where
  refuses_masked : d.masked ≡ true → Reloads host name s d (next (some is_masked) s)
  refuses_state :
      d.masked ≡ false → d.state ≢ running → Reloads host name s d (next (some wrong_state) s)
  hangs_up_all :
      {def : Definition} (pids : List ℕ)
      → Runs d def
      → def.exec_reload ≡ []
      → d.cmds ≡ somes pids
      → Reloads host name s d (next none (record s { trace = hung_up name pids s.trace }))
  reloads :
      {def : Definition}
      → Runs d def
      → def.exec_reload ≢ []
      → host.run (reload_command def) s.clock ≡ exited 0
      → Reloads host name s d (next none (behind_run name def s))
  fails_to :
      {def : Definition}
      → Runs d def
      → def.exec_reload ≢ []
      → host.run (reload_command def) s.clock ≢ exited 0
      → Reloads host name s d
          (next (some (reload_failed (command_failed def.exec_reload))) (behind_run name def s))
  no_definition : d.state ≡ running → d.def ≡ none → Reloads host name s d panicked
  nil_command : d.state ≡ running → HasNil d.cmds → Reloads host name s d panicked
  waits : d.held ≡ true → Reloads host name s d deadlocked

is_running-cases :
    (st : DaemonState)
    → ((st ≡ running) × (is_running st ≡ true)) ⊎ ((st ≢ running) × (is_running st ≡ false))
is_running-cases running = inl (refl, refl)
is_running-cases stopped = inr ((λ e. cc), refl)
is_running-cases starting = inr ((λ e. cc), refl)
is_running-cases stopping = inr ((λ e. cc), refl)
is_running-cases restarting = inr ((λ e. cc), refl)

module _ (host : Host) (name : Bytes) where
  -- SIGHUP goes to each process, or the first nil ends the program.
  send_hup-cases :
      (cmds : List (Option ℕ)) (s : System)
      → ((pids : List ℕ) × (cmds ≡ somes pids)
          × (send_hup host name cmds s ≡ next tt (record s { trace = hung_up name pids s.trace })))
        ⊎ (HasNil cmds × (send_hup host name cmds s ≡ panicked))
  unfolding send_hup pure panic statements
  send_hup-cases [] s = inl ([], refl, refl)
  send_hup-cases (none ∷ cmds) s = inr (tt, refl)
  send_hup-cases (some pid ∷ cmds) s =
      elim (send_hup-cases cmds (record s { trace = sent_hup name pid ∷ s.trace })) [
        | inl (pids, are, run) ↦ inl (pid ∷ pids, ap (◌∷◌ (some pid)) are, run)
        | inr (nil, run) ↦ inr (nil, run)
      ]

  module _ (s : System) (d : Daemon) (def : Definition) (found : find name s.list ≡ some d)
      (free : d.held ≡ false) (is : Runs d def) where
    -- What the run of the command gives.
    -- What the run of the command gives.
    by_launch :
        (l : Launch)
        → def.exec_reload ≢ []
        → host.run (reload_command def) s.clock ≡ l
        → Reloads host name s d
            (as_value (reload_result host (run_error def.exec_reload l) (behind_run name def s)))
    unfolding pure return
    by_launch not_started there run = fails_to is there (λ e. absurd (cc))
    by_launch (exited zero) there run = reloads is there run
    by_launch (exited (suc n)) there run =
        let bad : (suc n == 0) ≡ false = ground arith in
        rw bad (fails_to is there (λ e. absurd (cc)))
    by_launch (signaled n) there run = fails_to is there (λ e. absurd (cc))

    reload_with-Reloads :
        (line : Bytes)
        → def.exec_reload ≡ line
        → Reloads host name s d (as_value (reload_with host name line s))
    unfolding reload_with run_command pure panic statements
    reload_with-Reloads [] e = elim (send_hup-cases d.cmds s) [
      | inl (pids, are, run) ↦
          let step : reload_with host name [] s
              ≡ next none (record s { trace = hung_up name pids s.trace }) =
            rw (found, free, run) refl in
          subst (Reloads host name s d) (sym (ap as_value step)) (hangs_up_all pids is e are)
      | inr (nil, run) ↦
          let step : reload_with host name [] s ≡ panicked = rw (found, free, run) refl in
          subst (Reloads host name s d) (sym (ap as_value step)) (nil_command is.1 nil)
    ]
    reload_with-Reloads (c ∷ line) e =
        let step : reload_with host name (c ∷ line) s
            ≡ reload_result host (run_error def.exec_reload (host.run (reload_command def) s.clock))
                (behind_run name def s) =
          rw e refl in
        subst (Reloads host name s d) (sym (ap as_value step))
          (by_launch (host.run (reload_command def) s.clock) (λ none_there. absurd (cc)) refl)

  -- `Reload` of a service, by all its branches. A service that is masked is refused, and one that is
  -- not running too, with nothing changed. For one that runs and has an `ExecReload`, this line is
  -- run, and nothing else is done; the call has an error just where the line fails. For one without,
  -- SIGHUP is sent once to each of its processes in order, and nothing else changes. The program
  -- stops where the service has no definition, where a command has no process, or where the mutex of
  -- the service is held.
  pub reload-Reloads :
      (s : System) (d : Daemon)
      → find name s.list ≡ some d
      → Reloads host name s d (reload host name s)
  unfolding reload pure return panic statements
  reload-Reloads s d found = elim (Bool-cases d.held) [
    | inl busy ↦
        let step : reload host name s ≡ deadlocked = rw (found, busy) refl in
        subst (Reloads host name s d) (sym step) (waits busy)
    | inr free ↦ elim (Bool-cases d.masked) [
      | inl masked ↦
          let step : reload host name s ≡ next (some is_masked) s = rw (found, free, masked) refl in
          subst (Reloads host name s d) (sym step) (refuses_masked masked)
      | inr unmasked ↦ elim (is_running-cases d.state) [
        | inr (idle, is_not) ↦
            let step : reload host name s ≡ next (some wrong_state) s =
              rw (found, free, unmasked, is_not) refl in
            subst (Reloads host name s d) (sym step) (refuses_state unmasked idle)
        | inl (active, is_so) ↦ elim (Option-cases d.def) [
          | inl undefined ↦
              let step : reload host name s ≡ panicked =
                rw (found, free, unmasked, is_so, undefined) refl in
              subst (Reloads host name s d) (sym step) (no_definition active undefined)
          | inr (def, there) ↦
              let step : reload host name s ≡ as_value (reload_with host name def.exec_reload s) =
                rw (found, free, unmasked, is_so, there) refl in
              subst (Reloads host name s d) (sym step) (
                reload_with-Reloads s d def found free (unmasked, active, there) def.exec_reload
                  refl)
        ]
      ]
    ]
  ]
