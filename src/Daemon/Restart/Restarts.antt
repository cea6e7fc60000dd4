-- ===== src/Daemon/Restart/Restarts.antt =====
-- systemd/daemons/daemon.go, `Restart`: what it does, by the service and its calls of `Stop` and
-- `Start`.
use docker_systemd.Base.{
  ℕ, zero, suc, ◌<◌, ◌≡◌, ◌≢◌, refl, sym, subst, ◌⊎◌, inl, inr, Bool, true, false, Bytes, Option,
  none, some, Bool-cases, Option-cases, if◌then◌else◌,
}
use docker_systemd.Daemon.State.{
  DaemonState, running, stopped, starting, stopping, restarting, Fault, is_masked, wrong_state,
  aborted_by_stop, Daemon, System, find,
}
use docker_systemd.Daemon.Flow.{
  Flow, next, returned, panicked, deadlocked, no_fuel, M, pure, return, panic, deadlock,
  out_of_fuel, continue, as_value, call, modify, lock, ◌>>=◌, statements,
}
use docker_systemd.Daemon.Host.{Host}
use docker_systemd.Daemon.Keeps.{IsGood, IsGood-Stable, Holds, went_on, Keeps}
use docker_systemd.Daemon.Stop.{stop, set_state}
use docker_systemd.Daemon.Stop.Keeps.{Keeps-stop}
use docker_systemd.Daemon.Stop.Outcome.{
  IsStopped, Stops, succeeds, fails, crashes, blocks, stop-Stops,
}
use docker_systemd.Daemon.Start.{start}
use docker_systemd.Daemon.Start.Stages.{is_stopping}
use docker_systemd.Daemon.Start.Ends.{start-IsGood}
use docker_systemd.Daemon.State.{update}
use docker_systemd.Daemon.Restart.{restart_state, or_error, restart}

-- The system with the state of the service set to restarting.
abbrev pub marked : Bytes → System → System
marked name s = record s { list = update name (set_state restarting) s.list }

-- The service is not masked, and running or stopped.
abbrev pub MayRestart : Daemon → Type 0
MayRestart d = (d.masked ≡ false) × ((d.state ≡ running) ⊎ (d.state ≡ stopped))

-- What `Restart` of the service `d` with this name does in the system `s`, where its calls keep `P`.
pub data Restarts (P : System → Type 0) (host : Host) (fuel : ℕ) (name : Bytes) (s : System)
    (d : Daemon) : Flow (Option Fault) → Type 0 where
  refuses_masked : d.masked ≡ true → Restarts P host fuel name s d (next (some is_masked) s)
  refuses_state :
      d.masked ≡ false
      → d.state ≢ running
      → d.state ≢ stopped
      → Restarts P host fuel name s d (next (some wrong_state) s)
  stop_fails :
      {e : Fault} {t : System}
      → MayRestart d
      → stop host name true (marked name s) ≡ next (some e) t
      → P t
      → Restarts P host fuel name s d (next (some e) t)
  starts :
      {t : System} {r : Flow (Option Fault)}
      → MayRestart d
      → stop host name true (marked name s) ≡ next none t
      → IsStopped name t
      → start host fuel name true t ≡ r
      → Holds P r
      → Restarts P host fuel name s d r
  restart_crashes : Restarts P host fuel name s d panicked
  restart_blocks : Restarts P host fuel name s d deadlocked

as_value-as_value : (r : Flow (Option Fault)) → as_value (as_value r) ≡ as_value r
as_value-as_value (next e t) = refl
as_value-as_value (returned e t) = refl
as_value-as_value panicked = refl
as_value-as_value deadlocked = refl
as_value-as_value no_fuel = refl

as_value-start :
    (host : Host) (fuel : ℕ) (name : Bytes) (s : System)
    → as_value (start host fuel name true s) ≡ start host fuel name true s
unfolding start call out_of_fuel
as_value-start host zero name s = refl
as_value-start host (suc fuel) name s = as_value-as_value _

restart_state-cases :
    (st : DaemonState) (s : System)
    → (((st ≡ running) ⊎ (st ≡ stopped)) × (restart_state st s ≡ next tt s))
      ⊎ ((st ≢ running) × (st ≢ stopped) × (restart_state st s ≡ returned (some wrong_state) s))
unfolding pure return
restart_state-cases running s = inl (inl refl, refl)
restart_state-cases stopped s = inl (inr refl, refl)
restart_state-cases starting s = inr ((λ e. absurd (cc)), (λ e. absurd (cc)), refl)
restart_state-cases stopping s = inr ((λ e. absurd (cc)), (λ e. absurd (cc)), refl)
restart_state-cases restarting s = inr ((λ e. absurd (cc)), (λ e. absurd (cc)), refl)

Holds-next : {A : Type 0} {P : System → Type 0} {a : A} {s : System} → Holds P (next a s) → P s
Holds-next (went_on h) = h

module _ (rank : Bytes → ℕ) (mask : Bytes → Bool) (host : Host) (fuel : ℕ) (name : Bytes)
    (s : System) (d : Daemon) (low : rank name < fuel) (good : IsGood rank mask s) where
  -- The rest of `Restart` behind its call of `Stop`.
  behind_stop : Option Fault → M (Option Fault)
  behind_stop err = or_error err >>= λ _. lock name >>= λ d'.
      (if is_stopping d'.state then return (some aborted_by_stop) else pure tt) >>= λ _.
      start host fuel name true

  marked-IsGood : IsGood rank mask (marked name s)
  unfolding modify
  marked-IsGood =
      let keeps : Keeps (IsGood rank mask) (modify name (set_state restarting)) =
        (IsGood-Stable name).changes _ (λ d. refl) (λ d. refl) in
      Holds-next (keeps.at s good)

  stop-Holds : Holds (IsGood rank mask) (stop host name true (marked name s))
  stop-Holds = (Keeps-stop host name (IsGood-Stable name) true).at (marked name s) marked-IsGood

  -- Behind a call of `Stop` that has an error there is no start; behind one that has none, the service
  -- is stopped, so that `Start` is called.
  by_stop :
      (r : Flow (Option Fault))
      → MayRestart d
      → stop host name true (marked name s) ≡ r
      → Stops name r
      → Holds (IsGood rank mask) r
      → Restarts (IsGood rank mask) host fuel name s d (as_value (continue r behind_stop))
  unfolding behind_stop pure return panic deadlock statements
  by_stop _ may is (fails h) (went_on good') = stop_fails may is good'
  by_stop _ may is crashes h = restart_crashes
  by_stop _ may is blocks h = restart_blocks
  by_stop _ may is (succeeds {s = t} done) (went_on good') =
      elim (Option-cases (find name t.list)) [
        | inl absent ↦
            let step : as_value (continue (next none t) behind_stop) ≡ panicked = rw absent refl in
            subst (Restarts (IsGood rank mask) host fuel name s d) (sym step) restart_crashes
        | inr (d', found) ↦ elim (Bool-cases d'.held) [
          | inl busy ↦
              let step : as_value (continue (next none t) behind_stop) ≡ deadlocked =
                rw (found, busy) refl in
              subst (Restarts (IsGood rank mask) host fuel name s d) (sym step) restart_blocks
          | inr free ↦
              let idle : is_stopping d'.state ≡ false = rw (done d' found) refl in
              let step : as_value (continue (next none t) behind_stop)
                  ≡ start host fuel name true t =
                rw (found, free, idle) (as_value-start host fuel name t) in
              subst (Restarts (IsGood rank mask) host fuel name s d) (sym step)
                (starts may is done refl (start-IsGood rank mask host fuel name true t low good'))
        ]
      ]

  -- `Restart` of a service, by all its branches, under the conditions under which its `start` ends. A
  -- service that is masked is refused, and one that is neither running nor stopped too, with nothing
  -- changed. Else its state is set to restarting and `Stop` is called. An error of it is the result,
  -- and nothing is started then. Behind a call of `Stop` without an error the service is stopped, and
  -- the result is that of its `Start`, which ends. The program may also stop at a nil dereference or
  -- a mutex. Masks and ranks are kept behind each call, and no ExecStart of a masked service is run.
  pub restart-Restarts :
      find name s.list ≡ some d
      → Restarts (IsGood rank mask) host fuel name s d (restart host fuel name s)
  unfolding restart behind_stop pure return panic deadlock statements
  restart-Restarts found = elim (Bool-cases d.held) [
    | inl busy ↦
        let step : restart host fuel name s ≡ deadlocked = rw (found, busy) refl in
        subst (Restarts (IsGood rank mask) host fuel name s d) (sym step) restart_blocks
    | inr free ↦ elim (Bool-cases d.masked) [
      | inl masked ↦
          let step : restart host fuel name s ≡ next (some is_masked) s =
            rw (found, free, masked) refl in
          subst (Restarts (IsGood rank mask) host fuel name s d) (sym step) (refuses_masked masked)
      | inr unmasked ↦ elim (restart_state-cases d.state s) [
        | inr (not_running, not_stopped, is) ↦
            let step : restart host fuel name s ≡ next (some wrong_state) s =
              rw (found, free, unmasked, is) refl in
            subst (Restarts (IsGood rank mask) host fuel name s d) (sym step)
              (refuses_state unmasked not_running not_stopped)
        | inl (may, is) ↦
            let step : restart host fuel name s
                ≡ as_value (continue (stop host name true (marked name s)) behind_stop) =
              rw (found, free, unmasked, is) refl in
            subst (Restarts (IsGood rank mask) host fuel name s d) (sym step) (
              by_stop (stop host name true (marked name s)) (unmasked, may) refl
                (stop-Stops host name true (marked name s)) stop-Holds)
      ]
    ]
  ]
