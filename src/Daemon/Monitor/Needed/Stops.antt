-- ===== src/Daemon/Monitor/Needed/Stops.antt =====
-- systemd/daemons/daemon.go, `monitorNeeded`: it stops a service that others need.
use docker_systemd.Base.{
  ◌≡◌, refl, ap, ℕ, suc, inl, inr, Bool-cases, ◌∙◌, Bool, true, false, List, [], ◌∷◌, Bytes, Option,
  none, some, if◌then◌else◌, ◌+◌, All,
}
use mathlib.Core.Option
use docker_systemd.Definition.{Relation, Definition, Links}
use docker_systemd.Daemon.State.{Fault, Daemon, System, find}
use docker_systemd.Daemon.Flow.{
  Flow, next, returned, panicked, deadlocked, no_fuel, M, pure, continue, ◌>>=◌, statements,
}
use docker_systemd.Daemon.Host.{Host}
use docker_systemd.Daemon.Stop.{stop_link}
use docker_systemd.Daemon.Stop.Outcome.{Stops, stop-Stops}
use docker_systemd.Daemon.Start.Stages.{is_stopped, is_running}
use docker_systemd.Daemon.Monitor.Needed.{
  look_at, look_at_maps, needing, stop_unneeded, needed_round, monitor_needed,
}

-- The services of a map are there, and this goroutine holds none of their mutexes.
abbrev pub IsOpen : List (Bytes × Daemon) → Bytes × Option Bytes → Type 0
IsOpen list (n, t) =
    (m : Bytes) × (e : Daemon) × (t ≡ some m) × (find m list ≡ some e) × (e.held ≡ false)

module _ (s : System) where
  look_at-next : (links : Links) → All (IsOpen s.list) links → look_at links s ≡ next tt s
  unfolding look_at statements
  look_at-next [] h = refl
  look_at-next ((n, none) ∷ links) ((m, e, is, _, _), more) = absurd (cc)
  look_at-next ((n, some other) ∷ links) ((m, e, is, found, free), more) =
      let e2 : other ≡ m = Option.some-injective _ _ is in
      let rest = look_at-next links more in
      rw (e2, found, free)
        (elim (Bool-cases (is_running e.state)) [
          | inl runs ↦ rw (runs, rest) refl
          | inr other_state ↦ rw (other_state, rest) refl
        ])

  look_at_maps-next :
      (def : Definition) (rs : List Relation)
      → All (λ r. All (IsOpen s.list) (def.deps r)) rs
      → look_at_maps def rs s ≡ next tt s
  unfolding look_at_maps statements
  look_at_maps-next def [] h = refl
  look_at_maps-next def (r ∷ rs) h =
      rw (look_at-next (def.deps r) h.0, look_at_maps-next def rs h.1) refl

-- The system behind the sleep of a round.
abbrev pub slept : System → System
slept s = record s { slept = s.slept + 1000000000 }

-- The monitor of a service that has StopWhenUnneeded and is not stopped when its first sleep is over:
-- in whatever states the services are that need it, running or not, the monitor calls `stop` in this
-- first round and then ends, and that call ends with the service stopped or with a refusal, or the
-- program stops in it. This is so where the services in its maps are there, and no mutex is held.
pub monitor_needed-Stops :
    (host : Host) (meanwhile : M (Unit {0})) (name : Bytes) (rounds : ℕ) (s t : System) (d : Daemon)
    (def : Definition)
    → meanwhile (slept s) ≡ next tt t
    → find name t.list ≡ some d
    → d.held ≡ false
    → is_stopped d.state ≡ false
    → d.def ≡ some def
    → def.stop_when_unneeded ≡ true
    → All (λ r. All (IsOpen t.list) (def.deps r)) needing
    → Stops name (stop_link host (some name) t)
      × (monitor_needed host meanwhile name (suc rounds) s
          ≡ continue (stop_link host (some name) t) (λ _. pure tt))
unfolding needed_round monitor_needed stop_link pure statements
monitor_needed-Stops host meanwhile name rounds s t d def others found free active there unneeded
      needers =
    (stop-Stops host name true t, ap then_ends round ∙ last (stop_link host (some name) t))
  where
    then_ends : Flow Bool → Flow (Unit {0})
    then_ends r =
        continue r
          (λ b. elim b [ true ↦ pure tt | false ↦ monitor_needed host meanwhile name rounds ])

    stops : M Bool
    stops = look_at_maps def needing >>= λ _. stop_link host (some name) >>= λ _. pure true

    first : needed_round host meanwhile name s ≡ stop_unneeded host meanwhile name def t
    first = rw (others, found, free, active, there) refl

    then_stops : stops t ≡ continue (stop_link host (some name) t) (λ _. pure true)
    then_stops = rw (look_at_maps-next t def needing needers) refl

    round :
        needed_round host meanwhile name s
        ≡ continue (stop_link host (some name) t) (λ _. pure true)
    round = first ∙ (ap (λ b. (if b then stops else pure false) t) unneeded ∙ then_stops)

    last :
        (r : Flow (Option Fault))
        → then_ends (continue r (λ _. pure true)) ≡ continue r (λ _. pure tt)
    last (next a u) = refl
    last (returned a u) = refl
    last panicked = refl
    last deadlocked = refl
    last no_fuel = refl
