-- ===== src/Daemon/Monitor/Needed.antt =====
-- systemd/daemons/daemon.go, `monitorNeeded`; `meanwhile` is what other goroutines do while this one
-- sleeps.
pub mod Stops
mod Tests
use docker_systemd.Base.{
  ℕ, zero, suc, Bool, true, false, not, List, [], ◌∷◌, Bytes, Option, none, some, if◌then◌else◌,
}
use docker_systemd.Definition.{
  Relation, Definition, wanted_by, required_by, requisite_of, bound_by, consists_of, upheld_by,
  Links,
}
use docker_systemd.Daemon.State.{Daemon}
use docker_systemd.Daemon.Flow.{M, pure, panic, out_of_fuel, ◌>>=◌, ◌>>◌, sleep, lock, defined}
use docker_systemd.Daemon.Host.{Host}
use docker_systemd.Daemon.Stop.{stop_link}
use docker_systemd.Daemon.Start.Stages.{is_stopped, is_running}

-- One of the loops over the services that may need this one. The `continue` under the test goes on
-- with the loop that it stands in, as the end of its body does.
unfoldable pub look_at : Links → M (Unit {0})
look_at [] = pure tt
look_at ((n, none) ∷ links) = panic
look_at ((n, some other) ∷ links) = do
  dep ← lock other
  let rest = look_at links
  if is_running dep.state then rest else rest

unfoldable pub look_at_maps : Definition → List Relation → M (Unit {0})
look_at_maps def [] = pure tt
look_at_maps def (r ∷ rs) = do look_at (def.deps r); look_at_maps def rs

-- The maps that the loops go through.
abbrev pub needing : List Relation
needing = wanted_by ∷ required_by ∷ requisite_of ∷ bound_by ∷ consists_of ∷ upheld_by ∷ []

module _ (host : Host) (meanwhile : M (Unit {0})) (name : Bytes) where
  -- What a round does with a service that is not stopped.
  abbrev pub stop_unneeded : Definition → M Bool
  stop_unneeded def =
      if def.stop_when_unneeded
      then (look_at_maps def needing >>= λ _. stop_link host (some name) >>= λ _. pure true)
      else pure false

  -- A round, and whether it is the last one.
  unfoldable pub needed_round : M Bool
  needed_round = do
    sleep 1000000000
    meanwhile
    d ← lock name
    if is_stopped d.state then pure true else (defined d.def >>= stop_unneeded)

  -- `monitorNeeded`, for some rounds.
  unfoldable pub monitor_needed : ℕ → M (Unit {0})
  monitor_needed zero = out_of_fuel
  monitor_needed (suc rounds) = do
    last ← needed_round
    elim last [ true ↦ pure tt | false ↦ monitor_needed rounds ]
