-- ===== src/Daemons/Boot/Ends.antt =====
-- systemd/daemons/daemons.go, `LoadAndStart`: the start of the wanted services.
use docker_systemd.Base.{
  ℕ, zero, suc, ◌<◌, ◌≡◌, ◌≢◌, All, refl, ◌++◌, inl, inr, Bool, true, false, List, [], ◌∷◌, Bytes,
  Option, none, some, Option-cases,
}
use docker_systemd.Text.{codes, has_suffix}
use docker_systemd.Text.Laws.{has_suffix-append, trim_suffix-append}
use docker_systemd.Daemon.State.{Fault, Daemon, System, find}
use docker_systemd.Daemon.Flow.{
  Flow, next, returned, panicked, deadlocked, no_fuel, as_value, call, out_of_fuel, continue, pure,
  panic, statements, M,
}
use docker_systemd.Daemon.Host.{Host}
use docker_systemd.Daemon.Keeps.{IsGood, Holds, went_on}
use docker_systemd.Daemon.Start.{start}
use docker_systemd.Daemon.Start.Ends.{start-IsGood}
use docker_systemd.Daemons.Boot.{start_wanted, start_entries}

-- The services that the entries of the directory name: those of its files whose names end in
-- `.service`, without that ending, in the order of the entries.
pub data Wants : List (Bytes × Bool) → List Bytes → Type 0 where
  ends_here : Wants [] []
  directory :
      {name : Bytes} {entries : List (Bytes × Bool)} {names : List Bytes}
      → Wants entries names
      → Wants ((name, true) ∷ entries) names
  other_file :
      {name : Bytes} {entries : List (Bytes × Bool)} {names : List Bytes}
      → has_suffix name (codes ".service") ≡ false
      → Wants entries names
      → Wants ((name, false) ∷ entries) names
  service_file :
      {name : Bytes} {entries : List (Bytes × Bool)} {names : List Bytes}
      → Wants entries names
      → Wants ((name ++ codes ".service", false) ∷ entries) (name ∷ names)

-- How the starts of these services, one behind the other, end in a system that has `P` all along:
-- what one of them returns is of no account, and one that is not there ends the program.
pub data Starts (P : System → Type 0) (host : Host) (fuel : ℕ)
    : List Bytes → System → Flow (Unit {0}) → Type 0 where
  all_started : {s : System} → P s → Starts P host fuel [] s (next tt s)
  started :
      {name : Bytes} {names : List Bytes} {d : Daemon} {err : Option Fault} {s t : System}
      {r : Flow (Unit {0})}
      → P s
      → find name s.list ≡ some d
      → start host fuel name true s ≡ next err t
      → Starts P host fuel names t r
      → Starts P host fuel (name ∷ names) s r
  not_there :
      {name : Bytes} {names : List Bytes} {s : System}
      → find name s.list ≡ none
      → Starts P host fuel (name ∷ names) s panicked
  crashes :
      {name : Bytes} {names : List Bytes} {s : System}
      → start host fuel name true s ≡ panicked
      → Starts P host fuel (name ∷ names) s panicked
  waits :
      {name : Bytes} {names : List Bytes} {s : System}
      → start host fuel name true s ≡ deadlocked
      → Starts P host fuel (name ∷ names) s deadlocked

-- `start` gives its value, whatever its body does.
as_value-ne_returned :
    (r : Flow (Option Fault)) (e : Option Fault) (t : System) → as_value r ≢ returned e t
as_value-ne_returned (next _ _) e t h = absurd (cc)
as_value-ne_returned (returned _ _) e t h = absurd (cc)
as_value-ne_returned panicked e t h = absurd (cc)
as_value-ne_returned deadlocked e t h = absurd (cc)
as_value-ne_returned no_fuel e t h = absurd (cc)

start-ne_returned :
    (host : Host) (fuel : ℕ) (name : Bytes) (s : System) (e : Option Fault) (t : System)
    → start host fuel name true s ≢ returned e t
unfolding start call out_of_fuel
start-ne_returned host zero name s e t h = absurd (cc)
start-ne_returned host (suc fuel) name s e t h = as_value-ne_returned _ e t h

module _ (rank : Bytes → ℕ) (mask : Bytes → Bool) (host : Host) (fuel : ℕ) where
  -- One start, and what the loop does behind it.
  start-Starts :
      (name : Bytes) (names : List Bytes) (more : M (Unit {0})) (s : System) (d : Daemon)
      → IsGood rank mask s
      → find name s.list ≡ some d
      → rank name < fuel
      → ((t : System) → IsGood rank mask t → Starts (IsGood rank mask) host fuel names t (more t))
      → Starts
          (IsGood rank mask)
          host
          fuel
          (name ∷ names)
          s
          (continue (continue (start host fuel name true s) (λ _. pure tt)) (λ _. more))
  unfolding pure
  start-Starts name names more s d good found low rest =
      ended (start host fuel name true s) refl
        (start-IsGood rank mask host fuel name true s low good)
    where
      ended :
          (r : Flow (Option Fault))
          → start host fuel name true s ≡ r
          → Holds (IsGood rank mask) r
          → Starts
              (IsGood rank mask)
              host
              fuel
              (name ∷ names)
              s
              (continue (continue r (λ _. pure tt)) (λ _. more))
      ended (next e t) is (went_on good') = started good found is (rest t good')
      ended (returned e t) is h = absurd (start-ne_returned host fuel name s e t is)
      ended panicked is h = crashes is
      ended deadlocked is h = waits is
      ended no_fuel is h = elim h [ ]

  start_wanted-Starts :
      (name : Bytes) (names : List Bytes) (more : M (Unit {0})) (s : System)
      → IsGood rank mask s
      → rank name < fuel
      → ((t : System) → IsGood rank mask t → Starts (IsGood rank mask) host fuel names t (more t))
      → Starts
          (IsGood rank mask)
          host
          fuel
          (name ∷ names)
          s
          (continue (start_wanted host fuel name s) (λ _. more))
  unfolding start_wanted panic statements
  start_wanted-Starts name names more s good low rest = elim (Option-cases (find name s.list)) [
    | inl absent ↦ rw absent (not_there absent)
    | inr (d, found) ↦
        let run = start-Starts name names more s d good found low rest in rw found run
  ]

  -- Where the services that the entries name are of ranks below `fuel`, and every service calls only
  -- services of lower rank: the loop starts just these services, in the order of the entries, with at
  -- most `fuel` nested calls of `start`, goes on behind each whatever it returns, and ends, unless it
  -- dereferences nil, as it does for a service that is not there, or locks a mutex that its goroutine
  -- holds. Masks and ranks are kept all along, and no ExecStart of a masked service is run.
  pub start_entries-Starts :
      (entries : List (Bytes × Bool)) (names : List Bytes) (s : System)
      → Wants entries names
      → All (λ name. rank name < fuel) names
      → IsGood rank mask s
      → Starts (IsGood rank mask) host fuel names s (start_entries host fuel entries s)
  unfolding start_entries pure statements
  start_entries-Starts _ _ s ends_here low good = all_started good
  start_entries-Starts _ names s (directory w) low good = start_entries-Starts _ names s w low good
  start_entries-Starts _ names s (other_file {name} {entries} other w) low good =
      rw other (start_entries-Starts entries names s w low good)
  start_entries-Starts _ _ s (service_file {name} {entries} {names} w) low good =
      rw (has_suffix-append name (codes ".service"), trim_suffix-append name (codes ".service"))
        (start_wanted-Starts name names (start_entries host fuel entries) s good low.0
          λ t good'. start_entries-Starts entries names t w low.1 good')
