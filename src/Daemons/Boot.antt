-- ===== src/Daemons/Boot.antt =====
-- systemd/daemons/daemons.go, `LoadAndStart`. The files are those of `Reload`.
pub mod Ends
use docker_systemd.Base.{
  ℕ, Bool, true, false, List, [], ◌∷◌, Bytes, Option, none, some, if◌then◌else◌,
}
use docker_systemd.Text.{codes, has_suffix, trim_suffix}
use docker_systemd.Daemon.State.{Daemon, System, find}
use docker_systemd.Daemon.Flow.{M, pure, panic, ◌>>=◌, ◌>>◌, get}
use docker_systemd.Daemon.Host.{Host}
use docker_systemd.Daemon.Start.{start}
use docker_systemd.Daemons.Load.{Source, reload_daemons}

module _ (host : Host) (fuel : ℕ) where
  -- `d.Start()` on what the map has for the name, which may be nil. Its error is only logged.
  abbrev pub start_found : Bytes → Option Daemon → M (Unit {0})
  start_found name none = panic
  start_found name (some _) = start host fuel name true >>= λ _. pure tt

  unfoldable pub start_wanted : Bytes → M (Unit {0})
  start_wanted name = do found ← get (λ s. find name s.list); start_found name found

  -- An entry of the directory, with whether it is a directory.
  abbrev pub start_entry : Bytes × Bool → M (Unit {0})
  start_entry (name, true) = pure tt
  start_entry (name, false) =
      if has_suffix name (codes ".service")
      then start_wanted (trim_suffix name (codes ".service"))
      else pure tt

  unfoldable pub start_entries : List (Bytes × Bool) → M (Unit {0})
  start_entries [] = pure tt
  start_entries (entry ∷ entries) = do start_entry entry; start_entries entries

  abbrev pub start_dir : Option (List (Bytes × Bool)) → M (Unit {0})
  start_dir none = pure tt
  start_dir (some entries) = start_entries entries

  -- `LoadAndStart`
  unfoldable pub load_and_start : Source → M (Unit {0})
  load_and_start src = do
    reload_daemons src
    start_dir (src.entries (codes "/etc/systemd/system/multi-user.target.wants"))
