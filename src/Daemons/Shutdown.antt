-- ===== src/Daemons/Shutdown.antt =====
-- systemd/daemons/daemons.go, `StopAll`.
pub mod Stopped
use docker_systemd.Base.{true, List, [], ◌∷◌, Bytes, if◌then◌else◌}
use docker_systemd.Daemon.State.{System}
use docker_systemd.Daemon.Flow.{M, next, pure, ◌>>=◌, ◌>>◌, lock}
use docker_systemd.Daemon.Host.{Host}
use docker_systemd.Daemon.Stop.{stop}
use docker_systemd.Daemon.Stop.Settles.{is_down}

abbrev pub set_shutdown : M (Unit {0})
set_shutdown s = next tt (record s { shutdown = true })

module _ (host : Host) where
  -- A round of the loop: an error of `Stop` is only logged.
  abbrev pub stop_item : Bytes → M (Unit {0})
  stop_item name = do
    d ← lock name
    (if is_down d.state then pure tt else (stop host name true >>= λ _. pure tt))

  unfoldable pub stop_items : List Bytes → M (Unit {0})
  stop_items [] = pure tt
  stop_items (name ∷ names) = do stop_item name; stop_items names

  -- `StopAll`, with the names of the services in the order in which the loop over the map has them.
  unfoldable pub stop_all : List Bytes → M (Unit {0})
  stop_all names = do set_shutdown; stop_items names
