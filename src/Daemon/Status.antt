-- ===== src/Daemon/Status.antt =====
-- systemd/daemons/daemon.go, `Status`. strconv.Itoa is a parameter.
pub mod Tells
use docker_systemd.Base.{ℕ, Bool, List, [], ◌∷◌, ◌++◌, Bytes, Option, none, some, if◌then◌else◌}
use docker_systemd.Text.{codes}
use docker_systemd.Daemon.State.{
  DaemonState, running, stopped, starting, stopping, restarting, Fault, Daemon,
}
use docker_systemd.Daemon.Flow.{M, pure, panic, ◌>>=◌, ◌>>◌, lock}

-- `strings.Join` with a comma and a space.
unfoldable pub listed_pids : List Bytes → Bytes
listed_pids [] = []
listed_pids (pid ∷ []) = pid
listed_pids (pid ∷ next ∷ pids) = pid ++ (codes ", " ++ listed_pids (next ∷ pids))

module _ (itoa : ℕ → Bytes) where
  -- The pids of the commands; the process of one that did not start is nil.
  unfoldable pub cmd_pids : List (Option ℕ) → M (List Bytes)
  cmd_pids [] = pure []
  cmd_pids (none ∷ cmds) = panic
  cmd_pids (some pid ∷ cmds) = do pids ← cmd_pids cmds; pure (itoa pid ∷ pids)

  unfoldable pub child_pids : List ℕ → List Bytes
  child_pids [] = []
  child_pids (pid ∷ pids) = itoa pid ∷ child_pids pids

  abbrev pub state_text : Daemon → DaemonState → M Bytes
  state_text d restarting = pure (codes "State: " ++ codes "Restarting")
  state_text d running = do
    pids ← cmd_pids d.cmds
    pure (
        codes "State: "
        ++ (codes "Running (" ++ (listed_pids (pids ++ child_pids d.pids) ++ codes ")")))
  state_text d starting = pure (codes "State: " ++ codes "Starting")
  state_text d stopped = pure (codes "State: " ++ codes "Stopped")
  state_text d stopping = pure (codes "State: " ++ codes "Stopping")

  -- `Status`: the text, and the error of the service.
  unfoldable pub status_of : Bytes → M (Bytes × Option Fault)
  status_of name = do
    d ← lock name
    msg ← state_text d d.state
    pure ((if d.masked then msg ++ codes " (masked)" else msg), d.state_error)
