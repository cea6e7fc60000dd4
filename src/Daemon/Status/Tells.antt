-- ===== src/Daemon/Status/Tells.antt =====
-- systemd/daemons/daemon.go, `Status`: what its text tells.
use docker_systemd.Base.{
  ℕ, ◌≡◌, refl, sym, ap, ◌∙◌, append-nil, Bool, true, false, List, [], ◌∷◌, ◌++◌, Bytes, Option,
  none, some, if◌then◌else◌,
}
use docker_systemd.Text.{codes, has_prefix}
use docker_systemd.Daemon.State.{
  DaemonState, running, stopped, starting, stopping, restarting, Fault, Daemon, System, find,
}
use docker_systemd.Daemon.Flow.{
  Flow, next, returned, panicked, deadlocked, no_fuel, pure, panic, deadlock, continue, ◌>>=◌, read,
  lock,
}
use docker_systemd.Daemon.Status.{cmd_pids, child_pids, listed_pids, state_text, status_of}

-- The state that a reader of a text finds in it.
unfoldable pub state_in : Bytes → Option DaemonState
state_in msg =
    if has_prefix msg (codes "State: Restarting")
    then some restarting
    else if has_prefix msg (codes "State: Running")
    then some running
    else if has_prefix msg (codes "State: Starting")
    then some starting
    else if has_prefix msg (codes "State: Stopped")
    then some stopped
    else if has_prefix msg (codes "State: Stopping")
    then some stopping
    else none

-- A text that tells the state of the service and its error, in the same system; or the program stops
-- at a nil dereference or a mutex that it holds.
pub data Tells (d : Daemon) (s : System) : Flow (Bytes × Option Fault) → Type 0 where
  tells : {msg : Bytes} → state_in msg ≡ some d.state → Tells d s (next (msg, d.state_error) s)
  crashes : Tells d s panicked
  blocks : Tells d s deadlocked

-- The pids, in the same system, or a nil dereference.
data Pids (s : System) : Flow (List Bytes) → Type 0 where
  pids : {list : List Bytes} → Pids s (next list s)
  no_pids : Pids s panicked

module _ (itoa : ℕ → Bytes) (s : System) where
  cmd_pids-Pids : (cmds : List (Option ℕ)) → Pids s (cmd_pids itoa cmds s)
  unfolding cmd_pids ◌>>=◌ pure panic
  cmd_pids-Pids [] = pids
  cmd_pids-Pids (none ∷ cmds) = no_pids
  cmd_pids-Pids (some pid ∷ cmds) = by_rest (cmd_pids itoa cmds s) (cmd_pids-Pids cmds)
    where
      by_rest :
          (r : Flow (List Bytes)) → Pids s r → Pids s (continue r (λ pids. pure (itoa pid ∷ pids)))
      by_rest (next list t) pids = pids
      by_rest panicked no_pids = no_pids
      by_rest (returned e t) h = elim h [ ]
      by_rest deadlocked h = elim h [ ]
      by_rest no_fuel h = elim h [ ]

  -- A text that tells the state with anything behind it.
  masked-Tells :
      (d : Daemon) (msg : Bytes)
      → ((rest : Bytes) → state_in (msg ++ rest) ≡ some d.state)
      → Tells d s (next ((if d.masked then msg ++ codes " (masked)" else msg), d.state_error) s)
  masked-Tells d msg reads = by_mask d.masked
    where
      by_mask :
          (b : Bool)
          → Tells d s (next ((if b then msg ++ codes " (masked)" else msg), d.state_error) s)
      by_mask true = tells (reads (codes " (masked)"))
      by_mask false = tells (ap state_in (sym (append-nil msg)) ∙ reads [])

  state-Tells :
      (d : Daemon) (st : DaemonState)
      → d.state ≡ st
      → Tells d s (
          continue
            (state_text itoa d st s)
            (λ msg. pure ((if d.masked then msg ++ codes " (masked)" else msg), d.state_error)))
  unfolding state_in has_prefix ◌>>=◌ pure
  state-Tells d restarting e =
      masked-Tells d (codes "State: " ++ codes "Restarting") (λ rest. rw e refl)
  state-Tells d starting e =
      masked-Tells d (codes "State: " ++ codes "Starting") (λ rest. rw e refl)
  state-Tells d stopped e = masked-Tells d (codes "State: " ++ codes "Stopped") (λ rest. rw e refl)
  state-Tells d stopping e =
      masked-Tells d (codes "State: " ++ codes "Stopping") (λ rest. rw e refl)
  state-Tells d running e = by_pids (cmd_pids itoa d.cmds s) (cmd_pids-Pids d.cmds)
    where
      by_pids :
          (r : Flow (List Bytes))
          → Pids s r
          → Tells d s (
              continue
                (continue r (λ pids. pure (
                  codes "State: "
                  ++ (codes "Running ("
                      ++ (listed_pids (pids ++ child_pids itoa d.pids) ++ codes ")")))))
                (λ msg. pure ((if d.masked then msg ++ codes " (masked)" else msg), d.state_error)))
      by_pids (next list t) pids =
          masked-Tells d
            (codes "State: "
              ++ (codes "Running (" ++ (listed_pids (list ++ child_pids itoa d.pids) ++ codes ")")))
            (λ rest. rw e refl)
      by_pids panicked no_pids = crashes
      by_pids (returned x t) h = elim h [ ]
      by_pids deadlocked h = elim h [ ]
      by_pids no_fuel h = elim h [ ]

  -- `Status` of a service gives a text in which its state can be read, whether it is masked or not, and
  -- its error, and changes nothing; unless it dereferences nil, as it does for a command that did not
  -- start, or locks a mutex that its goroutine holds.
  pub status_of-Tells :
      (name : Bytes) (d : Daemon) → find name s.list ≡ some d → Tells d s (status_of itoa name s)
  unfolding status_of lock read ◌>>=◌ pure deadlock
  status_of-Tells name d here = rw here (by_held d.held)
    where
      by_held :
          (b : Bool)
          → Tells d s (
              continue ((if b then deadlock else pure d) s) (λ d.
                state_text itoa d d.state >>= λ msg.
                pure ((if d.masked then msg ++ codes " (masked)" else msg), d.state_error)))
      by_held true = blocks
      by_held false = state-Tells d d.state refl
