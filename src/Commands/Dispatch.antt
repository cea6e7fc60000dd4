-- ===== src/Commands/Dispatch.antt =====
-- systemd/command.go, `command`: from the arguments to the return code.
use docker_systemd.Base.{
  ℕ, Bool, true, false, ◌||◌, List, [], ◌∷◌, ◌++◌, Bytes, Option, none, some, if◌then◌else◌,
}
use docker_systemd.Text.{codes, equal, has_prefix}
use docker_systemd.Commands.{
  disabling, stopping, restarting, reloading, masking, unmasking, Services, Session, Reply, nothing,
  response, failure, Turn, Handler, newline, execute_each,
}
use docker_systemd.Commands.Handlers.{
  execute_create, execute_delete, execute_start, execute_enable, execute_status, execute_show,
  execute_list, execute_reload, execute_poweroff, set_environment, unset_environment,
}

-- The commands: `cmd`.
pub data Command : Type 0 where
  cmd_poweroff cmd_daemon_reload cmd_status cmd_show cmd_create cmd_delete cmd_set_env cmd_unset_env
        cmd_list :
      Command
  cmd_enable : (now : Bool) → Command
  cmd_disable cmd_start cmd_stop cmd_restart cmd_reload cmd_mask cmd_unmask : Command

-- What the package go-flags makes of the arguments: a command with the arguments behind it, or its
-- own error, which may be that the command is unknown.
pub data Parsed : Type 0 where
  runs : Command → List Bytes → Parsed
  refused : (unknown : Bool) → (message : Bytes) → Parsed

abbrev pub is_help : List Bytes → Bool
is_help [] = true
is_help (arg ∷ _) = equal arg (codes "-h") || equal arg (codes "--help")

module _ {S D : Type 0} (services : Services S D) where
  unfoldable pub execute : Command → List Bytes → Handler S Reply
  execute cmd_poweroff args = execute_poweroff services
  execute cmd_daemon_reload args = execute_reload services
  execute cmd_status args = execute_status services args
  execute cmd_show args = execute_show services args
  execute cmd_create args = execute_create services args
  execute cmd_delete args = execute_delete services args
  execute cmd_set_env args = set_environment services args
  execute cmd_unset_env args = unset_environment services args
  execute cmd_list args = execute_list services
  execute (cmd_enable now) args = execute_enable services now args
  execute cmd_disable args = execute_each services disabling args
  execute cmd_start args = execute_start services args
  execute cmd_stop args = execute_each services stopping args
  execute cmd_restart args = execute_each services restarting args
  execute cmd_reload args = execute_each services reloading args
  execute cmd_mask args = execute_each services masking args
  execute cmd_unmask args = execute_each services unmasking args

  -- `conn.Println`
  abbrev pub println : Bytes → Session S → Session S
  println text s = record s { out = s.out ++ (text ++ newline) }

  -- How `command` ends: with a return code, or with a panic, which ends the daemon.
  abbrev pub Ended : Type 0
  Ended = Option (ℕ × Session S)

  abbrev pub ended_with : Reply → Session S → Ended
  ended_with nothing s = some (0, s)
  ended_with (response message true) s = some (1, println message s)
  ended_with (response message false) s = some (0, println message s)
  ended_with (failure message) s =
      some (if has_prefix message (codes "Unknown command") then 0 else 1, println message s)

  abbrev pub ended : Turn S Reply → Ended
  ended (Turn.goes r s) = ended_with r s
  ended (Turn.answers r s) = ended_with r s
  ended Turn.panics = none

  abbrev pub parsed : Parsed → Session S → Ended
  parsed (runs c args) s = ended (execute c args s)
  parsed (refused true message) s = some (0, println message s)
  parsed (refused false message) s = some (0, s)

  module _ (help : Bytes) (parse : List Bytes → Parsed) where
    unfoldable pub command : List Bytes → Session S → Ended
    command args s = if is_help args then some (0, println help s) else parsed (parse args) s
