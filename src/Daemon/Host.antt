-- ===== src/Daemon/Host.antt =====
-- What the program asks of the operating system, and procwait/procwait.go `Run`.
use docker_systemd.Base.{ℕ, ◌+◌, Bool, true, List, Bytes, Option, none, some, ◌==◌, if◌then◌else◌}
use docker_systemd.Daemon.State.{Fault, command_failed, ran}
use docker_systemd.Daemon.Flow.{M, pure, ◌>>=◌, ◌>>◌, get, emit, tick}

-- `exec.Cmd` as the code fills it in: the line given to bash, the environment (nil for that of the
-- program itself), the directory, and the user and group ids.
pub record Command : Type 0 where
  pub line : Bytes
  pub env : Option (List Bytes)
  pub dir : Bytes
  pub credential : Option (ℕ × ℕ)

-- How a command ends that is run to its end.
pub data Launch : Type 0 where
  not_started : Launch
  exited signaled : ℕ → Launch

-- The operating system, each answer by the number of the call. `now` is the monotonic clock in
-- nanoseconds, less what the program slept.
pub record Host : Type 0 where
  pub log_opens : Bytes → ℕ → Bool
  pub run : Command → ℕ → Launch
  pub spawn : Command → ℕ → Option ℕ
  pub environ : ℕ → List Bytes
  pub read_file : Bytes → ℕ → Option Bytes
  pub find_user : Bytes → ℕ → Option (ℕ × ℕ)
  pub find_group : Bytes → ℕ → Option ℕ
  pub current_user : ℕ → Option ℕ
  pub alive : ℕ → ℕ → Bool
  pub now : ℕ → ℕ

-- The error of `procwait.Run`: a command that did not start, or whose exit status is not 0. The
-- status of a command that a signal ended is -1.
abbrev pub run_error : Bytes → Launch → Option Fault
run_error line not_started = some (command_failed line)
run_error line (exited status) = if status == 0 then none else some (command_failed line)
run_error line (signaled _) = some (command_failed line)

module _ (host : Host) where
  -- `time.Now()`
  unfoldable pub time_now : M ℕ
  time_now = do at ← tick; slept ← get (λ s. s.slept); pure (host.now at + slept)

  -- `procwait.Run`
  unfoldable pub run_command : Bytes → Command → M (Option Fault)
  run_command name cmd = do
    at ← tick
    emit (ran name cmd.line)
    pure (run_error cmd.line (host.run cmd at))

  -- systemd/daemons/logger.go `NewLogger`: whether it gives a logger.
  unfoldable pub new_logger : Bytes → M Bool
  new_logger name = do
    at ← tick
    to_file ← get (λ s. s.log_to_file)
    pure (if to_file then host.log_opens name at else true)
