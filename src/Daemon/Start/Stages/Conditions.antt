-- ===== src/Daemon/Start/Stages/Conditions.antt =====
-- systemd/daemons/daemon.go, the environment, the user and the conditions of `start`.
use docker_systemd.Base.{
  ℕ, Bool, List, [], ◌∷◌, ◌++◌, Bytes, Option, none, some, ◌==◌, if◌then◌else◌,
}
use docker_systemd.Text.{has_prefix, trim_prefix, split}
use docker_systemd.Daemon.State.{
  stopped, Fault, log_not_opened, no_user, no_group, no_current_user, no_env_file,
}
use docker_systemd.Daemon.Flow.{M, pure, return, ◌>>=◌, ◌>>◌, modify, tick, lock, lock_def}
use docker_systemd.Daemon.Host.{Host, run_command, new_logger}
use docker_systemd.Daemon.Stop.{set_state, set_error}
use docker_systemd.Daemon.Start.Stages.Enter.{check_abort}

pub record Environment : Type 0 where
  pub env : List Bytes
  pub uid : ℕ
  pub gid : ℕ

-- A leading `-`, which lets the rest fail.
abbrev pub dash : Bytes
dash = b'-' ∷ []

abbrev pub may_fail : Bytes → Bool
may_fail line = has_prefix line dash

abbrev pub undashed : Bytes → Bytes
undashed line = trim_prefix line dash

-- A missing user, group or current user ends `start`.
abbrev pub or_return : {A : Type 0} → Fault → Option A → M A
or_return e none = return (some e)
or_return e (some a) = pure a

module _ (host : Host) where
  -- What one environment file adds, or the error that ends `start`.
  abbrev pub env_lines : Bytes → Option Bytes → M (List Bytes)
  env_lines file (some content) = pure (split content b'\n')
  env_lines file none =
      if may_fail file then pure [] else return (some (no_env_file (undashed file)))

  -- The loop over `EnvFile`, with the environment so far.
  unfoldable pub env_files : List Bytes → List Bytes → M (List Bytes)
  env_files env [] = pure env
  env_files env (file ∷ files) = do
    at ← tick
    more ← env_lines file (host.read_file (undashed file) at)
    env_files (env ++ more) files

  -- The user's ids, or 0 and 0 when the definition names none.
  abbrev pub user_ids : Bytes → M (ℕ × ℕ)
  user_ids [] = pure (0, 0)
  user_ids (c ∷ user) = do at ← tick; or_return no_user (host.find_user (c ∷ user) at)

  -- The definition's group, with the user of the program itself where no other is known.
  abbrev pub group_ids : Bytes → ℕ × ℕ → M (ℕ × ℕ)
  group_ids [] ids = pure ids
  group_ids (c ∷ group) (uid, gid) = do
    at ← tick
    gid' ← or_return no_group (host.find_group (c ∷ group) at)
    now ← tick
    (if uid == 0
        then (or_return no_current_user (host.current_user now) >>= λ current. pure (current, gid'))
        else pure (uid, gid'))

  -- The environment, the ids and the logger.
  unfoldable pub start_environment : Bytes → M Environment
  start_environment name = do
    def ← lock_def name
    at ← tick
    env ← env_files (host.environ at ++ def.env) def.env_file
    user ← user_ids def.user
    ids ← group_ids def.group user
    opened ← new_logger host name
    (if opened then pure tt else do
      modify name (set_state stopped)
      modify name (set_error (some log_not_opened))
      return (some log_not_opened))
    pure (record { env = env; uid = ids.0; gid = ids.1 })

  abbrev pub met : Bytes → Option Fault → M (Unit {0})
  met name none = pure tt
  met name (some e) = do
    lock name
    modify name (set_state stopped)
    modify name (set_error none)
    return none

  -- The loop over `ExecCondition`: a condition that is not met ends `start` with no error.
  unfoldable pub conditions : Bytes → Environment → List Bytes → M (Unit {0})
  conditions name e [] = pure tt
  conditions name e (line ∷ lines) = do
    check_abort name
    err ←
        run_command host name
          (record { line = line; env = some e.env; dir = []; credential = none })
    met name err
    conditions name e lines
