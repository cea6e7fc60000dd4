-- ===== src/Daemon/Start/Keeps.antt =====
-- systemd/daemons/daemon.go, `start`: rules for the parts that start no other service.
use docker_systemd.Base.{
  ℕ, ◌≡◌, refl, sym, ◌∙◌, arith, Bool, false, List, [], ◌∷◌, Bytes, Option, none, some, ◌==◌,
  if◌then◌else◌,
}
use docker_systemd.Text.{equal}
use docker_systemd.Definition.{Definition}
use docker_systemd.Daemon.State.{DaemonState, starting, stopping, Fault, Daemon}
use docker_systemd.Daemon.Flow.{M, ◌>>=◌, modify}
use docker_systemd.Daemon.Host.{Host}
use docker_systemd.Daemon.Keeps.{
  IsGood-Stable, inline, Keeps-guard, Fits, IsGood, Keeps, Keeps-pure, Keeps-return, Keeps-get,
  and_then, Keeps-if, Keeps-defined, Keeps-lock, Keeps-lock_def, Keeps-tick, Keeps-set,
  Keeps-modify,
}
use docker_systemd.Daemon.Stop.{set_state, set_error, is_restarting}
use docker_systemd.Daemon.Stop.Keeps.{Keeps-run_command, Keeps-new_logger, Keeps-stop}
use docker_systemd.Daemon.Start.Stages.{
  is_running, is_stopping, set_remain, set_def, oneshot, remain_if_oneshot, enter_state,
  check_abort, start_enter, cleaned, start_cleanup, or_return, env_lines, env_files, user_ids,
  group_ids, start_environment, met, conditions, Environment, may_fail,
}

remain-deps :
    (o : Option Definition) (def : Definition)
    → set_def (λ def. if equal def.service_type oneshot then set_remain def else def) o ≡ some def
    → (old : Definition) × (o ≡ some old) × (old.deps ≡ def.deps)
remain-deps none def e = cc
remain-deps (some old) def e = (old, refl, ground arith)

module _ {rank : Bytes → ℕ} {mask : Bytes → Bool} (name : Bytes) where
  pub Keeps-set_state : (st : DaemonState) → Keeps (IsGood rank mask) (modify name (set_state st))
  Keeps-set_state st = Keeps-set _ _ (λ d. refl) (λ d. refl)

  pub Keeps-set_error : (e : Option Fault) → Keeps (IsGood rank mask) (modify name (set_error e))
  Keeps-set_error e = Keeps-set _ _ (λ d. refl) (λ d. refl)

  pub Keeps-check_abort : Keeps (IsGood rank mask) (check_abort name)
  unfolding check_abort
  Keeps-check_abort = and_then (Keeps-get _) λ down.
      and_then (Keeps-if down (λ _. Keeps-return _) (λ _. Keeps-pure _)) λ _.
        Keeps-lock
          λ d fits. Keeps-if (is_stopping d.state) (λ _. Keeps-return _) (λ _. Keeps-pure _)

  Keeps-enter_state : (st : DaemonState) → Keeps (IsGood rank mask) (enter_state st)
  Keeps-enter_state starting = Keeps-return _
  Keeps-enter_state stopping = Keeps-return _
  Keeps-enter_state _ = Keeps-pure _

  Fits-remain_if_oneshot :
      (d : Daemon) → Fits rank mask name d → Fits rank mask name (remain_if_oneshot d)
  Fits-remain_if_oneshot d h = record {
    masked_is = h.masked_is;
    ranked = λ def e r called.
        let (old, p, same) = remain-deps d.def def e in rw (← same) (h.ranked old p r called);
  }

  -- Past the guards the service is not masked.
  pub Keeps-start_enter :
      {B : Type 0} (is_manual : Bool) (k : Unit {0} → M B)
      → (mask name ≡ false → Keeps (IsGood rank mask) (k tt))
      → Keeps (IsGood rank mask) (start_enter name is_manual >>= k)
  unfolding start_enter
  Keeps-start_enter is_manual k kk = inline _ _ _ (
      and_then (Keeps-get _) λ down. inline _ _ _ (
        and_then (Keeps-if down (λ _. Keeps-return _) (λ _. Keeps-pure _)) λ _. inline _ _ _ (
          Keeps-lock λ d fits. inline _ _ _ (
            and_then (Keeps-enter_state d.state) λ _. inline _ _ _ (
              Keeps-guard d.masked _ _ λ unmasked. inline _ _ _ (
                Keeps-defined d fits λ def ranked. inline _ _ _ (
                  and_then
                    (Keeps-if is_manual (λ _. Keeps-set _ _ (λ d. refl) (λ d. refl))
                      (λ _. Keeps-pure _))
                    λ _. inline _ _ _ (
                      and_then
                        (Keeps-if (is_running d.state) (λ _. Keeps-return _) (λ _. Keeps-pure _))
                        λ _. inline _ _ _ (
                          and_then
                            (Keeps-if (is_restarting d.state) (λ _. Keeps-pure _)
                              (λ _. Keeps-set_state _))
                            λ _. inline _ _ _ (
                              and_then (Keeps-modify _ _ Fits-remain_if_oneshot) λ _.
                                and_then Keeps-check_abort
                                  λ _. kk (sym fits.masked_is ∙ unmasked)))))))))))

module _ {rank : Bytes → ℕ} {mask : Bytes → Bool} (host : Host) where
  pub Keeps-start_cleanup : (name : Bytes) → Keeps (IsGood rank mask) (start_cleanup host name)
  unfolding start_cleanup
  Keeps-start_cleanup name =
      and_then (Keeps-stop host name (IsGood-Stable name) false)
        λ err. and_then (Keeps-check_abort name) λ _. Keeps-lock λ d fits. Keeps-cleaned err
    where
      Keeps-cleaned : (err : Option Fault) → Keeps (IsGood rank mask) (cleaned name err)
      Keeps-cleaned none = Keeps-set_error name none
      Keeps-cleaned (some e) =
          and_then (Keeps-set_state name _)
            λ _. and_then (Keeps-set_error name _) λ _. Keeps-return _

  Keeps-env_lines :
      (file : Bytes) (content : Option Bytes)
      → Keeps (IsGood rank mask) (env_lines host file content)
  Keeps-env_lines file (some content) = Keeps-pure _
  Keeps-env_lines file none = Keeps-if (may_fail file) (λ _. Keeps-pure _) (λ _. Keeps-return _)

  Keeps-env_files : (env files : List Bytes) → Keeps (IsGood rank mask) (env_files host env files)
  unfolding env_files
  Keeps-env_files env [] = Keeps-pure _
  Keeps-env_files env (file ∷ files) =
      and_then Keeps-tick λ at. and_then (Keeps-env_lines _ _) λ more. Keeps-env_files _ files

  Keeps-or_return :
      {A : Type 0} (e : Fault) (o : Option A) → Keeps (IsGood rank mask) (or_return e o)
  Keeps-or_return e none = Keeps-return _
  Keeps-or_return e (some a) = Keeps-pure _

  Keeps-user_ids : (user : Bytes) → Keeps (IsGood rank mask) (user_ids host user)
  Keeps-user_ids [] = Keeps-pure _
  Keeps-user_ids (c ∷ user) = and_then Keeps-tick λ at. Keeps-or_return _ _

  Keeps-group_ids :
      (group : Bytes) (ids : ℕ × ℕ) → Keeps (IsGood rank mask) (group_ids host group ids)
  Keeps-group_ids [] ids = Keeps-pure _
  Keeps-group_ids (c ∷ group) (uid, gid) = and_then Keeps-tick λ at.
      and_then (Keeps-or_return _ _) λ gid'. and_then Keeps-tick λ now.
        Keeps-if (uid == 0) (λ _. and_then (Keeps-or_return _ _) λ current. Keeps-pure _)
          (λ _. Keeps-pure _)

  pub Keeps-start_environment :
      (name : Bytes) → Keeps (IsGood rank mask) (start_environment host name)
  unfolding start_environment
  Keeps-start_environment name = Keeps-lock_def name λ def ranked. and_then Keeps-tick λ at.
      and_then (Keeps-env_files _ _) λ env. and_then (Keeps-user_ids _) λ user.
        and_then (Keeps-group_ids _ _) λ ids.
          and_then (Keeps-new_logger host name (IsGood-Stable name)) λ opened.
            and_then
              (Keeps-if opened (λ _. Keeps-pure _)
                (λ _.
                  and_then (Keeps-set_state name _)
                    λ _. and_then (Keeps-set_error name _) λ _. Keeps-return _))
              λ _. Keeps-pure _

  Keeps-met : (name : Bytes) (e : Option Fault) → Keeps (IsGood rank mask) (met host name e)
  Keeps-met name none = Keeps-pure _
  Keeps-met name (some e) = Keeps-lock λ d fits.
      and_then (Keeps-set_state name _) λ _. and_then (Keeps-set_error name _) λ _. Keeps-return _

  pub Keeps-conditions :
      (name : Bytes) (e : Environment) (lines : List Bytes)
      → Keeps (IsGood rank mask) (conditions host name e lines)
  unfolding conditions
  Keeps-conditions name e [] = Keeps-pure _
  Keeps-conditions name e (line ∷ lines) = and_then (Keeps-check_abort name) λ _.
      and_then (Keeps-run_command host name (IsGood-Stable name) _)
        λ err. and_then (Keeps-met name err) λ _. Keeps-conditions name e lines
