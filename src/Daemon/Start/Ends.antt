-- ===== src/Daemon/Start/Ends.antt =====
-- systemd/daemons/daemon.go, `start`: rules for the parts that start other services, and its fuel.
use docker_systemd.Base.{
  ℕ, zero, suc, ◌<◌, ◌≡◌, refl, arith, Bool, true, false, List, [], ◌∷◌, Bytes, Option, none, some,
}
use docker_systemd.Definition.{
  Relation, requires, binds_to, wants, upholds, on_failure, on_success, Links,
}
use docker_systemd.Daemon.State.{Fault, System, pre_failed, post_failed, start_failed}
use docker_systemd.Daemon.Flow.{M}
use docker_systemd.Daemon.Host.{Host}
use docker_systemd.Daemon.Keeps.{
  IsGood-Stable, is_called, LinksBelow, IsGood, Holds, Keeps, Keeps-pure, Keeps-return, Keeps-panic,
  and_then, Keeps-if, Keeps-call, Keeps-read, Keeps-defined, Keeps-lock, Keeps-lock_def, Keeps-emit,
  Keeps-tick, Keeps-set,
}
use docker_systemd.Daemon.Stop.Keeps.{Keeps-run_command, Keeps-stop, Keeps-stop_link}
use docker_systemd.Daemon.Start.Keeps.{
  Keeps-set_state, Keeps-set_error, Keeps-check_abort, Keeps-start_enter, Keeps-start_cleanup,
  Keeps-start_environment, Keeps-conditions,
}
use docker_systemd.Daemon.Start.Stages.{
  is_running, is_stopping, Environment, start_links, run_held, fail, requisite_link, requisites,
  or_fail, needed, wanted, conflicting, command_result, run_commands, may_fail, start_commands,
  start_running,
}
use docker_systemd.Daemon.Start.{start_link, run_service, start_body, start}

module _ {rank : Bytes → ℕ} {mask : Bytes → Bool} (start_it : Bytes → M (Option Fault))
    (name : Bytes)
    (starts : (m : Bytes) → rank m < rank name → Keeps (IsGood rank mask) (start_it m)) where
  abbrev Good : {A : Type 0} → M A → Type 0
  Good m = Keeps (IsGood rank mask) m

  abbrev BelowName : Links → Type 0
  BelowName links = LinksBelow rank mask (rank name) links

  Keeps-start_links :
      (links : Links) → BelowName links → Good (start_links (start_link start_it) links)
  unfolding start_links
  Keeps-start_links [] below = Keeps-pure _
  Keeps-start_links ((n, none) ∷ links) below =
      and_then (Keeps-pure _) λ _. Keeps-start_links links below
  Keeps-start_links ((n, some m) ∷ links) below =
      and_then (starts m below.0) λ _. Keeps-start_links links below.1

  Keeps-run_held :
      (r : Relation) → is_called r ≡ true → Good (run_held (start_link start_it) name r)
  unfolding run_held
  Keeps-run_held r called = and_then (Keeps-set _ _ (λ d. refl) (λ d. refl)) λ _.
      Keeps-read λ d fits. Keeps-defined d fits λ def ranked.
        and_then (Keeps-start_links (def.deps r) (ranked r called))
          λ _. Keeps-set _ _ (λ d. refl) (λ d. refl)

  Keeps-fail :
      {A : Type 0} (e : Fault) (r : Option Fault)
      → Good (fail (start_link start_it) {A = A} name e r)
  unfolding fail
  Keeps-fail e r = Keeps-lock λ d fits. and_then (Keeps-set_state name _) λ _.
      and_then (Keeps-set_error name _)
        λ _. and_then (Keeps-run_held on_failure refl) λ _. Keeps-return _

  Keeps-requisite_link :
      (target : Option Bytes) → Good (requisite_link (start_link start_it) name target)
  Keeps-requisite_link none = Keeps-panic
  Keeps-requisite_link (some other) =
      Keeps-lock λ i fits. Keeps-if (is_running i.state) (λ _. Keeps-pure _) (λ _. Keeps-fail _ _)

  Keeps-requisites : (links : Links) → Good (requisites (start_link start_it) name links)
  unfolding requisites
  Keeps-requisites [] = Keeps-pure _
  Keeps-requisites ((n, target) ∷ links) =
      and_then (Keeps-check_abort name)
        λ _. and_then (Keeps-requisite_link target) λ _. Keeps-requisites links

  Keeps-or_fail :
      (other : Bytes) (e : Option Fault) → Good (or_fail (start_link start_it) name other e)
  Keeps-or_fail other none = Keeps-pure _
  Keeps-or_fail other (some e) = Keeps-fail _ _

  Keeps-needed : (links : Links) → BelowName links → Good (needed (start_link start_it) name links)
  unfolding needed
  Keeps-needed [] below = Keeps-pure _
  Keeps-needed ((n, none) ∷ links) below = and_then (Keeps-check_abort name) λ _.
      and_then (Keeps-pure none) λ e. and_then (Keeps-or_fail _ e) λ _. Keeps-needed links below
  Keeps-needed ((n, some m) ∷ links) below = and_then (Keeps-check_abort name) λ _.
      and_then (starts m below.0) λ e. and_then (Keeps-or_fail _ e) λ _. Keeps-needed links below.1

  Keeps-wanted : (links : Links) → BelowName links → Good (wanted (start_link start_it) name links)
  unfolding wanted
  Keeps-wanted [] below = Keeps-pure _
  Keeps-wanted ((n, none) ∷ links) below =
      and_then (Keeps-check_abort name) λ _. and_then (Keeps-pure _) λ _. Keeps-wanted links below
  Keeps-wanted ((n, some m) ∷ links) below =
      and_then (Keeps-check_abort name)
        λ _. and_then (starts m below.0) λ _. Keeps-wanted links below.1

  module _ (host : Host) where
    Keeps-conflicting : (links : Links) → Good (conflicting host (start_link start_it) name links)
    unfolding conflicting
    Keeps-conflicting [] = Keeps-pure _
    Keeps-conflicting ((n, target) ∷ links) = and_then (Keeps-check_abort name) λ _.
        and_then (Keeps-stop_link host IsGood-Stable target)
          λ e. and_then (Keeps-or_fail _ e) λ _. Keeps-conflicting links

    Keeps-command_result :
        (wrap : Bytes → Fault → Fault) (line : Bytes) (e : Option Fault)
        → Good (command_result host (start_link start_it) name wrap line e)
    Keeps-command_result wrap line none = Keeps-pure _
    Keeps-command_result wrap line (some e) =
        Keeps-if (may_fail line) (λ _. Keeps-pure _)
          (λ _. and_then (Keeps-stop host name (IsGood-Stable name) true) λ _. Keeps-fail _ _)

    Keeps-run_commands :
        (env : Environment) (wrap : Bytes → Fault → Fault) (lines : List Bytes)
        → Good (run_commands host (start_link start_it) name env wrap lines)
    unfolding run_commands
    Keeps-run_commands env wrap [] = Keeps-pure _
    Keeps-run_commands env wrap (line ∷ lines) = and_then (Keeps-check_abort name) λ _.
        and_then (Keeps-run_command host name (IsGood-Stable name) _)
          λ e. and_then (Keeps-command_result wrap line e) λ _. Keeps-run_commands env wrap lines

    Keeps-start_commands :
        (env : Environment) (dir : Bytes) (lines : List Bytes) (cmds : List (Option ℕ))
        → mask name ≡ false
        → Good (start_commands host (start_link start_it) name env dir cmds lines)
    unfolding start_commands
    Keeps-start_commands env dir [] cmds unmasked = Keeps-pure _
    Keeps-start_commands env dir (line ∷ lines) cmds unmasked =
        and_then (Keeps-check_abort name) λ _. and_then Keeps-tick λ at.
          and_then (Keeps-emit _ unmasked) λ _.
            and_then (Keeps-command_result start_failed line _)
              λ _. Keeps-start_commands env dir lines _ unmasked

    Keeps-start_running :
        (cmds : List (Option ℕ)) → Good (start_running (start_link start_it) name cmds)
    unfolding start_running
    Keeps-start_running cmds = Keeps-lock λ d fits.
        and_then (Keeps-if (is_stopping d.state) (λ _. Keeps-return _) (λ _. Keeps-pure _)) λ _.
          and_then (Keeps-set_state name _) λ _. and_then (Keeps-set_error name _) λ _.
            and_then (Keeps-run_held on_success refl) λ _.
              and_then (Keeps-set _ _ (λ d. refl) (λ d. refl))
                λ _. and_then (Keeps-emit _ tt) λ _. Keeps-pure _

    Keeps-run_service :
        (env : Environment) → mask name ≡ false → Good (run_service host start_it name env)
    unfolding run_service
    Keeps-run_service env unmasked = Keeps-lock_def name λ def ranked.
        and_then (Keeps-run_commands env pre_failed _) λ _.
          and_then (Keeps-start_commands env _ _ _ unmasked)
            λ cmds. and_then (Keeps-run_commands env post_failed _) λ _. Keeps-start_running cmds

    Keeps-start_body : (is_manual : Bool) → Good (start_body host start_it name is_manual)
    unfolding start_body
    Keeps-start_body is_manual = Keeps-start_enter name is_manual _ λ unmasked.
        and_then (Keeps-start_cleanup host name) λ _.
          and_then (Keeps-start_environment host name) λ env. Keeps-lock_def name λ def _.
            and_then (Keeps-conditions host name env _) λ _. Keeps-lock_def name λ needs ranked.
              and_then (Keeps-requisites _) λ _.
                and_then (Keeps-needed _ (ranked requires refl)) λ _.
                  and_then (Keeps-needed _ (ranked binds_to refl)) λ _.
                    and_then (Keeps-wanted _ (ranked wants refl)) λ _.
                      and_then (Keeps-wanted _ (ranked upholds refl))
                        λ _. and_then (Keeps-conflicting _) λ _. Keeps-run_service env unmasked

module _ {rank : Bytes → ℕ} {mask : Bytes → Bool} (host : Host) where
  pub Keeps-start :
      (fuel : ℕ) (name : Bytes) (is_manual : Bool)
      → rank name < fuel
      → Keeps (IsGood rank mask) (start host fuel name is_manual)
  unfolding start
  Keeps-start zero name is_manual h = elim h [ ]
  Keeps-start (suc fuel) name is_manual h = Keeps-call (
      Keeps-start_body (λ other. start host fuel other false) name
        (λ m below. Keeps-start fuel m false (omega arith)) host is_manual)

-- On any host, `start` of a service ends within as many nested calls as its rank and one more, in a
-- system whose services call services of lower rank only (by Requires, BindsTo, Wants, Upholds,
-- OnFailure and OnSuccess): it returns, unless the program stops at a nil dereference or a mutex
-- that it holds. The system it leaves is again of that kind, with the same services masked, and no
-- command of the `ExecStart` of a masked service was run.
pub start-IsGood :
    (rank : Bytes → ℕ) (mask : Bytes → Bool) (host : Host) (fuel : ℕ) (name : Bytes)
    (is_manual : Bool) (s : System)
    → rank name < fuel
    → IsGood rank mask s
    → Holds (IsGood rank mask) (start host fuel name is_manual s)
start-IsGood rank mask host fuel name is_manual s h good =
    (Keeps-start host fuel name is_manual h).at s good
