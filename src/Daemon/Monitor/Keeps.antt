-- ===== src/Daemon/Monitor/Keeps.antt =====
-- systemd/daemons/daemon.go, the end of `monitorCmds`: one rule for each of its parts.
use docker_systemd.Base.{
  arith, ℕ, ◌≡◌, ◌<◌, refl, Bool, ◌||◌, List, [], ◌∷◌, Bytes, Option, none, some, if◌then◌else◌,
}
use docker_systemd.Text.{codes, has_prefix}
use docker_systemd.Definition.{Definition, Duration, nanoseconds, negative, Links}
use docker_systemd.Daemon.State.{Fault, Daemon, System}
use docker_systemd.Daemon.Flow.{M}
use docker_systemd.Daemon.Host.{Host, Launch}
use docker_systemd.Daemon.Keeps.{
  IsGood, IsGood-Stable, Fits, Holds, Keeps, Keeps-pure, Keeps-return, Keeps-panic, Keeps-get,
  and_then, Keeps-if, Keeps-call, Keeps-any, Keeps-some_defined, Keeps-read, Keeps-set,
  Keeps-modify, Keeps-emit, Keeps-sleep,
}
use docker_systemd.Daemon.Stop.Keeps.{Keeps-stop_link}
use docker_systemd.Daemon.Start.Ends.{Keeps-start}
use docker_systemd.Daemon.Start.Stages.{is_stopped, set_def}
use docker_systemd.Daemon.Monitor.{
  any_wrong, Policy, always, on_failure, on_success, otherwise, policy_of, was_ended, upheld,
  sleep_for, set_sleep, with_sleep, stop_links, handle_stop_deps, nap, start_again, give_up,
  on_failure_ends, on_success_ends, otherwise_ends, or_stop_deps, restart_by, after_exit,
}

sleep-deps :
    (o : Option Definition) (def : Definition)
    → set_def set_sleep o ≡ some def
    → (old : Definition) × (o ≡ some old) × (old.deps ≡ def.deps)
sleep-deps none def e = cc
sleep-deps (some old) def e = (old, refl, ground arith)

module _ {rank : Bytes → ℕ} {mask : Bytes → Bool} where
  Keeps-upheld :
      (restart : Policy) (links : Links) → Keeps (IsGood rank mask) (upheld restart links)
  unfolding upheld
  Keeps-upheld restart [] = Keeps-pure _
  Keeps-upheld restart ((n, none) ∷ links) = Keeps-panic
  Keeps-upheld restart ((n, some other) ∷ links) =
      and_then (Keeps-any other) λ dep. Keeps-upheld _ links

  Keeps-sleep_for : (t : Duration) → Keeps (IsGood rank mask) (sleep_for t)
  Keeps-sleep_for (nanoseconds n) = Keeps-sleep n
  Keeps-sleep_for (negative n) = Keeps-pure _

  Fits-with_sleep :
      (name : Bytes) (d : Daemon) → Fits rank mask name d → Fits rank mask name (with_sleep d)
  Fits-with_sleep name d h = record {
    masked_is = h.masked_is;
    ranked = λ def e r called.
        let (old, p, same) = sleep-deps d.def def e in rw (← same) (h.ranked old p r called);
  }

  module _ (host : Host) (fuel : ℕ) (meanwhile : M (Unit {0})) (name : Bytes)
      (below : rank name < fuel) (others : Keeps (IsGood rank mask) meanwhile) where
    Keeps-stop_links :
        (links : Links) → Keeps (IsGood rank mask) (stop_links host fuel meanwhile name links)
    unfolding stop_links
    Keeps-stop_links [] = Keeps-pure _
    Keeps-stop_links ((n, target) ∷ links) =
        and_then (Keeps-stop_link host IsGood-Stable target) λ _. Keeps-stop_links links

    Keeps-handle_stop_deps : Keeps (IsGood rank mask) (handle_stop_deps host fuel meanwhile name)
    unfolding handle_stop_deps
    Keeps-handle_stop_deps = Keeps-read λ d fits.
        and_then (Keeps-some_defined d.def)
          λ def. and_then (Keeps-stop_links _) λ _. Keeps-stop_links _

    Keeps-nap : Keeps (IsGood rank mask) (nap host fuel meanwhile name)
    unfolding nap
    Keeps-nap = and_then (Keeps-set _ _ (λ d. refl) (λ d. refl)) λ _. Keeps-read λ d fits.
        and_then (Keeps-some_defined d.def) λ def. and_then (Keeps-sleep_for def.restart_sleep) λ _.
          and_then others λ _. and_then (Keeps-get _) λ down. Keeps-read λ d' fits'.
            Keeps-if (down || is_stopped d'.state) (λ _. Keeps-return _) (λ _. Keeps-pure _)

    Keeps-start_again : Keeps (IsGood rank mask) (start_again host fuel meanwhile name)
    unfolding start_again
    Keeps-start_again = Keeps-read λ d fits. Keeps-start host fuel name d.is_manual below

    Keeps-give_up : Keeps (IsGood rank mask) (give_up host fuel meanwhile name)
    unfolding give_up
    Keeps-give_up = and_then (Keeps-set _ _ (λ d. refl) (λ d. refl)) λ _. Keeps-handle_stop_deps

    Keeps-or_stop_deps :
        (e : Option Fault) → Keeps (IsGood rank mask) (or_stop_deps host fuel meanwhile name e)
    Keeps-or_stop_deps none = Keeps-pure _
    Keeps-or_stop_deps (some e) = Keeps-handle_stop_deps

    Keeps-on_failure_ends :
        (def : Definition) (e : Option Fault)
        → Keeps (IsGood rank mask) (on_failure_ends host fuel meanwhile name def e)
    Keeps-on_failure_ends def (some e) =
        and_then Keeps-nap λ _. and_then Keeps-start_again λ _. Keeps-pure _
    Keeps-on_failure_ends def none =
        Keeps-if def.remain_after_exit (λ _. Keeps-pure _) (λ _. Keeps-give_up)

    Keeps-on_success_ends :
        (def : Definition) (e : Option Fault)
        → Keeps (IsGood rank mask) (on_success_ends host fuel meanwhile name def e)
    Keeps-on_success_ends def (some e) = Keeps-give_up
    Keeps-on_success_ends def none =
        Keeps-if def.remain_after_exit (λ _. Keeps-pure _)
          (λ _. and_then Keeps-nap λ _. and_then Keeps-start_again λ err. Keeps-or_stop_deps err)

    Keeps-otherwise_ends :
        (def : Definition) (e : Option Fault)
        → Keeps (IsGood rank mask) (otherwise_ends host fuel meanwhile name def e)
    Keeps-otherwise_ends def (some e) = Keeps-give_up
    Keeps-otherwise_ends def none =
        Keeps-if def.remain_after_exit (λ _. Keeps-pure _) (λ _. Keeps-give_up)

    Keeps-restart_by :
        (p : Policy) (ans : List Launch)
        → Keeps (IsGood rank mask) (restart_by host fuel meanwhile name p ans)
    unfolding restart_by
    Keeps-restart_by always ans = and_then Keeps-nap λ _.
        and_then (Keeps-set _ _ (λ d. refl) (λ d. refl)) λ _. Keeps-read λ d fits.
          and_then (Keeps-if (is_stopped d.state) (λ _. Keeps-return _) (λ _. Keeps-pure _))
            λ _. and_then Keeps-start_again λ _. Keeps-pure _
    Keeps-restart_by on_failure ans = and_then (Keeps-set _ _ (λ d. refl) (λ d. refl)) λ _.
        Keeps-read λ d fits.
          and_then (Keeps-some_defined d.def) λ def. Keeps-on_failure_ends def d.state_error
    Keeps-restart_by on_success ans = and_then (Keeps-set _ _ (λ d. refl) (λ d. refl)) λ _.
        Keeps-read λ d fits.
          and_then (Keeps-some_defined d.def) λ def. Keeps-on_success_ends def d.state_error
    Keeps-restart_by otherwise ans =
        and_then
          (Keeps-if (any_wrong ans) (λ _. Keeps-set _ _ (λ d. refl) (λ d. refl))
            (λ _. Keeps-pure _))
          λ _. Keeps-read λ d fits.
            and_then (Keeps-some_defined d.def) λ def. Keeps-otherwise_ends def d.state_error

    Keeps-after_exit :
        (ans : List Launch) → Keeps (IsGood rank mask) (after_exit host fuel meanwhile name ans)
    unfolding after_exit
    Keeps-after_exit ans = Keeps-call (
        Keeps-read λ d fits. and_then (Keeps-some_defined d.def) λ def.
          and_then
            (Keeps-if
              (has_prefix (if any_wrong ans then def.failure_action else def.success_action)
                (codes "poweroff"))
              (λ _. and_then (Keeps-emit _ tt) λ _. Keeps-return _) (λ _. Keeps-pure _))
            λ _.
              and_then
                (Keeps-if (was_ended d.state) (λ _. Keeps-pure _)
                  (λ _. Keeps-upheld (policy_of def.restart) _))
                λ restart.
                  and_then (Keeps-modify _ _ (Fits-with_sleep name))
                    λ _. and_then (Keeps-restart_by restart ans) λ _. Keeps-pure _)

-- However a service's processes ended, the rest of `monitorCmds` ends, also where it starts the service
-- again, as the service calls services of lower rank only. It leaves a system of the same kind, with
-- the same services masked and no command of the `ExecStart` of a masked service run, if the other
-- goroutines do so too while this one sleeps.
pub after_exit-IsGood :
    (rank : Bytes → ℕ) (mask : Bytes → Bool) (host : Host) (fuel : ℕ) (meanwhile : M (Unit {0}))
    (name : Bytes) (ans : List Launch) (s : System)
    → rank name < fuel
    → Keeps (IsGood rank mask) meanwhile
    → IsGood rank mask s
    → Holds (IsGood rank mask) (after_exit host fuel meanwhile name ans s)
after_exit-IsGood rank mask host fuel meanwhile name ans s below others good =
    (Keeps-after_exit host fuel meanwhile name below others ans).at s good
