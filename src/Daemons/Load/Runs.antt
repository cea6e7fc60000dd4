-- ===== src/Daemons/Load/Runs.antt =====
-- systemd/daemons/daemons.go, `Reload`: what a change of the list leaves of the run of a service.
use docker_systemd.Base.{
  ◌≡◌, ◌≢◌, inl, inr, refl, sym, ap, ◌∙◌, subst, arith, Bool, true, false, Bool-cases, List, [],
  ◌∷◌, Bytes, Option, none, some, if◌then◌else◌,
}
use mathlib.Core.Option
use docker_systemd.Text.{equal}
use docker_systemd.Text.Laws.{equal_iff}
use docker_systemd.Definition.{Definition}
use docker_systemd.Daemon.State.{
  DaemonState, running, stopped, starting, stopping, restarting, Daemon, find, update,
}
use docker_systemd.Daemon.Keeps.{find-update}
use docker_systemd.Daemons.Load.{set_aside, set_aside_all, store_daemon, is_gone, clean_up}

-- The run of a service: its state, its last error and its processes.
abbrev pub IsSame : Daemon → Daemon → Type 0
IsSame d e =
    (d.state ≡ e.state)
    × (d.state_error ≡ e.state_error)
    × (d.cmds ≡ e.cmds)
    × (d.pids ≡ e.pids)
    × (d.is_manual ≡ e.is_manual)

pub find-store_daemon :
    (n fn : Bytes) (d : Daemon) (list : List (Bytes × Daemon))
    → find n (store_daemon fn d list) ≡ (if equal fn n then some d else find n list)
unfolding store_daemon
find-store_daemon n fn d [] = refl
find-store_daemon n fn d ((m, e) ∷ list) =
    ground (arith, equal_iff m fn, equal_iff m n, equal_iff fn n, find-store_daemon n fn d list)

active-is_gone :
    (o : Option Definition) (state : DaemonState) → state ≢ stopped → is_gone o state ≡ false
active-is_gone none running h = refl
active-is_gone none stopped h = absurd (h refl)
active-is_gone none starting h = refl
active-is_gone none stopping h = refl
active-is_gone none restarting h = refl
active-is_gone (some def) state h = refl

module _ (n : Bytes) (d : Daemon) where
  -- The service is in the list, with the run that it had.
  abbrev pub IsKept : List (Bytes × Daemon) → Type 0
  IsKept list = (e : Daemon) × (find n list ≡ some e) × IsSame d e

  pub IsKept-put :
      (fn : Bytes) (e : Daemon) (list list' : List (Bytes × Daemon))
      → find n list' ≡ (if equal fn n then some e else find n list)
      → (equal fn n ≡ true → IsSame d e)
      → IsKept list
      → IsKept list'
  IsKept-put fn e list list' put same (old, found, was) = elim (Bool-cases (equal fn n)) [
    | inl is ↦ (e, (rw is at put), same is)
    | inr other ↦ (old, (rw other at put) ∙ found, was)
  ]

  pub changed-found :
      (fn : Bytes) (e : Daemon) (list : List (Bytes × Daemon))
      → IsKept list
      → find n (update fn (λ _. e) list) ≡ (if equal fn n then some e else find n list)
  changed-found fn e list (old, found, was) = ground (arith, find-update n fn (λ _. e) list)

  pub IsKept-aside :
      (list : List (Bytes × Daemon)) → find n list ≡ some d → IsKept (set_aside_all list)
  unfolding set_aside_all
  IsKept-aside [] e = absurd (cc)
  IsKept-aside ((m, e) ∷ list) found = elim (Bool-cases (equal m n)) [
    | inl is ↦
        let same : e ≡ d = Option.some-injective _ _ (rw is at found) in
        (
          set_aside e,
          rw is refl,
          subst (λ x. IsSame x (set_aside e)) same (refl, refl, refl, refl, refl),
        )
    | inr other ↦
        let (e', found', same) = IsKept-aside list (rw other at found) in
        (e', rw other found', same)
  ]

  pub IsKept-clean_up :
      (list : List (Bytes × Daemon)) → d.state ≢ stopped → IsKept list → IsKept (clean_up list)
  unfolding clean_up
  IsKept-clean_up [] active (e, found, same) = absurd (cc)
  IsKept-clean_up ((m, h) ∷ list) active (e, found, same) = elim (Bool-cases (equal m n)) [
    | inl is ↦
        let here : h ≡ e = Option.some-injective _ _ (rw is at found) in
        let stays : is_gone h.def h.state ≡ false =
          active-is_gone h.def h.state (λ e'. active (same.0 ∙ sym (ap Daemon.state here) ∙ e')) in
        (
          record h { old_def = none },
          rw (stays, is) refl,
          subst (λ x. IsSame d (record x { old_def = none })) (sym here) same,
        )
    | inr other ↦
        let later = IsKept-clean_up list active (e, (rw other at found), same) in
        by_test m h other (is_gone h.def h.state) later
  ]
    where
      by_test :
          (m : Bytes) (h : Daemon)
          → equal m n ≡ false
          → (b : Bool) → IsKept (clean_up list)
          → IsKept (if b then clean_up list else (m, record h { old_def = none }) ∷ clean_up list)
      by_test m h other true later = later
      by_test m h other false (e, found, same) = (e, rw other found, same)
