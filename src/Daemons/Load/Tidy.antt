-- ===== src/Daemons/Load/Tidy.antt =====
-- systemd/daemons/daemons.go, the end of the loading of `Reload`.
use docker_systemd.Base.{
  ◌≡◌, ◌≢◌, inl, inr, refl, subst, Bool, true, false, Bool-cases, List, [], ◌∷◌, Bytes, Option,
  none, some, if◌then◌else◌,
}
use mathlib.Core.Option
use docker_systemd.Text.{equal}
use docker_systemd.Definition.{Definition}
use docker_systemd.Daemon.State.{DaemonState, stopped, Daemon, find}
use docker_systemd.Daemons.Load.{Source, is_gone, clean_up, load}

clean_up-tidy :
    (n : Bytes) (e : Daemon) (list : List (Bytes × Daemon))
    → find n (clean_up list) ≡ some e
    → (is_gone e.def e.state ≡ false) × (e.old_def ≡ none)
unfolding clean_up
clean_up-tidy n e [] found = absurd (cc)
clean_up-tidy n e ((m, h) ∷ list) found =
    by_test (clean_up-tidy n e list) (is_gone h.def h.state) refl found
  where
    by_test :
        (find n (clean_up list) ≡ some e → (is_gone e.def e.state ≡ false) × (e.old_def ≡ none))
        → (b : Bool) → is_gone h.def h.state ≡ b
        → find n (if b then clean_up list else (m, record h { old_def = none }) ∷ clean_up list)
          ≡ some e
        → (is_gone e.def e.state ≡ false) × (e.old_def ≡ none)
    by_test later true is found = later found
    by_test later false is found = elim (Bool-cases (equal m n)) [
      | inl same ↦
          let here : record h { old_def = none } ≡ e =
            Option.some-injective _ _ (rw same at found) in
          subst (λ x. (is_gone x.def x.state ≡ false) × (x.old_def ≡ none)) here (is, refl)
      | inr other ↦ later (rw other at found)
    ]

-- A service without a definition that is stopped is one that `clean_up` takes away.
is_gone-stopped :
    (def : Option Definition) (state : DaemonState)
    → is_gone def state ≡ false
    → def ≡ none
    → state ≢ stopped
is_gone-stopped def state kept undefined now = absurd (let k = rw (undefined, now) at kept in cc)

-- Behind the loading of Reload, a service that is in the list and is stopped has a definition, and
-- no service has an old definition left.
pub load-tidy :
    (src : Source) (list : List (Bytes × Daemon)) (n : Bytes) (e : Daemon)
    → find n (load src list) ≡ some e
    → (e.def ≡ none → e.state ≢ stopped) × (e.old_def ≡ none)
unfolding load
load-tidy src list n e found =
    let (kept, no_old) = clean_up-tidy n e _ found in (is_gone-stopped e.def e.state kept, no_old)
