-- ===== src/Daemons/Load/Links.antt =====
-- systemd/daemons/daemons.go, `Reload` as a whole: what it keeps of a service.
use docker_systemd.Base.{◌≡◌, ◌≢◌, inl, inr, Bool, Bytes, List, some, Bool-cases}
use docker_systemd.Text.{equal}
use docker_systemd.Daemon.State.{stopped, Daemon, System, find, update}
use docker_systemd.Daemon.Flow.{modify, statements}
use docker_systemd.Daemons.Link.{write, names_of, link_services, link_all}
use docker_systemd.Daemons.Link.Rules.{Leads, goes_on, Leads-weaken}
use docker_systemd.Daemons.Link.Entries.{IsKnown, IsKnown-update}
use docker_systemd.Daemons.Link.Upkept.{IsUpkept, find-kept}
use docker_systemd.Daemons.Link.Linked.{link_services-Keeps}
use docker_systemd.Daemons.Link.Ends.{is_known, is_known-IsKnown}
use docker_systemd.Daemons.Link.Answers.{services}
use docker_systemd.Daemons.Load.{Source, load, reload_daemons}
use docker_systemd.Daemons.Load.Runs.{IsSame, IsKept}
use docker_systemd.Daemons.Load.Keeps.{load-IsKept}

module _ (n : Bytes) (d : Daemon) where
  IsKept-update :
      (name : Bytes) (f : Daemon → Daemon) (list : List (Bytes × Daemon))
      → ((e : Daemon) → IsSame d e → IsSame d (f e))
      → IsKept n d list
      → IsKept n d (update name f list)
  IsKept-update name f list same (e, found, was) =
      let is = find-kept name f n list e found in
      elim (Bool-cases (equal name n)) [
        | inl here ↦ (f e, (rw here at is), same e was)
        | inr other ↦ (e, (rw other at is), was)
      ]

  Kept-IsUpkept : (known : Bytes → Bool) → IsUpkept known (λ s. IsKnown known s × IsKept n d s.list)
  unfolding write modify
  Kept-IsUpkept known = record {
    knows = λ s h. h.0;
    writes = λ name r key. record {
      at = λ s h.
          goes_on (IsKnown-update known name _ s h.0, IsKept-update name _ s.list (λ e k. k) h.1);
    };
    flags = λ name b. record {
      at = λ s h.
          goes_on (IsKnown-update known name _ s h.0, IsKept-update name _ s.list (λ e k. k) h.1);
    };
  }

  link_all-IsKept : (s : System) → IsKept n d s.list → Leads (λ t. IsKept n d t.list) (link_all s)
  unfolding link_all statements
  link_all-IsKept s kept =
      Leads-weaken (link_services (names_of s.list) s)
        ((link_services-Keeps (is_known s) (Kept-IsUpkept (is_known s)) (names_of s.list)
            (services s)).at
          s (is_known-IsKnown s, kept))
        (λ t h. h.1)

  -- Reload ends, unless it dereferences nil or locks a mutex that its goroutine holds. Behind it every
  -- service that was not stopped is in the list, with its state, its last error and its processes,
  -- whatever has become of the files.
  pub reload_daemons-IsKept :
      (src : Source) (s : System)
      → find n s.list ≡ some d
      → d.state ≢ stopped
      → Leads (λ t. IsKept n d t.list) (reload_daemons src s)
  unfolding reload_daemons statements
  reload_daemons-IsKept src s found active =
      link_all-IsKept (record s { list = load src s.list })
        (load-IsKept src n d s.list found active)
