-- ===== src/Daemon/Stop/Frame.antt =====
-- systemd/daemons/daemon.go, `stop`: the rest of the system, before and behind it.
use docker_systemd.Base.{
  ◌≡◌, refl, sym, subst, ap, ◌∙◌, Bool, true, false, List, [], ◌∷◌, ◌++◌, Bytes, All, Option, none,
  some,
}
use mathlib.Core.Option
use docker_systemd.Text.{equal}
use docker_systemd.Text.Laws.{equal_self}
use docker_systemd.Daemon.State.{Daemon, Event, System, find}
use docker_systemd.Daemon.Flow.{modify, emit, tick, sleep}
use docker_systemd.Daemon.Host.{Host}
use docker_systemd.Daemon.Keeps.{find-update, Keeps, Holds, went_on}
use docker_systemd.Daemon.Stop.{stop}
use docker_systemd.Daemon.Stop.Acts.{
  IsAmong, IsStopAct, runs_line, terminates_own, kills_own, Stoppable,
}
use docker_systemd.Daemon.Stop.Keeps.{stop-Keeps}

-- The service as it was, but for its state and its error.
abbrev pub SameUnit : Option Daemon → Option Daemon → Type 0
SameUnit (some d) (some e) = (e.masked ≡ d.masked) × (e.def ≡ d.def) × (e.cmds ≡ d.cmds)
SameUnit none none = Unit
SameUnit _ _ = true ≡ false

-- What `stop` of a service may do, by the service in the list.
abbrev pub IsOwnAct : Bytes → Option Daemon → Event → Type 0
IsOwnAct name none e = true ≡ false
IsOwnAct name (some d) e = IsStopAct name d e

-- From `s` to `t` the service `name` kept its mask, its definition and its processes, the others kept
-- all, and what was done was to run its own commands for the stop and to signal its own processes.
pub record OnlyOwn (name : Bytes) (s t : System) : Type 0 where
  pub others : (m : Bytes) → equal name m ≡ false → find m t.list ≡ find m s.list
  pub own : SameUnit (find name s.list) (find name t.list)
  pub acts :
      (more : List Event) × (t.trace ≡ more ++ s.trace)
      × All (IsOwnAct name (find name s.list)) more
  pub shutdown : t.shutdown ≡ s.shutdown

SameUnit-refl : (o : Option Daemon) → SameUnit o o
SameUnit-refl none = tt
SameUnit-refl (some d) = (refl, refl, refl)

SameUnit-map :
    (f : Daemon → Daemon) (o p : Option Daemon)
    → ((d : Daemon) → (f d).masked ≡ d.masked)
    → ((d : Daemon) → (f d).def ≡ d.def)
    → ((d : Daemon) → (f d).cmds ≡ d.cmds)
    → SameUnit o p
    → SameUnit o (Option.map f p)
SameUnit-map f none none m e c h = tt
SameUnit-map f none (some p) m e c h = h
SameUnit-map f (some d) none m e c h = h
SameUnit-map f (some d) (some p) m e c h = (m p ∙ h.0, e p ∙ h.1, c p ∙ h.2)

-- What it may do is the same as it is for the service later.
IsOwnAct-later :
    (name : Bytes) (o : Option Daemon) (d : Daemon) (e : Event)
    → SameUnit o (some d)
    → IsStopAct name d e
    → IsOwnAct name o e
IsOwnAct-later name none d e h act = absurd (cc)
IsOwnAct-later name (some old) d _ h (runs_line there is) = runs_line (sym h.1 ∙ there) is
IsOwnAct-later name (some old) d _ h (terminates_own {pid} is) =
    terminates_own (subst (λ cmds. IsAmong (some pid) cmds) h.2 is)
IsOwnAct-later name (some old) d _ h (kills_own {pid} is) =
    kills_own (subst (λ cmds. IsAmong (some pid) cmds) h.2 is)

OnlyOwn-refl : (name : Bytes) (s : System) → OnlyOwn name s s
OnlyOwn-refl name s = record {
  others = λ m h. refl;
  own = SameUnit-refl (find name s.list);
  acts = ([], refl, tt);
  shutdown = refl;
}

module _ (name : Bytes) (s : System) where
  OnlyOwn-modify :
      (f : Daemon → Daemon)
      → ((d : Daemon) → (f d).masked ≡ d.masked)
      → ((d : Daemon) → (f d).def ≡ d.def)
      → ((d : Daemon) → (f d).cmds ≡ d.cmds)
      → Keeps (OnlyOwn name s) (modify name f)
  unfolding modify
  OnlyOwn-modify f m e c = record {
    at = λ t h. went_on (record {
      others = λ k other. rw (find-update k name f t.list, other) (h.others k other);
      own =
          rw (find-update name name f t.list, equal_self name)
            (SameUnit-map f (find name s.list) (find name t.list) m e c h.own);
      acts = h.acts;
      shutdown = h.shutdown;
    });
  }

  OnlyOwn-emit :
      (d : Daemon) (e : Event)
      → SameUnit (find name s.list) (some d)
      → IsStopAct name d e
      → Keeps (OnlyOwn name s) (emit e)
  unfolding emit
  OnlyOwn-emit d e seen act = record {
    at = λ t h. went_on (record {
      others = h.others;
      own = h.own;
      acts = (
        e ∷ h.acts.0,
        ap (◌∷◌ e) h.acts.1,
        (IsOwnAct-later name (find name s.list) d e seen act, h.acts.2),
      );
      shutdown = h.shutdown;
    });
  }

  OnlyOwn-Stoppable : Stoppable (OnlyOwn name s) name (λ d. SameUnit (find name s.list) (some d))
  unfolding tick sleep
  OnlyOwn-Stoppable = record {
    sees = λ t d h e. subst (λ o. SameUnit (find name s.list) o) e h.own;
    changes = OnlyOwn-modify;
    acts = OnlyOwn-emit;
    ticks = record {
      at = λ t h.
          went_on (record { others = h.others; own = h.own; acts = h.acts; shutdown = h.shutdown });
    };
    sleeps = λ n. record {
      at = λ t h.
          went_on (record { others = h.others; own = h.own; acts = h.acts; shutdown = h.shutdown });
    };
  }

-- On any host and from any system, `stop` of a service ends, unless it dereferences nil or locks a
-- mutex that its goroutine holds. Then the other services are as they were, the service has the same
-- mask, definition and processes, and the shutdown flag is the same. Each command that was run stands
-- in ExecStopPre, ExecStop or ExecStopPost of its definition, each signal was a SIGTERM or SIGKILL to
-- one of the processes of its commands, and nothing else was done: no service was started.
pub stop-OnlyOwn :
    (host : Host) (name : Bytes) (print_stopping : Bool) (s : System)
    → Holds (OnlyOwn name s) (stop host name print_stopping s)
stop-OnlyOwn host name print_stopping s =
    (stop-Keeps host name (OnlyOwn-Stoppable name s) print_stopping).at s (OnlyOwn-refl name s)
