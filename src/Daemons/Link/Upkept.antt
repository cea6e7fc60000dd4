-- ===== src/Daemons/Link/Upkept.antt =====
-- systemd/daemons/daemons.go, the loops of `Reload`: what their writes keep.
use docker_systemd.Base.{
  ◌≡◌, refl, ap, inl, inr, arith, Bool, List, Bytes, Option, some, if◌then◌else◌, Bool-cases,
}
use docker_systemd.Text.{equal}
use docker_systemd.Definition.{Relation, Definition}
use docker_systemd.Daemon.State.{Daemon, System, find, update}
use docker_systemd.Daemon.Flow.{modify}
use docker_systemd.Daemon.Keeps.{find-update}
use docker_systemd.Daemon.Start.Stages.{set_def}
use docker_systemd.Daemons.Link.{put_link, set_held, write}
use docker_systemd.Daemons.Link.Rules.{goes_on, Reaches}
use docker_systemd.Daemons.Link.Entries.{
  resolve, IsKnown, Kept, IsKnown-update, write-Kept, modify-Kept,
}

-- What the loops may do keeps `I`, which says which services are known.
pub record IsUpkept (known : Bytes → Bool) (I : System → Type 0) : Type 0 where
  pub knows : (s : System) → I s → IsKnown known s
  pub writes :
      (name : Bytes) (r : Relation) (key : Bytes)
      → Reaches I I (write name r key (resolve known key))
  pub flags : (name : Bytes) (held : Bool) → Reaches I I (modify name (set_held held))

-- The service `x` is there, with a definition.
abbrev pub IsDefined : Bytes → System → Type 0
IsDefined x s = (d : Daemon) × (def : Definition) × (find x s.list ≡ some d) × (d.def ≡ some def)

pub find-kept :
    (name : Bytes) (f : Daemon → Daemon) (x : Bytes) (list : List (Bytes × Daemon)) (d : Daemon)
    → find x list ≡ some d
    → find x (update name f list) ≡ some (if equal name x then f d else d)
find-kept name f x list d e = ground (arith, find-update x name f list)

IsDefined-update :
    (name : Bytes) (f : Daemon → Daemon) (x : Bytes) (s : System)
    → ((d : Daemon) (def : Definition)
        → d.def ≡ some def
        → (new : Definition) × ((f d).def ≡ some new))
    → IsDefined x s
    → IsDefined x (record s { list = update name f s.list })
IsDefined-update name f x s keeps (d, def, found, there) =
    let e = find-kept name f x s.list d found in
    elim (Bool-cases (equal name x)) [
      | inl same ↦ let (new, is) = keeps d def there in (f d, new, (rw same at e), is)
      | inr other ↦ (d, def, (rw other at e), there)
    ]

module _ (known : Bytes → Bool) where
  pub Known-IsUpkept : IsUpkept known (IsKnown known)
  unfolding write modify
  Known-IsUpkept = record {
    knows = λ s h. h;
    writes = λ name r key. record { at = λ s h. goes_on (IsKnown-update known name _ s h) };
    flags = λ name b. record { at = λ s h. goes_on (IsKnown-update known name _ s h) };
  }

  pub Kept-IsUpkept :
      (x : Bytes) (q : Relation) (n : Bytes) (Q : Option (Option Bytes) → Type 0)
      → Q (some (resolve known n))
      → IsUpkept known (Kept known x q n Q)
  Kept-IsUpkept x q n Q ok = record {
    knows = λ s h. h.0;
    writes = write-Kept known x q n Q ok;
    flags = λ name b. modify-Kept known x q n Q name (set_held b) (λ d. refl);
  }

  pub Defined-IsUpkept : (x : Bytes) → IsUpkept known (λ s. IsKnown known s × IsDefined x s)
  unfolding write modify
  Defined-IsUpkept x = record {
    knows = λ s h. h.0;
    writes = λ name r key. record {
      at = λ s h. goes_on (
        IsKnown-update known name _ s h.0,
        IsDefined-update name _ x s
            (λ d def e. (
              put_link r key (resolve known key) def,
              ap (set_def (put_link r key (resolve known key))) e,
            ))
            h.1,
      );
    };
    flags = λ name b. record {
      at = λ s h. goes_on (
        IsKnown-update known name _ s h.0,
        IsDefined-update name _ x s (λ d def e. (def, e)) h.1,
      );
    };
  }
