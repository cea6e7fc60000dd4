-- ===== src/Daemons/Link/Entries.antt =====
-- systemd/daemons/daemons.go, the loops of `Reload`: what they do to one entry of one dependency map.
use docker_systemd.Base.{
  ◌≡◌, refl, sym, ap, ◌∙◌, subst, inl, inr, arith, Bool, true, false, ◌&&◌, List, [], ◌∷◌, Bytes,
  Option, none, some, if◌then◌else◌, Bool-cases, Option-cases,
}
use mathlib.Core.Option
use docker_systemd.Text.{equal}
use docker_systemd.Text.Laws.{equal_iff, equal_self}
use docker_systemd.Definition.{Relation, same_relation, Links, set_link, link, Definition}
use docker_systemd.Definition.Relations.{same_relation_eq, same_relation_self}
use docker_systemd.Daemon.State.{Daemon, System, find, update}
use docker_systemd.Daemon.Flow.{modify}
use docker_systemd.Daemon.Keeps.{find-update}
use docker_systemd.Daemon.Start.Stages.{set_def}
use docker_systemd.Daemons.Link.{put_link, write, as_target}
use docker_systemd.Daemons.Link.Rules.{goes_on, Reaches}

pub link-set_link :
    (n key : Bytes) (t : Option Bytes) (links : Links)
    → link n (set_link key t links) ≡ (if equal key n then some t else link n links)
unfolding link set_link
link-set_link n key t [] = refl
link-set_link n key t ((k, u) ∷ links) =
    ground (arith, equal_iff k key, equal_iff k n, equal_iff key n, link-set_link n key t links)

pub deps-put_link :
    (r q : Relation) (n key : Bytes) (t : Option Bytes) (def : Definition)
    → link n ((put_link r key t def).deps q)
      ≡ (if same_relation r q && equal key n then some t else link n (def.deps q))
deps-put_link r q n key t def = elim (Bool-cases (same_relation r q)) [
  | inl same ↦
      let e : r ≡ q = same_relation_eq r q same in
      rw same (
        subst
          (λ x.
            link n (set_link key t (def.deps r))
            ≡ (if equal key n then some t else link n (def.deps x)))
          e (link-set_link n key t (def.deps r)))
  | inr other ↦ rw other refl
]

-- A service that is there behind a write was there before, with a definition that the write changed.
pub set_def-some :
    (f : Definition → Definition) (o : Option Definition) (def : Definition)
    → set_def f o ≡ some def
    → (old : Definition) × (o ≡ some old) × (f old ≡ def)
set_def-some f none def e = cc
set_def-some f (some old) def e = (old, refl, Option.some-injective _ _ e)

module _ (known : Bytes → Bool) where
  -- What a pointer to the service `n` is.
  abbrev pub resolve : Bytes → Option Bytes
  resolve n = if known n then some n else none

  -- The services of the system are those that are known.
  abbrev pub IsKnown : System → Type 0
  IsKnown s = (n : Bytes) → as_target n (find n s.list) ≡ resolve n

  -- The entry of `n` in the map `r` of the service `x`.
  abbrev pub Entry : Bytes → Relation → Bytes → (Option (Option Bytes) → Type 0) → System → Type 0
  Entry x r n Q s =
      (d : Daemon) (def : Definition)
      → find x s.list ≡ some d
      → d.def ≡ some def
      → Q (link n (def.deps r))

  abbrev pub Kept : Bytes → Relation → Bytes → (Option (Option Bytes) → Type 0) → System → Type 0
  Kept x r n Q s = IsKnown s × Entry x r n Q s

-- A service behind a change of another or of itself.
pub find-changed :
    (name : Bytes) (f : Daemon → Daemon) (x : Bytes) (list : List (Bytes × Daemon)) (d : Daemon)
    → find x (update name f list) ≡ some d
    → (old : Daemon) × (find x list ≡ some old) × (d ≡ (if equal name x then f old else old))
find-changed name f x list d e = elim (Option-cases (find x list)) [
  | inl absent ↦ absurd (ground (arith, find-update x name f list))
  | inr (old, found) ↦ (old, found, ground (arith, find-update x name f list))
]

as_target-update :
    (n name : Bytes) (f : Daemon → Daemon) (list : List (Bytes × Daemon))
    → as_target n (find n (update name f list)) ≡ as_target n (find n list)
as_target-update n name f list = ground (arith, find-update n name f list)

-- `write` on a service `x` with a definition: the entry is the one that was, or the one written.
pub written-entry :
    (name x : Bytes) (r q : Relation) (key n : Bytes) (t : Option Bytes)
    (list : List (Bytes × Daemon)) (d : Daemon) (def : Definition)
    → find x (update name (λ d. record d { def = set_def (put_link r key t) d.def }) list) ≡ some d
    → d.def ≡ some def
    → (old : Daemon) × (was : Definition) × (find x list ≡ some old)
      × (old.def ≡ some was)
      × (link n (def.deps q) ≡ (
          if (equal name x && same_relation r q) && equal key n
          then some t
          else link n (was.deps q)))
written-entry name x r q key n t list d def e p =
    let f : Daemon → Daemon = λ d. record d { def = set_def (put_link r key t) d.def } in
    let (old, found, is_d) = find-changed name f x list d e in
    elim (Bool-cases (equal name x)) [
      | inl same ↦
          let is_new : d ≡ f old = rw same at is_d in
          let (was, there, put) =
            set_def-some (put_link r key t) old.def def (sym (ap Daemon.def is_new) ∙ p) in
          (
            old,
            was,
            found,
            there,
            rw same (
                ap (λ (z : Definition). link n (z.deps q)) (sym put)
                ∙ deps-put_link r q n key t was),
          )
      | inr other ↦
          let is_old : d ≡ old = rw other at is_d in
          (old, def, found, sym (ap Daemon.def is_old) ∙ p, rw other refl)
    ]

chosen :
    (known : Bytes → Bool) (Q : Option (Option Bytes) → Type 0) (b : Bool) (key n : Bytes)
    (t : Option (Option Bytes))
    → Q (some (resolve known n))
    → Q t
    → Q (if b && equal key n then some (resolve known key) else t)
chosen known Q false key n t new old = old
chosen known Q true key n t new old = elim (Bool-cases (equal key n)) [
  | inl same ↦
      rw same (subst (λ k. Q (some (resolve known k))) (sym ((equal_iff key n).0 same)) new)
  | inr other ↦ rw other old
]

module _ (known : Bytes → Bool) where
  pub IsKnown-update :
      (name : Bytes) (f : Daemon → Daemon) (s : System)
      → IsKnown known s
      → IsKnown known (record s { list = update name f s.list })
  IsKnown-update name f s h n = as_target-update n name f s.list ∙ h n

  -- What changes no definition keeps every entry.
  pub modify-Kept :
      (x : Bytes) (q : Relation) (n : Bytes) (Q : Option (Option Bytes) → Type 0) (name : Bytes)
      (f : Daemon → Daemon)
      → ((d : Daemon) → (f d).def ≡ d.def)
      → Reaches (Kept known x q n Q) (Kept known x q n Q) (modify name f)
  unfolding modify
  modify-Kept x q n Q name f same = record {
    at = λ s h. goes_on (
      IsKnown-update name f s h.0,
      λ d def e p.
          let (old, found, is_d) = find-changed name f x s.list d e in
          h.1 old def found (sym (kept (equal name x) old d is_d) ∙ p),
    );
  }
    where
      kept : (b : Bool) (old d : Daemon) → d ≡ (if b then f old else old) → d.def ≡ old.def
      kept true old d e = ap Daemon.def e ∙ same old
      kept false old d e = ap Daemon.def e

  module _ (x : Bytes) (q : Relation) (n : Bytes) (Q : Option (Option Bytes) → Type 0)
      (ok : Q (some (resolve known n))) where
    -- Any write that resolves its name keeps the entry as it was or resolves it.
    pub write-Kept :
        (name : Bytes) (r : Relation) (key : Bytes)
        → Reaches (Kept known x q n Q) (Kept known x q n Q) (write name r key (resolve known key))
    unfolding write modify
    write-Kept name r key = record {
      at = λ s h. goes_on (
        IsKnown-update name _ s h.0,
        λ d def e p.
            let (old, was, found, there, same) =
              written-entry name x r q key n (resolve known key) s.list d def e p in
            rw same (
              chosen known Q (equal name x && same_relation r q) key n (link n (was.deps q)) ok
                (h.1 old was found there)),
      );
    }

    -- The write of the entry itself.
    pub write-Entry : Reaches (IsKnown known) (Kept known x q n Q) (write x q n (resolve known n))
    unfolding write modify
    write-Entry = record {
      at = λ s h. goes_on (
        IsKnown-update x _ s h,
        λ d def e p.
            let (old, was, found, there, same) =
              written-entry x x q q n n (resolve known n) s.list d def e p in
            rw same (rw (equal_self x, same_relation_self q, equal_self n) ok),
      );
    }
