-- ===== src/Daemons/Link/Answers.antt =====
-- systemd/daemons/daemons.go, the loops of `Reload` on the whole system.
use docker_systemd.Base.{
  ◌≡◌, refl, sym, subst, inl, inr, arith, List, [], ◌∷◌, Bytes, All, Option, none, some, Bool-cases,
  Option-cases,
}
use docker_systemd.Text.{equal}
use docker_systemd.Text.Laws.{equal_iff}
use docker_systemd.Definition.{Relation, link, Definition}
use docker_systemd.Daemon.State.{Daemon, System, find}
use docker_systemd.Daemon.Flow.{Flow, next, returned, panicked, deadlocked, no_fuel, get, ◌>>=◌}
use docker_systemd.Daemons.Link.{Row, rows, as_target, link_name, link_services, link_all, names_of}
use docker_systemd.Daemons.Link.Table.{target_map, inverse_map, row_of, row_of-rows}
use docker_systemd.Daemons.Link.Rules.{Leads, goes_on, Reaches, Ends, ends}
use docker_systemd.Daemons.Link.Entries.{IsKnown, resolve, Kept}
use docker_systemd.Daemons.Link.Upkept.{IsDefined, IsUpkept, Defined-IsUpkept}
use docker_systemd.Daemons.Link.Linked.{IsService, link_services-Keeps}
use docker_systemd.Daemons.Link.Resolved.{OneOf, link_services-Reaches}
use docker_systemd.Daemons.Link.Ends.{
  IsEntry, To-IsUpkept, Back-IsUpkept, link_name-Entry, link_name-Entry_back, is_known,
  is_known-IsKnown, found-OneOf,
}
use docker_systemd.Daemons.Link.Total.{IsReady, link_services-Runs}

abbrev pub entry_of : Bytes → Relation → Option Definition → Option (Option Bytes)
entry_of n r none = none
entry_of n r (some def) = link n (def.deps r)

abbrev pub def_of : Option Daemon → Option Definition
def_of none = none
def_of (some d) = d.def

-- The entry of `n` in the map `r` of the service `x`.
abbrev pub entry : Bytes → Relation → Bytes → System → Option (Option Bytes)
entry x r n s = entry_of n r (def_of (find x s.list))

OneOf-found :
    (n : Bytes) (list : List (Bytes × Daemon))
    → OneOf n (names_of list)
    → (d : Daemon) × (find n list ≡ some d)
OneOf-found n [] h = elim h [ ]
OneOf-found n ((m, d) ∷ list) h = elim (Bool-cases (equal m n)) [
  | inl same ↦ (d, rw same refl)
  | inr other ↦ elim h [
    | inl here ↦ absurd (ground (arith, equal_iff m n))
    | inr later ↦ let (e, found) = OneOf-found n list later in (e, rw other found)
  ]
]

All-OneOf :
    {P : Bytes → Type 0} (names : List Bytes) → ((n : Bytes) → OneOf n names → P n) → All P names
All-OneOf [] h = tt
All-OneOf (n ∷ names) h = (h n (inl refl), All-OneOf names (λ m k. h m (inr k)))

module _ (s : System) where
  found-IsService : (n : Bytes) (d : Daemon) → find n s.list ≡ some d → IsService (is_known s) n
  found-IsService n d e = rw (e, is_known) refl

  pub services : All (IsService (is_known s)) (names_of s.list)
  services =
      All-OneOf (names_of s.list)
        λ n h. let (d, e) = OneOf-found n s.list h in found-IsService n d e

  resolve-find : (y : Bytes) → resolve (is_known s) y ≡ as_target y (find y s.list)
  resolve-find y = sym (is_known-IsKnown s y)

  settled :
      {I P Q : System → Type 0} (r : Flow (Unit {0}))
      → Ends I r
      → Leads P r
      → Leads Q r
      → (s' : System) × (r ≡ next tt s') × P s' × Q s'
  settled (next _ _) (ends a s' i) (goes_on p) (goes_on q) = (s', refl, p, q)
  settled (returned _ _) h p q = elim h [ ]
  settled panicked h p q = elim h [ ]
  settled deadlocked h p q = elim h [ ]
  settled no_fuel h p q = elim h [ ]

  -- An entry that a run leaves.
  link_all-entry :
      (z : Bytes) (q : Relation) (n : Bytes) (u : Option Bytes)
      → IsReady none s
      → IsDefined z s
      → Leads (Kept (is_known s) z q n (IsEntry u)) (link_services (names_of s.list) s)
      → (s' : System) × (link_all s ≡ next tt s') × (entry z q n s' ≡ some u)
  unfolding link_all get ◌>>=◌
  link_all-entry z q n u ready there h =
      let knows = is_known-IsKnown s in
      let run = (link_services-Runs (is_known s) (names_of s.list) services).at s (knows, ready) in
      let keeps =
        (link_services-Keeps (is_known s) (Defined-IsUpkept (is_known s) z) (names_of s.list)
            services).at
          s (knows, there) in
      let (s', is, kept, both) = settled (link_services (names_of s.list) s) run h keeps in
      let (d, def, found, defined) = both.1 in
      (s', is, rw (found, defined) (kept.1 d def found defined))

  entry-IsDefined :
      (x : Bytes) (r : Relation) (y : Bytes) (t : Option Bytes)
      → entry x r y s ≡ some t
      → IsDefined x s
  entry-IsDefined x r y t e = elim (Option-cases (find x s.list)) [
    | inl absent ↦ absurd (let e' = rw absent at e in cc)
    | inr (d, found) ↦ elim (Option-cases d.def) [
      | inl undefined ↦ absurd (let e' = rw (found, undefined) at e in cc)
      | inr (def, there) ↦ (d, def, found, there)
    ]
  ]

  module _ (x : Bytes) (r : Row) (y : Bytes) (t : Option Bytes) (ready : IsReady none s)
      (is_row : OneOf r rows) (e : entry x r.from y s ≡ some t) where
    run-Leads :
        {T : System → Type 0}
        → IsUpkept (is_known s) T
        → Reaches (IsKnown (is_known s)) T (link_name x r y)
        → Leads T (link_services (names_of s.list) s)
    run-Leads up visit =
        let (d, def, found, there) = entry-IsDefined x r.from y t e in
        let reach =
          link_services-Reaches (is_known s) x r y up (found-IsService x d found) visit is_row
            (names_of s.list) (found-OneOf x s.list d found) services in
        reach.at s (is_known-IsKnown s, λ d' def' found' there'. (t, rw (found', there') at e))

    x-IsService : IsService (is_known s) x
    x-IsService =
        let (d, def, found, there) = entry-IsDefined x r.from y t e in found-IsService x d found

    row-target :
        (s' : System) × (link_all s ≡ next tt s')
        × (entry x r.to y s' ≡ some (as_target y (find y s.list)))
    row-target =
        subst (λ u. (s' : System) × (link_all s ≡ next tt s') × (entry x r.to y s' ≡ some u))
          (resolve-find y)
          (link_all-entry x r.to y (resolve (is_known s) y) ready (entry-IsDefined x r.from y t e) (
            run-Leads (To-IsUpkept (is_known s) x r y x-IsService)
              (link_name-Entry (is_known s) x r y x-IsService)))

    row-inverse :
        IsDefined y s
        → (s' : System) × (link_all s ≡ next tt s') × (entry y r.inverse x s' ≡ some (some x))
    row-inverse (d, def, found, there) =
        link_all-entry y r.inverse x (some x) ready (d, def, found, there)
          (run-Leads (Back-IsUpkept (is_known s) x r y x-IsService)
            (link_name-Entry_back (is_known s) x r y x-IsService (found-IsService y d found)))

  module _ (x : Bytes) (q : Relation) (y : Bytes) (t : Option Bytes) (ready : IsReady none s)
      (e : entry x q y s ≡ some t) where
    -- Where every service has a definition, none is locked, and none stands in a map of its own,
    -- the loops end. Let a service `x` have an entry for a name `y` in any of its 18 maps. The same
    -- map of `x` then has for `y` the service of that name, or nil if there is none; only for a
    -- name in Requisite it is the map Requires that gets this entry.
    pub link_all-target :
        (s' : System) × (link_all s ≡ next tt s')
        × (entry x (target_map q) y s' ≡ some (as_target y (find y s.list)))
    link_all-target = row-target x (row_of q) y t ready (row_of-rows q) e

    -- Under the same conditions, with an entry for `y` in any map of `x`, and a service `y` that has
    -- a definition, the loops end and `y` has an entry for `x`, with the service `x`, in the map of
    -- the converse: Requires and RequiredBy, Wants and WantedBy, Requisite and RequisiteOf, BindsTo
    -- and BoundBy, PartOf and ConsistsOf, Upholds and UpheldBy, Conflicts and ConflictedBy, Before
    -- and After; and OnFailure and OnSuccess, which the code takes for the converse of each other.
    pub link_all-inverse :
        IsDefined y s
        → (s' : System) × (link_all s ≡ next tt s') × (entry y (inverse_map q) x s' ≡ some (some x))
    link_all-inverse there = row-inverse x (row_of q) y t ready (row_of-rows q) e there
