-- ===== src/Daemons/Link/Total.antt =====
-- systemd/daemons/daemons.go, the loops of `Reload`: when they come to their end.
use docker_systemd.Base.{
  ◌≡◌, refl, sym, ap, ◌∙◌, subst, inl, inr, arith, Bool, true, false, ◌&&◌, List, [], ◌∷◌, Bytes,
  All, Option, none, some, if◌then◌else◌, Bool-cases,
}
use mathlib.Core.Option
use docker_systemd.Text.{equal}
use docker_systemd.Text.Laws.{equal_iff, equal_self}
use docker_systemd.Definition.{Relation, same_relation, Links, link, Definition}
use docker_systemd.Daemon.State.{Daemon, System, find, update}
use docker_systemd.Daemon.Flow.{M, modify}
use docker_systemd.Daemon.Start.Stages.{set_def}
use docker_systemd.Daemons.Link.{
  Row, rows, put_link, write, as_target, link_back, link_name, link_names, link_row, link_rows,
  set_held, link_service, link_services,
}
use docker_systemd.Daemons.Link.Rules.{
  ends, Runs, run_then, run_pure, run_get, run_read, run_defined, run_lock,
}
use docker_systemd.Daemons.Link.Entries.{
  resolve, IsKnown, IsKnown-update, find-changed, deps-put_link,
}
use docker_systemd.Daemons.Link.Linked.{IsService}

-- A definition is there, and none of its maps has the service `n` itself.
abbrev pub IsSound : Bytes → Option Definition → Type 0
IsSound n o = (def : Definition) × (o ≡ some def) × ((q : Relation) → link n (def.deps q) ≡ none)

-- The service whose mutex is locked, if any.
abbrev pub holds : Option Bytes → Bytes → Bool
holds none n = false
holds (some x) n = equal x n

abbrev pub IsReady : Option Bytes → System → Type 0
IsReady o s =
    (n : Bytes) (d : Daemon) → find n s.list ≡ some d → (d.held ≡ holds o n) × IsSound n d.def

IsSound-put_link :
    (n key : Bytes) (r : Relation) (t : Option Bytes) (o : Option Definition)
    → equal key n ≡ false
    → IsSound n o
    → IsSound n (set_def (put_link r key t) o)
IsSound-put_link n key r t o other (def, there, none_is) = (
  put_link r key t def,
  ap (set_def (put_link r key t)) there,
  λ q. deps-put_link r q n key t def ∙ unchanged q (same_relation r q),
)
  where
    unchanged :
        (q : Relation) (b : Bool)
        → (if b && equal key n then some t else link n (def.deps q)) ≡ none
    unchanged q true = rw other (none_is q)
    unchanged q false = none_is q

-- A change of one service that leaves it ready.
IsReady-update :
    (o o' : Option Bytes) (name : Bytes) (f : Daemon → Daemon) (s : System)
    → ((n : Bytes) → equal name n ≡ false → holds o n ≡ holds o' n)
    → ((d : Daemon)
        → (d.held ≡ holds o name) × IsSound name d.def
        → ((f d).held ≡ holds o' name) × IsSound name (f d).def)
    → IsReady o s
    → IsReady o' (record s { list = update name f s.list })
IsReady-update o o' name f s others me ready n d e =
    let (old, found, is) = find-changed name f n s.list d e in
    elim (Bool-cases (equal name n)) [
      | inl same ↦
          let is_n : name ≡ n = (equal_iff name n).0 same in
          let new : d ≡ f old = rw same at is in
          subst (λ z. (d.held ≡ holds o' z) × IsSound z d.def) is_n
            (subst (λ z. (z.held ≡ holds o' name) × IsSound name z.def) (sym new)
              (me old (ready name old (subst (λ z. find z s.list ≡ some old) (sym is_n) found))))
      | inr other ↦
          let new : d ≡ old = rw other at is in
          let was = ready n old found in
          subst (λ z. (z.held ≡ holds o' n) × IsSound n z.def) (sym new)
            (was.0 ∙ others n other, was.1)
    ]

equal-flip : (a b : Bytes) → equal a b ≡ false → equal b a ≡ false
equal-flip a b e = ground (arith, equal_iff a b, equal_iff b a)

known-resolve : (known : Bytes → Bool) (n : Bytes) → some n ≡ resolve known n → IsService known n
known-resolve known n e = elim (Bool-cases (known n)) [
  | inl is ↦ is
  | inr other ↦ absurd (let e' = rw other at e in cc)
]

module _ (known : Bytes → Bool) where
  abbrev pub Ready : Option Bytes → System → Type 0
  Ready o s = IsKnown known s × IsReady o s

  there_is :
      (n : Bytes) (s : System)
      → IsService known n
      → IsKnown known s
      → (d : Daemon) × (find n s.list ≡ some d)
  there_is n s service knows = there (find n s.list) (knows n ∙ (rw service refl))
    where
      there : (o : Option Daemon) → as_target n o ≡ some n → (d : Daemon) × (o ≡ some d)
      there none e = absurd (cc)
      there (some d) e = (d, refl)

  write-Runs :
      (o : Option Bytes) (name : Bytes) (r : Relation) (key : Bytes) (t : Option Bytes)
      → equal key name ≡ false
      → Runs (Ready o) (Ready o) (write name r key t)
  unfolding write modify
  write-Runs o name r key t other = record {
    at = λ s h. ends _ _ (
      IsKnown-update known name _ s h.0,
      IsReady-update o o name _ s (λ n e. refl)
          (λ d sound. (sound.0, IsSound-put_link name key r t d.def other sound.1)) h.1,
    );
  }

  flag-Runs :
      (o o' : Option Bytes) (name : Bytes) (b : Bool)
      → ((n : Bytes) → equal name n ≡ false → holds o n ≡ holds o' n)
      → b ≡ holds o' name
      → Runs (Ready o) (Ready o') (modify name (set_held b))
  unfolding modify
  flag-Runs o o' name b others me = record {
    at = λ s h. ends _ _ (
      IsKnown-update known name _ s h.0,
      IsReady-update o o' name _ s others (λ d sound. (me, sound.1)) h.1,
    );
  }

  free :
      (o : Option Bytes) (n : Bytes) (s : System)
      → IsService known n
      → holds o n ≡ false
      → Ready o s
      → (d : Daemon) × (find n s.list ≡ some d) × (d.held ≡ false)
  free o n s service unheld h =
      let (d, e) = there_is n s service h.0 in (d, e, (h.1 n d e).0 ∙ unheld)

  def-IsSound :
      (o : Option Bytes) (n : Bytes) (d : Daemon) (s : System)
      → Ready o s × (find n s.list ≡ some d)
      → IsSound n d.def
  def-IsSound o n d s h = (h.0.1 n d h.1).1

  module _ (x : Bytes) (service : IsService known x) where
    -- With the mutex of `x` locked.
    abbrev Locked : {A : Type 0} → M A → Type 0
    Locked m = Runs (Ready (some x)) (Ready (some x)) m

    link_back-Runs :
        (inverse : Relation) (dep : Bytes) (found : Option Daemon)
        → equal dep x ≡ false
        → equal x dep ≡ false
        → as_target dep found ≡ resolve known dep
        → Locked (link_back x inverse dep found)
    link_back-Runs inverse dep none other other' e = run_pure _ λ s h. h
    link_back-Runs inverse dep (some _) other other' e =
        run_lock dep (λ s h. free (some x) dep s (known-resolve known dep e) other' h)
          λ d.
            run_defined d.def
              (λ s h. let (def, there, _) = def-IsSound (some x) dep d s h in (def, there))
              λ def there. record {
                at = λ s h. (write-Runs (some x) dep inverse x (some x) other').at s h.0;
              }

    link_name-Runs :
        (r : Row) (dep : Bytes)
        → equal dep x ≡ false
        → equal x dep ≡ false
        → Locked (link_name x r dep)
    unfolding link_name
    link_name-Runs r dep other other' = run_get _ λ found. record {
      at = λ s h.
          (run_then (write-Runs (some x) x r.to dep (as_target dep found) other) (λ _.
              link_back-Runs r.inverse dep found other other'
                (ap (as_target dep) (sym h.1) ∙ h.0.0 dep))).at
            s h.0;
    }

    link_names-Runs :
        (r : Row) (links : Links) → link x links ≡ none → Locked (link_names x r links)
    unfolding link_names link
    link_names-Runs r [] e = run_pure _ λ s h. h
    link_names-Runs r ((dep, t) ∷ links) e = elim (Bool-cases (equal dep x)) [
      | inl same ↦ absurd (let e' = rw same at e in cc)
      | inr other ↦
          run_then (link_name-Runs r dep other (equal-flip dep x other))
            λ _. link_names-Runs r links (rw other at e)
    ]

    link_row-Runs : (r : Row) → Locked (link_row x r)
    unfolding link_row
    link_row-Runs r =
        run_read x (λ s h. there_is x s service h.0)
          λ d.
            run_defined d.def
              (λ s h. let (def, there, _) = def-IsSound (some x) x d s h in (def, there))
              λ def there. record {
                at = λ s h.
                    let (def', there', none_is) = def-IsSound (some x) x d s h in
                    let same : def' ≡ def = Option.some-injective _ _ (sym there' ∙ there) in
                    (link_names-Runs r (def.deps r.from) (
                        subst (λ (z : Definition). link x (z.deps r.from) ≡ none) same
                          (none_is r.from))).at
                      s h.0;
              }

    link_rows-Runs : (rs : List Row) → Locked (link_rows x rs)
    unfolding link_rows
    link_rows-Runs [] = run_pure _ λ s h. h
    link_rows-Runs (r ∷ rs) = run_then (link_row-Runs r) λ _. link_rows-Runs rs

    link_service-Runs : Runs (Ready none) (Ready none) (link_service x)
    unfolding link_service
    link_service-Runs =
        run_lock x (λ s h. free none x s service refl h)
          λ d. record {
            at = λ s h.
                (run_then (flag-Runs none (some x) x true (λ n e. sym e) (sym (equal_self x))) (λ _.
                    run_then (link_rows-Runs rows)
                      (λ _. flag-Runs (some x) none x false (λ n e. e) refl))).at
                  s h.0;
          }

  pub link_services-Runs :
      (names : List Bytes)
      → All (IsService known) names
      → Runs (Ready none) (Ready none) (link_services names)
  unfolding link_services
  link_services-Runs [] services = run_pure _ λ s h. h
  link_services-Runs (name ∷ names) services =
      run_then (link_service-Runs name services.0) λ _. link_services-Runs names services.1
