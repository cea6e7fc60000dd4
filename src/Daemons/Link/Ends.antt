-- ===== src/Daemons/Link/Ends.antt =====
-- systemd/daemons/daemons.go, the loops of `Reload`: the two entries that one name leads to.
use docker_systemd.Base.{
  ◌≡◌, refl, sym, ap, ◌∙◌, subst, inl, inr, Bool, true, false, List, [], ◌∷◌, Bytes, Option, none,
  some, if◌then◌else◌, Bool-cases,
}
use docker_systemd.Text.{equal}
use docker_systemd.Text.Laws.{equal_iff}
use docker_systemd.Daemon.State.{Daemon, System, find}
use docker_systemd.Daemons.Link.{Row, write, as_target, link_back, link_name, names_of}
use docker_systemd.Daemons.Link.Rules.{
  Reaches, reach_then, reach_fact, reach_get, reach_defined, reach_lock,
}
use docker_systemd.Daemons.Link.Entries.{resolve, IsKnown, Kept, write-Entry}
use docker_systemd.Daemons.Link.Upkept.{IsUpkept, Known-IsUpkept, Kept-IsUpkept}
use docker_systemd.Daemons.Link.Linked.{IsService, link_back-Keeps}
use docker_systemd.Daemons.Link.Resolved.{OneOf}

abbrev pub IsEntry : Option Bytes → Option (Option Bytes) → Type 0
IsEntry u t = t ≡ some u

module _ (known : Bytes → Bool) (x : Bytes) (r : Row) (y : Bytes)
    (service : IsService known x) where
  pub To-IsUpkept : IsUpkept known (Kept known x r.to y (IsEntry (resolve known y)))
  To-IsUpkept = Kept-IsUpkept known x r.to y (IsEntry (resolve known y)) refl

  me : resolve known x ≡ some x
  me = rw service refl

  pub Back-IsUpkept : IsUpkept known (Kept known y r.inverse x (IsEntry (some x)))
  Back-IsUpkept = Kept-IsUpkept known y r.inverse x (IsEntry (some x)) (ap some me)

  pub link_name-Entry :
      Reaches (IsKnown known) (Kept known x r.to y (IsEntry (resolve known y))) (link_name x r y)
  unfolding link_name
  link_name-Entry = reach_get _ λ found.
      reach_fact (as_target y found ≡ resolve known y) (λ s h. ap (as_target y) (sym h.1) ∙ h.0 y)
        λ e.
          reach_then {Q = Kept known x r.to y (IsEntry (resolve known y))}
            (record {
              at = λ s h.
                  (subst
                      (λ t.
                        Reaches (IsKnown known) (Kept known x r.to y (IsEntry (resolve known y)))
                          (write x r.to y t))
                      (sym e) (write-Entry known x r.to y (IsEntry (resolve known y)) refl)).at
                    s h.0;
            })
            λ _. link_back-Keeps known To-IsUpkept x r.inverse y found service

  link_back-Entry :
      (found : Option Daemon)
      → as_target y found ≡ some y
      → Reaches
          (IsKnown known)
          (Kept known y r.inverse x (IsEntry (some x)))
          (link_back x r.inverse y found)
  link_back-Entry none e = absurd (cc)
  link_back-Entry (some other) e = reach_then (reach_lock y) λ d. reach_defined d.def λ def there.
      subst
        (λ t.
          Reaches (IsKnown known) (Kept known y r.inverse x (IsEntry (some x)))
            (write y r.inverse x t))
        me (write-Entry known y r.inverse x (IsEntry (some x)) (ap some me))

  pub link_name-Entry_back :
      IsService known y
      → Reaches (IsKnown known) (Kept known y r.inverse x (IsEntry (some x))) (link_name x r y)
  unfolding link_name
  link_name-Entry_back other = reach_get _ λ found.
      reach_fact (as_target y found ≡ resolve known y) (λ s h. ap (as_target y) (sym h.1) ∙ h.0 y)
        λ e.
          let is : as_target y found ≡ some y = e ∙ (rw other refl) in
          reach_then {Q = IsKnown known}
            (record {
              at = λ s h.
                  (subst (λ t. Reaches (IsKnown known) (IsKnown known) (write x r.to y t)) (sym e)
                      ((Known-IsUpkept known).writes x r.to y)).at
                    s h.0;
            })
            λ _. link_back-Entry found is

-- The names of a system's services.
abbrev pub is_known : System → Bytes → Bool
is_known s n = elim (find n s.list) [ none ↦ false | some d ↦ true ]

pub is_known-IsKnown : (s : System) → IsKnown (is_known s) s
is_known-IsKnown s n = resolved (find n s.list)
  where
    resolved :
        (o : Option Daemon)
        → as_target n o ≡ (if elim o [ none ↦ false | some d ↦ true ] then some n else none)
    resolved none = refl
    resolved (some d) = refl

pub found-OneOf :
    (x : Bytes) (list : List (Bytes × Daemon)) (d : Daemon)
    → find x list ≡ some d
    → OneOf x (names_of list)
found-OneOf x [] d e = absurd (cc)
found-OneOf x ((n, d') ∷ list) d e = elim (Bool-cases (equal n x)) [
  | inl same ↦ inl (sym ((equal_iff n x).0 same))
  | inr other ↦ inr (found-OneOf x list d (rw other at e))
]
