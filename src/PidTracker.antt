-- ===== src/PidTracker.antt =====
-- systemd/pidtracker/pidtracker.go: which processes a process has forked. `inslice.HasInt` is a
-- parameter; the number -1, which stands for no process, is `none`.
pub mod Members
pub mod Gathers
pub mod Descendants
pub mod Added
pub mod Messages
mod Tests
use docker_systemd.Base.{
  ℕ, zero, suc, Bool, List, [], ◌∷◌, ◌++◌, Option, none, some, ◌==◌, if◌then◌else◌,
}

-- `pids.relations`: the entries of the map, a parent standing in it once.
abbrev pub Relations : Type 0
Relations = List (ℕ × List ℕ)

-- `p.relations[pid] = append(p.relations[pid], child)`
unfoldable pub append_child : ℕ → ℕ → Relations → Relations
append_child pid child [] = (pid, child ∷ []) ∷ []
append_child pid child ((q, cs) ∷ rel) =
    if q == pid then (q, cs ++ (child ∷ [])) ∷ rel else (q, cs) ∷ append_child pid child rel

abbrev pub append_if : Option ℕ → Option ℕ → Relations → Relations
append_if (some pid) (some child) rel = append_child pid child rel
append_if _ _ rel = rel

-- `Add`
unfoldable pub add : (parent child infant : Option ℕ) → Relations → Relations
add parent none infant rel = rel
add parent (some child) infant rel =
    append_if (some child) infant (append_if parent (some child) rel)

-- `p.relations[pid]`, which is empty where there is no entry.
abbrev pub children_of : ℕ → Relations → List ℕ
children_of pid [] = []
children_of pid ((q, cs) ∷ rel) = if q == pid then cs else children_of pid rel

module _ (has_int : List ℕ → ℕ → Bool) where
  -- `if !inslice.HasInt(children, c) { children = append(children, c) }`
  abbrev pub add_new : ℕ → List ℕ → List ℕ
  add_new c children = if has_int children c then children else children ++ (c ∷ [])

  -- The loop over what `find(c)` gives.
  unfoldable pub add_all : List ℕ → List ℕ → List ℕ
  add_all [] children = children
  add_all (cc ∷ more) children = add_all more (add_new cc children)

  -- The loop over the children of one process, with `find` as a parameter.
  unfoldable pub collect : (ℕ → Option (List ℕ)) → List ℕ → List ℕ → Option (List ℕ)
  collect find_it [] children = some children
  collect find_it (c ∷ child) children = elim (find_it c) [
    | none ↦ none
    | some found ↦ collect find_it child (add_all found (add_new c children))
  ]

  -- The loop over the entries of the map.
  unfoldable pub scan : (ℕ → Option (List ℕ)) → ℕ → Relations → List ℕ → Option (List ℕ)
  scan find_it pid [] children = some children
  scan find_it pid ((parent, child) ∷ rel) children =
      elim (if parent == pid then collect find_it child children else some children) [
        | none ↦ none
        | some children' ↦ scan find_it pid rel children'
      ]

  -- The loop that keeps the children whose parent is now process 1.
  unfoldable pub adopted : List ℕ → List ℕ → List ℕ
  adopted kids [] = []
  adopted kids (c ∷ children) =
      if has_int kids c then c ∷ adopted kids children else adopted kids children

  abbrev pub adopted_of : Relations → Option (List ℕ) → Option (List ℕ)
  adopted_of rel none = none
  adopted_of rel (some children) = some (adopted (children_of 1 rel) children)

  -- `find`, and `Find`; `none` when the depth of calls passes the fuel.
  unfoldable pub find : ℕ → Relations → ℕ → Option (List ℕ)
  find zero rel pid = none
  find (suc fuel) rel pid = adopted_of rel (scan (find fuel rel) pid rel [])
