-- ===== src/PidTracker/Descendants.antt =====
-- systemd/pidtracker/pidtracker.go, `Find`, against the descendants of a process.
use docker_systemd.Base.{
  ℕ, zero, suc, ◌<◌, ◌≡◌, ◌↔◌, ◌⊎◌, refl, subst, inl, inr, arith, Bool, List, [], ◌∷◌, some,
}
use docker_systemd.PidTracker.{Relations, children_of, scan, adopted, find}
use docker_systemd.PidTracker.Members.{Has, IsDistinct, IsHas, Has-adopted, adopted-IsDistinct}
use docker_systemd.PidTracker.Gathers.{
  Child, Descendant, child, below, IsRanked, Finds, Found, Under, AnyUnder, EntryUnder, Gathers,
  scan-Gathers,
}

module _ (has_int : List ℕ → ℕ → Bool) (lawful : IsHas has_int) (rel : Relations) where
  -- What stands under an entry of `pid` is a descendant, if it was adopted, and the other way.
  AnyUnder-Child :
      (pid d : ℕ) (cs : List ℕ)
      → ((c : ℕ) → Has c cs → Child rel pid c)
      → AnyUnder has_int lawful rel cs d
      → Descendant rel pid d
  AnyUnder-Child pid d [] sub e = absurd e
  AnyUnder-Child pid d (c ∷ cs) sub (inl (inl e)) = child (rw e (sub c (inl refl)))
  AnyUnder-Child pid d (c ∷ cs) sub (inl (inr f)) = below c (sub c (inl refl)) f.0
  AnyUnder-Child pid d (c ∷ cs) sub (inr k) = AnyUnder-Child pid d cs (λ c m. sub c (inr m)) k

  EntryUnder-Descendant :
      (pid d : ℕ) (entries : Relations)
      → ((c : ℕ) → Child entries pid c → Child rel pid c)
      → EntryUnder has_int lawful rel pid entries d
      → Descendant rel pid d
  EntryUnder-Descendant pid d [] sub e = absurd e
  EntryUnder-Descendant pid d ((q, cs) ∷ entries) sub (inl (e, k)) =
      AnyUnder-Child pid d cs (λ c m. sub c (inl (e, m))) k
  EntryUnder-Descendant pid d ((q, cs) ∷ entries) sub (inr k) =
      EntryUnder-Descendant pid d entries (λ c m. sub c (inr m)) k

  Under-AnyUnder :
      (c d : ℕ) (cs : List ℕ)
      → Has c cs
      → Under has_int lawful rel c d
      → AnyUnder has_int lawful rel cs d
  Under-AnyUnder c d [] h u = absurd h
  Under-AnyUnder c d (x ∷ cs) (inl e) u = inl (subst (λ x. Under has_int lawful rel x d) e u)
  Under-AnyUnder c d (x ∷ cs) (inr h) u = inr (Under-AnyUnder c d cs h u)

  Under-EntryUnder :
      (pid c d : ℕ) (entries : Relations)
      → Child entries pid c
      → Under has_int lawful rel c d
      → EntryUnder has_int lawful rel pid entries d
  Under-EntryUnder pid c d [] h u = absurd h
  Under-EntryUnder pid c d ((q, cs) ∷ entries) (inl (e, m)) u = inl (e, Under-AnyUnder c d cs m u)
  Under-EntryUnder pid c d ((q, cs) ∷ entries) (inr h) u =
      inr (Under-EntryUnder pid c d entries h u)

  Found-EntryUnder :
      (pid d : ℕ) → Found has_int lawful rel pid d → EntryUnder has_int lawful rel pid rel d
  Found-EntryUnder pid d (child k, a) = Under-EntryUnder pid d d rel k (inl refl)
  Found-EntryUnder pid d (below c k b, a) = Under-EntryUnder pid c d rel k (inr (b, a))

  find-Finds :
      (rank : ℕ → ℕ) (fuel pid : ℕ)
      → IsRanked rank rel
      → rank pid < fuel
      → Finds has_int lawful rel (find has_int fuel rel pid) pid
  unfolding find
  find-Finds rank zero pid ranked h = elim h [ ]
  find-Finds rank (suc fuel) pid ranked h =
      let all : Gathers has_int lawful rel (scan has_int (find has_int fuel rel) pid rel []) []
          (EntryUnder has_int lawful rel pid rel) =
        scan-Gathers has_int lawful rel (find has_int fuel rel) pid rel []
          (λ c k. let smaller = ranked pid c k in find-Finds rank fuel c ranked (omega arith)) tt in
      record {
        list = adopted has_int (children_of 1 rel) all.list;
        result = rw all.result refl;
        members = λ d. (
          (λ m.
              there d all.list (all.members d)
                ((Has-adopted has_int lawful d (children_of 1 rel) all.list).0 m)),
          λ f.
              (Has-adopted has_int lawful d (children_of 1 rel) all.list).1
                ((all.members d).1 (inr (Found-EntryUnder pid d f)), f.1),
        );
        distinct = adopted-IsDistinct has_int lawful (children_of 1 rel) all.list all.distinct;
      }
    where
      there :
          (d : ℕ) (list : List ℕ)
          → Has d list ↔ (⊥ ⊎ EntryUnder has_int lawful rel pid rel d)
          → Has d list × Has d (children_of 1 rel)
          → Found has_int lawful rel pid d
      there d list members (m, a) = elim (members.0 m) [
        | inl e ↦ absurd e
        | inr k ↦ (EntryUnder-Descendant pid d rel (λ c h. h) k, a)
      ]

-- On processes of which none is its own descendant, `Find` ends within as many nested calls as the
-- rank of the process and one more. It lists exactly the descendants that are now children of
-- process 1, each of them once.
pub find-Descendants :
    (has_int : List ℕ → ℕ → Bool) (rel : Relations) (rank : ℕ → ℕ) (fuel pid : ℕ)
    → IsHas has_int
    → IsRanked rank rel
    → rank pid < fuel
    → (list : List ℕ) × (find has_int fuel rel pid ≡ some list)
      × ((d : ℕ) → Has d list ↔ (Descendant rel pid d × Has d (children_of 1 rel)))
      × IsDistinct list
find-Descendants has_int rel rank fuel pid lawful ranked h =
    let found = find-Finds has_int lawful rel rank fuel pid ranked h in
    (found.list, found.result, found.members, found.distinct)
