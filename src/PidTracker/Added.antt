-- ===== src/PidTracker/Added.antt =====
-- systemd/pidtracker/pidtracker.go, `Add`, as a change of the relation between processes.
use docker_systemd.Base.{
  ℕ, ◌≡◌, ◌↔◌, ◌⊎◌, sym, ◌∙◌, inl, inr, ==_iff, [], ◌∷◌, ◌++◌, Option, none, some, ◌==◌, Bool-cases,
}
use docker_systemd.PidTracker.{Relations, append_child, append_if, add}
use docker_systemd.PidTracker.Members.{Has, Has-append}
use docker_systemd.PidTracker.Gathers.{Child}

-- `p` has become the parent of `c`, for a pair that is reported.
abbrev pub Reported : Option ℕ → Option ℕ → ℕ → ℕ → Type 0
Reported (some p) (some c) pid d = (p ≡ pid) × (d ≡ c)
Reported _ _ pid d = ⊥

Child-append_child :
    (rel : Relations) (p c pid d : ℕ)
    → Child (append_child p c rel) pid d ↔ (Child rel pid d ⊎ ((p ≡ pid) × (d ≡ c)))
unfolding append_child
Child-append_child [] p c pid d = (there, back)
  where
    there : ((p ≡ pid) × ((d ≡ c) ⊎ ⊥)) ⊎ ⊥ → ⊥ ⊎ ((p ≡ pid) × (d ≡ c))
    there (inl (e, inl k)) = inr (e, k)
    there (inl (e, inr k)) = absurd k
    there (inr k) = absurd k

    back : ⊥ ⊎ ((p ≡ pid) × (d ≡ c)) → ((p ≡ pid) × ((d ≡ c) ⊎ ⊥)) ⊎ ⊥
    back (inl k) = absurd k
    back (inr (e, k)) = inl (e, inl k)
Child-append_child ((q, cs) ∷ rel) p c pid d = elim (Bool-cases (q == p)) [
  | inl same ↦ rw same (found ((==_iff q p).0 same) (Has-append d cs (c ∷ [])))
  | inr other ↦ rw other (next (Child-append_child rel p c pid d))
]
  where
    found :
        q ≡ p
        → Has d (cs ++ (c ∷ [])) ↔ (Has d cs ⊎ Has d (c ∷ []))
        → (((q ≡ pid) × Has d (cs ++ (c ∷ []))) ⊎ Child rel pid d)
          ↔ ((((q ≡ pid) × Has d cs) ⊎ Child rel pid d) ⊎ ((p ≡ pid) × (d ≡ c)))
    found e split = (there, back)
      where
        there :
            ((q ≡ pid) × Has d (cs ++ (c ∷ []))) ⊎ Child rel pid d
            → (((q ≡ pid) × Has d cs) ⊎ Child rel pid d) ⊎ ((p ≡ pid) × (d ≡ c))
        there (inl (k, m)) = elim (split.0 m) [
          | inl old ↦ inl (inl (k, old))
          | inr new ↦ elim new [ inl at ↦ inr (sym e ∙ k, at) | inr no_more ↦ absurd no_more ]
        ]
        there (inr k) = inl (inr k)

        back :
            (((q ≡ pid) × Has d cs) ⊎ Child rel pid d) ⊎ ((p ≡ pid) × (d ≡ c))
            → ((q ≡ pid) × Has d (cs ++ (c ∷ []))) ⊎ Child rel pid d
        back (inl (inl (k, m))) = inl (k, split.1 (inl m))
        back (inl (inr k)) = inr k
        back (inr (k, at)) = inl (e ∙ k, split.1 (inr (inl at)))

    next :
        Child (append_child p c rel) pid d ↔ (Child rel pid d ⊎ ((p ≡ pid) × (d ≡ c)))
        → (((q ≡ pid) × Has d cs) ⊎ Child (append_child p c rel) pid d)
          ↔ ((((q ≡ pid) × Has d cs) ⊎ Child rel pid d) ⊎ ((p ≡ pid) × (d ≡ c)))
    next ih = (there, back)
      where
        there :
            ((q ≡ pid) × Has d cs) ⊎ Child (append_child p c rel) pid d
            → (((q ≡ pid) × Has d cs) ⊎ Child rel pid d) ⊎ ((p ≡ pid) × (d ≡ c))
        there (inl k) = inl (inl k)
        there (inr k) = elim (ih.0 k) [ inl old ↦ inl (inr old) | inr new ↦ inr new ]

        back :
            (((q ≡ pid) × Has d cs) ⊎ Child rel pid d) ⊎ ((p ≡ pid) × (d ≡ c))
            → ((q ≡ pid) × Has d cs) ⊎ Child (append_child p c rel) pid d
        back (inl (inl k)) = inl k
        back (inl (inr k)) = inr (ih.1 (inl k))
        back (inr k) = inr (ih.1 (inr k))

Child-append_if :
    (rel : Relations) (p c : Option ℕ) (pid d : ℕ)
    → Child (append_if p c rel) pid d ↔ (Child rel pid d ⊎ Reported p c pid d)
Child-append_if rel (some p) (some c) pid d = Child-append_child rel p c pid d
Child-append_if rel (some p) none pid d =
    (λ k. inl k, λ k. elim k [ inl h ↦ h | inr no_one ↦ absurd no_one ])
Child-append_if rel none c pid d =
    (λ k. inl k, λ k. elim k [ inl h ↦ h | inr no_one ↦ absurd no_one ])

-- `Add` makes exactly the reported pairs parent and child, and keeps all other pairs: the first
-- process and the second, and the second and the third, where they are given. Nothing changes when
-- the second is not.
pub Child-add :
    (rel : Relations) (parent child infant : Option ℕ) (pid d : ℕ)
    → Child (add parent child infant rel) pid d
      ↔ (Child rel pid d ⊎ (Reported parent child pid d ⊎ Reported child infant pid d))
unfolding add
Child-add rel (some p) none infant pid d = (λ k. inl k, back)
  where
    back : Child rel pid d ⊎ (⊥ ⊎ ⊥) → Child rel pid d
    back (inl k) = k
    back (inr (inl k)) = absurd k
    back (inr (inr k)) = absurd k
Child-add rel none none infant pid d = (λ k. inl k, back)
  where
    back : Child rel pid d ⊎ (⊥ ⊎ ⊥) → Child rel pid d
    back (inl k) = k
    back (inr (inl k)) = absurd k
    back (inr (inr k)) = absurd k
Child-add rel parent (some c) infant pid d =
    let first = Child-append_if rel parent (some c) pid d in
    let second = Child-append_if (append_if parent (some c) rel) (some c) infant pid d in
    (
      (λ k. elim (second.0 k) [
        | inl old ↦ elim (first.0 old) [ inl h ↦ inl h | inr new ↦ inr (inl new) ]
        | inr new ↦ inr (inr new)
      ]),
      λ k. elim k [
        | inl h ↦ second.1 (inl (first.1 (inl h)))
        | inr new ↦ elim new [ inl h ↦ second.1 (inl (first.1 (inr h))) | inr h ↦ second.1 (inr h) ]
      ],
    )
