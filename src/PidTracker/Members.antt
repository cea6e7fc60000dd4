-- ===== src/PidTracker/Members.antt =====
-- Members of the lists of processes.
use docker_systemd.Base.{
  ℕ, ◌≡◌, ◌↔◌, ◌⊎◌, sym, inl, inr, Bool, true, false, List, [], ◌∷◌, ◌++◌, Bool-cases,
}
use docker_systemd.PidTracker.{add_new, add_all, adopted}

abbrev pub Has : ℕ → List ℕ → Type 0
Has a [] = ⊥
Has a (x ∷ xs) = (a ≡ x) ⊎ Has a xs

-- No process stands in the list twice.
abbrev pub IsDistinct : List ℕ → Type 0
IsDistinct [] = Unit
IsDistinct (x ∷ xs) = (¬ Has x xs) × IsDistinct xs

-- What the package inslice documents of `HasInt`.
abbrev pub IsHas : (List ℕ → ℕ → Bool) → Type 0
IsHas has_int = (xs : List ℕ) (a : ℕ) → (has_int xs a ≡ true) ↔ Has a xs

pub Has-append : (a : ℕ) (xs ys : List ℕ) → Has a (xs ++ ys) ↔ (Has a xs ⊎ Has a ys)
Has-append a [] ys = (λ h. inr h, to)
  where
    to : ⊥ ⊎ Has a ys → Has a ys
    to (inl e) = absurd e
    to (inr h) = h
Has-append a (x ∷ xs) ys = (there (Has-append a xs ys).0, back (Has-append a xs ys).1)
  where
    there :
        (Has a (xs ++ ys) → Has a xs ⊎ Has a ys)
        → (a ≡ x) ⊎ Has a (xs ++ ys)
        → ((a ≡ x) ⊎ Has a xs) ⊎ Has a ys
    there ih (inl e) = inl (inl e)
    there ih (inr h) = elim (ih h) [ inl k ↦ inl (inr k) | inr k ↦ inr k ]

    back :
        (Has a xs ⊎ Has a ys → Has a (xs ++ ys))
        → ((a ≡ x) ⊎ Has a xs) ⊎ Has a ys
        → (a ≡ x) ⊎ Has a (xs ++ ys)
    back ih (inl (inl e)) = inl e
    back ih (inl (inr k)) = inr (ih (inl k))
    back ih (inr k) = inr (ih (inr k))

IsDistinct-snoc : (xs : List ℕ) (c : ℕ) → IsDistinct xs → ¬ Has c xs → IsDistinct (xs ++ (c ∷ []))
IsDistinct-snoc [] c h n = ((λ e. e), tt)
IsDistinct-snoc (x ∷ xs) c h n =
    ((λ k. last ((Has-append x xs (c ∷ [])).0 k)), IsDistinct-snoc xs c h.1 (λ k. n (inr k)))
  where
    last : ¬ (Has x xs ⊎ Has x (c ∷ []))
    last (inl k) = h.0 k
    last (inr (inl e)) = n (inl (sym e))
    last (inr (inr e)) = e

module _ (has_int : List ℕ → ℕ → Bool) (lawful : IsHas has_int) where
  not-Has : (xs : List ℕ) (c : ℕ) → has_int xs c ≡ false → ¬ Has c xs
  not-Has xs c e h = let yes_it = (lawful xs c).1 h in cc

  pub Has-add_new : (a c : ℕ) (xs : List ℕ) → Has a (add_new has_int c xs) ↔ (Has a xs ⊎ (a ≡ c))
  Has-add_new a c xs = elim (Bool-cases (has_int xs c)) [
    | inl old ↦ rw old ((λ h. inl h), there ((lawful xs c).0 old))
    | inr new ↦
        rw new (
          (λ h. there' ((Has-append a xs (c ∷ [])).0 h)),
          λ h. (Has-append a xs (c ∷ [])).1 (back h),
        )
  ]
    where
      there : Has c xs → Has a xs ⊎ (a ≡ c) → Has a xs
      there k (inl h) = h
      there k (inr e) = rw e k

      there' : Has a xs ⊎ Has a (c ∷ []) → Has a xs ⊎ (a ≡ c)
      there' (inl h) = inl h
      there' (inr (inl e)) = inr e
      there' (inr (inr e)) = absurd e

      back : Has a xs ⊎ (a ≡ c) → Has a xs ⊎ Has a (c ∷ [])
      back (inl h) = inl h
      back (inr e) = inr (inl e)

  pub add_new-IsDistinct : (c : ℕ) (xs : List ℕ) → IsDistinct xs → IsDistinct (add_new has_int c xs)
  add_new-IsDistinct c xs h = elim (Bool-cases (has_int xs c)) [
    | inl old ↦ rw old h
    | inr new ↦ rw new (IsDistinct-snoc xs c h (not-Has xs c new))
  ]

  pub Has-add_all : (a : ℕ) (cs xs : List ℕ) → Has a (add_all has_int cs xs) ↔ (Has a xs ⊎ Has a cs)
  unfolding add_all
  Has-add_all a [] xs = (λ h. inl h, λ h. elim h [ inl k ↦ k | inr e ↦ absurd e ])
  Has-add_all a (c ∷ cs) xs = (
    (λ h. there ((Has-add_all a cs (add_new has_int c xs)).0 h)),
    λ h. (Has-add_all a cs (add_new has_int c xs)).1 (back h),
  )
    where
      there : Has a (add_new has_int c xs) ⊎ Has a cs → Has a xs ⊎ ((a ≡ c) ⊎ Has a cs)
      there (inl k) = elim ((Has-add_new a c xs).0 k) [ inl h ↦ inl h | inr e ↦ inr (inl e) ]
      there (inr k) = inr (inr k)

      back : Has a xs ⊎ ((a ≡ c) ⊎ Has a cs) → Has a (add_new has_int c xs) ⊎ Has a cs
      back (inl h) = inl ((Has-add_new a c xs).1 (inl h))
      back (inr (inl e)) = inl ((Has-add_new a c xs).1 (inr e))
      back (inr (inr k)) = inr k

  pub add_all-IsDistinct : (cs xs : List ℕ) → IsDistinct xs → IsDistinct (add_all has_int cs xs)
  unfolding add_all
  add_all-IsDistinct [] xs h = h
  add_all-IsDistinct (c ∷ cs) xs h =
      add_all-IsDistinct cs (add_new has_int c xs) (add_new-IsDistinct c xs h)

  pub Has-adopted :
      (a : ℕ) (kids xs : List ℕ) → Has a (adopted has_int kids xs) ↔ (Has a xs × Has a kids)
  unfolding adopted
  Has-adopted a kids [] = (λ e. absurd e, λ h. absurd h.0)
  Has-adopted a kids (c ∷ xs) = elim (Bool-cases (has_int kids c)) [
    | inl kept ↦ rw kept (first (Has-adopted a kids xs) ((lawful kids c).0 kept))
    | inr left ↦ rw left (rest (Has-adopted a kids xs) (not-Has kids c left))
  ]
    where
      first :
          (Has a (adopted has_int kids xs) ↔ (Has a xs × Has a kids))
          → Has c kids
          → ((a ≡ c) ⊎ Has a (adopted has_int kids xs)) ↔ (((a ≡ c) ⊎ Has a xs) × Has a kids)
      first ih k = (there, back)
        where
          there : (a ≡ c) ⊎ Has a (adopted has_int kids xs) → ((a ≡ c) ⊎ Has a xs) × Has a kids
          there (inl e) = (inl e, rw e k)
          there (inr h) = (inr (ih.0 h).0, (ih.0 h).1)

          back : ((a ≡ c) ⊎ Has a xs) × Has a kids → (a ≡ c) ⊎ Has a (adopted has_int kids xs)
          back (inl e, m) = inl e
          back (inr h, m) = inr (ih.1 (h, m))

      rest :
          (Has a (adopted has_int kids xs) ↔ (Has a xs × Has a kids))
          → ¬ Has c kids
          → Has a (adopted has_int kids xs) ↔ (((a ≡ c) ⊎ Has a xs) × Has a kids)
      rest ih n = ((λ h. (inr (ih.0 h).0, (ih.0 h).1)), back)
        where
          back : ((a ≡ c) ⊎ Has a xs) × Has a kids → Has a (adopted has_int kids xs)
          back (inl e, m) = absurd (n (rw (sym e) m))
          back (inr h, m) = ih.1 (h, m)

  pub adopted-IsDistinct : (kids xs : List ℕ) → IsDistinct xs → IsDistinct (adopted has_int kids xs)
  unfolding adopted
  adopted-IsDistinct kids [] h = tt
  adopted-IsDistinct kids (c ∷ xs) h = elim (Bool-cases (has_int kids c)) [
    | inl kept ↦
        rw kept ((λ k. h.0 ((Has-adopted c kids xs).0 k).0), adopted-IsDistinct kids xs h.1)
    | inr left ↦ rw left (adopted-IsDistinct kids xs h.1)
  ]
