-- ===== src/PidTracker/Gathers.antt =====
-- systemd/pidtracker/pidtracker.go, `find`: what its loops gather.
use docker_systemd.Base.{
  ℕ, ◌<◌, ◌≡◌, ◌↔◌, ◌⊎◌, refl, inl, inr, arith, ==_iff, Bool, false, List, [], ◌∷◌, Option, some,
  ◌==◌, Bool-cases,
}
use docker_systemd.PidTracker.{Relations, children_of, add_new, add_all, collect, scan}
use docker_systemd.PidTracker.Members.{
  Has, IsDistinct, IsHas, Has-add_new, add_new-IsDistinct, Has-add_all, add_all-IsDistinct,
}

-- An entry of `pid` lists `c`.
abbrev pub Child : Relations → ℕ → ℕ → Type 0
Child [] pid c = ⊥
Child ((q, cs) ∷ rel) pid c = ((q ≡ pid) × Has c cs) ⊎ Child rel pid c

pub data Descendant (rel : Relations) : ℕ → ℕ → Type 0 where
  child : {pid d : ℕ} → Child rel pid d → Descendant rel pid d
  below : {pid d : ℕ} (c : ℕ) → Child rel pid c → Descendant rel c d → Descendant rel pid d

-- A process is of higher rank than its children, so no process is its own descendant.
abbrev pub IsRanked : (ℕ → ℕ) → Relations → Type 0
IsRanked rank rel = (pid c : ℕ) → Child rel pid c → rank c < rank pid

module _ (has_int : List ℕ → ℕ → Bool) (lawful : IsHas has_int) (rel : Relations) where
  -- What `find` finds: the descendants whose parent is now process 1.
  abbrev pub Found : ℕ → ℕ → Type 0
  Found pid d = Descendant rel pid d × Has d (children_of 1 rel)

  -- What is collected under one child.
  abbrev pub Under : ℕ → ℕ → Type 0
  Under c d = (d ≡ c) ⊎ Found c d

  pub record Finds (o : Option (List ℕ)) (pid : ℕ) : Type 0 where
    pub list : List ℕ
    pub result : o ≡ some list
    pub members : (d : ℕ) → Has d list ↔ Found pid d
    pub distinct : IsDistinct list

  abbrev pub AnyUnder : List ℕ → ℕ → Type 0
  AnyUnder [] d = ⊥
  AnyUnder (c ∷ cs) d = Under c d ⊎ AnyUnder cs d

  abbrev pub EntryUnder : ℕ → Relations → ℕ → Type 0
  EntryUnder pid [] d = ⊥
  EntryUnder pid ((q, cs) ∷ entries) d = ((q ≡ pid) × AnyUnder cs d) ⊎ EntryUnder pid entries d

  -- The list that a loop leaves, when it began with `from` and adds what is `New`.
  pub record Gathers (o : Option (List ℕ)) (from : List ℕ) (New : ℕ → Type 0) : Type 0 where
    pub list : List ℕ
    pub result : o ≡ some list
    pub members : (d : ℕ) → Has d list ↔ (Has d from ⊎ New d)
    pub distinct : IsDistinct list

  module _ (find_it : ℕ → Option (List ℕ)) where
    collect-Gathers :
        (cs acc : List ℕ)
        → ((c : ℕ) → Has c cs → Finds (find_it c) c)
        → IsDistinct acc
        → Gathers (collect has_int find_it cs acc) acc (AnyUnder cs)
    unfolding collect
    collect-Gathers [] acc finds h = record {
      list = acc;
      result = refl;
      members = λ d. (λ k. inl k, λ k. elim k [ inl m ↦ m | inr e ↦ absurd e ]);
      distinct = h;
    }
    collect-Gathers (c ∷ cs) acc finds h =
        let here : Finds (find_it c) c = finds c (inl refl) in
        let next = add_all has_int here.list (add_new has_int c acc) in
        let ih : Gathers (collect has_int find_it cs next) next (AnyUnder cs) =
          collect-Gathers cs next (λ k m. finds k (inr m))
            (add_all-IsDistinct has_int lawful here.list (add_new has_int c acc)
              (add_new-IsDistinct has_int lawful c acc h)) in
        record {
          list = ih.list;
          result = rw (here.result, collect) ih.result;
          members = λ d.
              ((λ m. there d here ((ih.members d).0 m)), λ m. (ih.members d).1 (back d here m));
          distinct = ih.distinct;
        }
      where
        there :
            (d : ℕ) (here : Finds (find_it c) c)
            → Has d (add_all has_int here.list (add_new has_int c acc)) ⊎ AnyUnder cs d
            → Has d acc ⊎ (Under c d ⊎ AnyUnder cs d)
        there d here (inr m) = inr (inr m)
        there d here (inl m) =
            elim ((Has-add_all has_int lawful d here.list (add_new has_int c acc)).0 m) [
              | inl k ↦ elim ((Has-add_new has_int lawful d c acc).0 k) [
                | inl old ↦ inl old
                | inr e ↦ inr (inl (inl e))
              ]
              | inr k ↦ inr (inl (inr ((here.members d).0 k)))
            ]

        back :
            (d : ℕ) (here : Finds (find_it c) c)
            → Has d acc ⊎ (Under c d ⊎ AnyUnder cs d)
            → Has d (add_all has_int here.list (add_new has_int c acc)) ⊎ AnyUnder cs d
        back d here (inl old) = inl (
            (Has-add_all has_int lawful d here.list (add_new has_int c acc)).1
              (inl ((Has-add_new has_int lawful d c acc).1 (inl old))))
        back d here (inr (inl (inl e))) = inl (
            (Has-add_all has_int lawful d here.list (add_new has_int c acc)).1
              (inl ((Has-add_new has_int lawful d c acc).1 (inr e))))
        back d here (inr (inl (inr k))) = inl (
            (Has-add_all has_int lawful d here.list (add_new has_int c acc)).1
              (inr ((here.members d).1 k)))
        back d here (inr (inr m)) = inr m

    pub scan-Gathers :
        (pid : ℕ) (entries : Relations) (acc : List ℕ)
        → ((c : ℕ) → Child entries pid c → Finds (find_it c) c)
        → IsDistinct acc
        → Gathers (scan has_int find_it pid entries acc) acc (EntryUnder pid entries)
    unfolding scan
    scan-Gathers pid [] acc finds h = record {
      list = acc;
      result = refl;
      members = λ d. (λ k. inl k, λ k. elim k [ inl m ↦ m | inr e ↦ absurd e ]);
      distinct = h;
    }
    scan-Gathers pid ((q, cs) ∷ entries) acc finds h = elim (Bool-cases (q == pid)) [
      | inl same ↦
          let e : q ≡ pid = (==_iff q pid).0 same in
          let now : Gathers (collect has_int find_it cs acc) acc (AnyUnder cs) =
            collect-Gathers cs acc (λ c m. finds c (inl (e, m))) h in
          let ih : Gathers (scan has_int find_it pid entries now.list) now.list
              (EntryUnder pid entries) =
            scan-Gathers pid entries now.list (λ c m. finds c (inr m)) now.distinct in
          record {
            list = ih.list;
            result = rw (same, now.result, scan) ih.result;
            members = λ d. (
              (λ m. there d now.list e (now.members d) ((ih.members d).0 m)),
              λ m. (ih.members d).1 (back d now.list (now.members d) m),
            );
            distinct = ih.distinct;
          }
      | inr other ↦
          let ih : Gathers (scan has_int find_it pid entries acc) acc (EntryUnder pid entries) =
            scan-Gathers pid entries acc (λ c m. finds c (inr m)) h in
          record {
            list = ih.list;
            result = rw (other, scan) ih.result;
            members = λ d. (
              (λ m. elim ((ih.members d).0 m) [ inl k ↦ inl k | inr k ↦ inr (inr k) ]),
              λ m. (ih.members d).1 (rest d other m),
            );
            distinct = ih.distinct;
          }
    ]
      where
        there :
            (d : ℕ) (now : List ℕ)
            → q ≡ pid
            → Has d now ↔ (Has d acc ⊎ AnyUnder cs d)
            → Has d now ⊎ EntryUnder pid entries d
            → Has d acc ⊎ (((q ≡ pid) × AnyUnder cs d) ⊎ EntryUnder pid entries d)
        there d l e now (inr m) = inr (inr m)
        there d l e now (inl m) = elim (now.0 m) [ inl k ↦ inl k | inr k ↦ inr (inl (e, k)) ]

        back :
            (d : ℕ) (now : List ℕ)
            → Has d now ↔ (Has d acc ⊎ AnyUnder cs d)
            → Has d acc ⊎ (((q ≡ pid) × AnyUnder cs d) ⊎ EntryUnder pid entries d)
            → Has d now ⊎ EntryUnder pid entries d
        back d l now (inl k) = inl (now.1 (inl k))
        back d l now (inr (inl (e, k))) = inl (now.1 (inr k))
        back d l now (inr (inr m)) = inr m

        rest :
            (d : ℕ)
            → (q == pid) ≡ false
            → Has d acc ⊎ (((q ≡ pid) × AnyUnder cs d) ⊎ EntryUnder pid entries d)
            → Has d acc ⊎ EntryUnder pid entries d
        rest d other (inl k) = inl k
        rest d other (inr (inl (e, k))) = absurd (ground arith)
        rest d other (inr (inr m)) = inr m
