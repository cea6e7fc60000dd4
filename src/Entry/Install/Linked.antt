-- ===== src/Entry/Install/Linked.antt =====
-- main.go, `install`: the links behind it.
use docker_systemd.Base.{
  ◌≡◌, refl, sym, ap, ◌∙◌, subst, arith, Bool, true, false, not, ◌&&◌, ◌||◌, ◌⊎◌, inl, inr,
  append_assoc, List, [], ◌∷◌, ◌++◌, map, Bytes, All, Option, none, some, if◌then◌else◌,
}
use mathlib.Core.Option
use docker_systemd.Text.{codes, equal}
use docker_systemd.Text.Laws.{equal_iff}
use docker_systemd.Entry.Install.{
  Files, programs, base_path, linked, link_again, is_me, link_found, install_one, and_rest,
  install_each, install,
}

-- A round for `f` does not touch the name `q`.
abbrev Spares : Bytes → Bytes → Type 0
Spares f q = (equal q f ≡ false) × (equal q (f ++ codes ".old") ≡ false)

-- No name is touched by the rounds for the names behind it.
abbrev AreApart : List Bytes → Type 0
AreApart [] = Unit
AreApart (f ∷ fs) = All (λ g. Spares g f) fs × AreApart fs

module _ {S : Type 0} (files : Files S) where
  -- A link that has been made has its target, and the links of other names are as they were; a name
  -- that is neither the old nor the new one is not touched by `rename`.
  pub record IsFiles : Type 0 where
    pub read_link-symlink :
        (to name : Bytes) (s : S)
        → (files.symlink to name s).0 ≡ true
        → files.read_link name (files.symlink to name s).1 ≡ some to
    pub read_link-other :
        (to name q : Bytes) (s : S)
        → equal q name ≡ false
        → files.read_link q (files.symlink to name s).1 ≡ files.read_link q s
    pub read_link-rename :
        (old new q : Bytes) (s : S)
        → equal q old ≡ false
        → equal q new ≡ false
        → files.read_link q (files.rename old new s) ≡ files.read_link q s

  -- The name is the program itself or a link to it.
  abbrev pub IsInstalled : Bytes → S → Bytes → Type 0
  IsInstalled me s f = (equal me f || is_me files me (files.read_link f s)) ≡ true

  module _ (ok : IsFiles) (me : Bytes) where
    linked-some : (r : Bool × S) (t : S) → linked files me r ≡ some t → (r.0 ≡ true) × (r.1 ≡ t)
    linked-some (true, u) t e = (refl, Option.some-injective _ _ e)
    linked-some (false, u) t e = absurd (cc)

    again-IsInstalled :
        (f : Bytes) (s t : S)
        → link_again files me f s ≡ some t
        → is_me files me (files.read_link f t) ≡ true
    again-IsInstalled f s t e =
        let (made, same) =
          linked-some (files.symlink me f (files.rename f (f ++ codes ".old") s)) t e in
        rw (sym same, ok.read_link-symlink me f (files.rename f (f ++ codes ".old") s) made)
          ((equal_iff me me).1 refl)

    again-other :
        (f q : Bytes) (s t : S)
        → Spares f q
        → link_again files me f s ≡ some t
        → files.read_link q t ≡ files.read_link q s
    again-other f q s t (apart, apart') e =
        let (made, same) =
          linked-some (files.symlink me f (files.rename f (f ++ codes ".old") s)) t e in
        rw (sym same, ok.read_link-other me f q (files.rename f (f ++ codes ".old") s) apart)
          (ok.read_link-rename f (f ++ codes ".old") q s apart apart')

    -- A round keeps the link that is there, or makes it again.
    found-cases :
        (f : Bytes) (s t : S) (o : Option Bool)
        → link_found files me f s o ≡ some t
        → ((s ≡ t) × (is_me files me (files.read_link f s) ≡ true))
          ⊎ (link_again files me f s ≡ some t)
    found-cases f s t none e = inr e
    found-cases f s t (some false) e = inr e
    found-cases f s t (some true) e = by_link (is_me files me (files.read_link f s)) e
      where
        by_link :
            (b : Bool)
            → (if b then some s else link_again files me f s) ≡ some t
            → ((s ≡ t) × (b ≡ true)) ⊎ (link_again files me f s ≡ some t)
        by_link true e = inl (Option.some-injective _ _ e, refl)
        by_link false e = inr e

    one-IsInstalled : (f : Bytes) (s t : S) → install_one files me f s ≡ some t → IsInstalled me t f
    unfolding install_one
    one-IsInstalled f s t e = by_me (equal me f) e
      where
        by_me :
            (b : Bool)
            → (if b then some s else link_found files me f s (files.lstat f s)) ≡ some t
            → (b || is_me files me (files.read_link f t)) ≡ true
        by_me true e = refl
        by_me false e = elim (found-cases f s t (files.lstat f s) e) [
          | inl (same, me_there) ↦
              subst (λ u. is_me files me (files.read_link f u) ≡ true) same me_there
          | inr again ↦ again-IsInstalled f s t again
        ]

    one-other :
        (f q : Bytes) (s t : S)
        → Spares f q
        → install_one files me f s ≡ some t
        → files.read_link q t ≡ files.read_link q s
    unfolding install_one
    one-other f q s t spares e = by_me (equal me f) e
      where
        by_me :
            (b : Bool)
            → (if b then some s else link_found files me f s (files.lstat f s)) ≡ some t
            → files.read_link q t ≡ files.read_link q s
        by_me true e = ap (files.read_link q) (sym (Option.some-injective _ _ e))
        by_me false e = elim (found-cases f s t (files.lstat f s) e) [
          | inl (same, me_there) ↦ ap (files.read_link q) (sym same)
          | inr again ↦ again-other f q s t spares again
        ]

    each-other :
        (q : Bytes) (fs : List Bytes) (s t : S)
        → All (λ g. Spares g q) fs
        → install_each files me fs s ≡ some t
        → files.read_link q t ≡ files.read_link q s
    unfolding install_each
    each-other q [] s t apart e = ap (files.read_link q) (sym (Option.some-injective _ _ e))
    each-other q (f ∷ fs) s t (spares, apart) e =
        by_round (install_one files me f s) refl e (λ u. each-other q fs u t apart)
      where
        by_round :
            (o : Option S)
            → install_one files me f s ≡ o
            → and_rest files me (install_each files me fs) o ≡ some t
            → ((u : S)
                → install_each files me fs u ≡ some t
                → files.read_link q t ≡ files.read_link q u)
            → files.read_link q t ≡ files.read_link q s
        by_round none r e k = absurd (cc)
        by_round (some u) r e k = k u e ∙ one-other f q s u spares r

    each-IsInstalled :
        (fs : List Bytes) (s t : S)
        → AreApart fs
        → install_each files me fs s ≡ some t
        → All (IsInstalled me t) fs
    unfolding install_each
    each-IsInstalled [] s t apart e = tt
    each-IsInstalled (f ∷ fs) s t (spared, apart) e =
        by_round (install_one files me f s) refl e (λ u. each-IsInstalled fs u t apart)
      where
        by_round :
            (o : Option S)
            → install_one files me f s ≡ o
            → and_rest files me (install_each files me fs) o ≡ some t
            → ((u : S) → install_each files me fs u ≡ some t → All (IsInstalled me t) fs)
            → All (IsInstalled me t) (f ∷ fs)
        by_round none r e k = absurd (cc)
        by_round (some u) r e k = (
          subst (λ l. (equal me f || is_me files me l) ≡ true) (sym (each-other f fs u t spared e))
              (one-IsInstalled f s u r),
          k u e,
        )

equal-append : (b x y : Bytes) → equal (b ++ x) (b ++ y) ≡ equal x y
unfolding equal
equal-append [] x y = refl
equal-append (c ∷ b) x y = ground (arith, equal-append b x y)

-- Whether a name is neither one of some others nor the old name of one.
abbrev is_spared : Bytes → List Bytes → Bool
is_spared x [] = true
is_spared x (y ∷ ys) = not (equal x y) && (not (equal x (y ++ codes ".old")) && is_spared x ys)

abbrev are_apart : List Bytes → Bool
are_apart [] = true
are_apart (x ∷ xs) = is_spared x xs && are_apart xs

and-true : (a b : Bool) → (a && b) ≡ true → (a ≡ true) × (b ≡ true)
and-true true b e = (refl, e)
and-true false b e = absurd (cc)

not-true : (b : Bool) → not b ≡ true → b ≡ false
not-true true e = absurd (cc)
not-true false e = refl

module _ {S : Type 0} (files : Files S) (ok : IsFiles files) (me : Bytes) where
  Spares-append :
      (b x y : Bytes)
      → equal y x ≡ false
      → equal y (x ++ codes ".old") ≡ false
      → Spares (b ++ x) (b ++ y)
  Spares-append b x y apart apart' = (
    equal-append b y x ∙ apart,
    ap (equal (b ++ y)) (append_assoc b x (codes ".old"))
        ∙ equal-append b y (x ++ codes ".old")
        ∙ apart',
  )

  Spares-map :
      (b x : Bytes) (xs : List Bytes)
      → is_spared x xs ≡ true
      → All (λ g. Spares g (b ++ x)) (map (λ f. b ++ f) xs)
  Spares-map b x [] e = tt
  Spares-map b x (y ∷ ys) e =
      let (other, rest) = and-true _ _ e in
      let (other', spared) = and-true _ _ rest in
      (Spares-append b y x (not-true _ other) (not-true _ other'), Spares-map b x ys spared)

  AreApart-map :
      (b : Bytes) (xs : List Bytes) → are_apart xs ≡ true → AreApart (map (λ f. b ++ f) xs)
  AreApart-map b [] e = tt
  AreApart-map b (x ∷ xs) e =
      let (spared, apart) = and-true _ _ e in (Spares-map b x xs spared, AreApart-map b xs apart)

  -- Where `install` does not fail, each of the seven names, in the directory of PATH that it takes, is
  -- then a link to the program, or is the program itself.
  pub install-IsInstalled :
      (has_string : List Bytes → Bytes → Bool) (fp : List Bytes) (s t : S)
      → install files me has_string fp s ≡ some t
      → All (IsInstalled files me t) (map (λ f. base_path has_string fp ++ f) programs)
  unfolding install equal
  install-IsInstalled has_string fp s t e =
      each-IsInstalled files ok me (map (λ f. base_path has_string fp ++ f) programs) s t
        (AreApart-map (base_path has_string fp) programs refl) e
