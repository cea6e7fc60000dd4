-- ===== src/Daemon/Keeps/Good.antt =====
-- The systems in which services call services of lower rank, and the rules for the statements that
-- read and change a service.
use docker_systemd.Base.{
  ℕ, ◌<◌, ◌≡◌, refl, sym, ◌∙◌, arith, Bool, true, false, List, [], ◌∷◌, Bytes, All, Option, none,
  some, if◌then◌else◌, Bool-cases, Option-cases, inl, inr, subst,
}
use mathlib.Core.Option
use docker_systemd.Text.{equal}
use docker_systemd.Text.Laws.{equal_iff}
use docker_systemd.Definition.{
  Definition, Relation, wants, requires, binds_to, upholds, on_failure, on_success, Links,
}
use docker_systemd.Daemon.State.{Daemon, Event, spawned, System, find, update}
use docker_systemd.Daemon.Flow.{
  M, pure, panic, deadlock, continue, ◌>>=◌, read, read_result, modify, emit, tick, sleep, defined,
  acquired, lock, lock_def,
}
use docker_systemd.Daemon.Keeps.Upkeep.{IsUpkeep, runs, terminates, kills, hangs_up, Stable}
use docker_systemd.Daemon.Keeps.Rules.{Holds, went_on, crashed, blocked, Keeps}

-- The relations along which `start` calls `start` of other services.
abbrev pub is_called : Relation → Bool
is_called wants = true
is_called requires = true
is_called binds_to = true
is_called upholds = true
is_called on_failure = true
is_called on_success = true
is_called _ = false

pub find-update :
    (k n : Bytes) (f : Daemon → Daemon) (l : List (Bytes × Daemon))
    → find k (update n f l) ≡ (if equal n k then Option.map f (find k l) else find k l)
find-update k n f [] = ground arith
find-update k n f ((m, d) ∷ l) =
    ground (arith, equal_iff m n, equal_iff m k, equal_iff n k, find-update k n f l)

module _ (rank : Bytes → ℕ) (mask : Bytes → Bool) where
  -- Every link goes to a service of lower rank.
  abbrev pub LinksBelow : ℕ → Links → Type 0
  LinksBelow bound [] = Unit
  LinksBelow bound ((n, none) ∷ links) = LinksBelow bound links
  LinksBelow bound ((n, some m) ∷ links) = (rank m < bound) × LinksBelow bound links

  abbrev pub IsRanked : Bytes → Definition → Type 0
  IsRanked n def = (r : Relation) → is_called r ≡ true → LinksBelow (rank n) (def.deps r)

  pub record Fits (n : Bytes) (d : Daemon) : Type 0 where
    pub masked_is : d.masked ≡ mask n
    pub ranked : (def : Definition) → d.def ≡ some def → IsRanked n def

  -- A command of `ExecStart` is run for services that are not masked only.
  abbrev pub IsAllowed : Event → Type 0
  IsAllowed (spawned n line) = mask n ≡ false
  IsAllowed _ = Unit

  pub record IsGood (s : System) : Type 0 where
    pub fits : (n : Bytes) (d : Daemon) → find n s.list ≡ some d → Fits n d
    pub allowed : All IsAllowed s.trace

Holds-acquired :
    {P : System → Type 0} {B : Type 0} (f : Daemon → M B) (d : Daemon) (b : Bool) (s : System)
    → P s
    → Keeps P (f d)
    → Holds P (continue ((if b then deadlock else pure d) s) f)
unfolding deadlock pure
Holds-acquired f d true s h k = blocked
Holds-acquired f d false s h k = k.at s h

module _ {rank : Bytes → ℕ} {mask : Bytes → Bool} {B : Type 0} {n : Bytes} where
  -- The daemon that is read fits.
  pub Keeps-read :
      {f : Daemon → M B}
      → ((d : Daemon) → Fits rank mask n d → Keeps (IsGood rank mask) (f d))
      → Keeps (IsGood rank mask) (read n >>= f)
  unfolding ◌>>=◌ read
  Keeps-read {f} kf = record { at = λ s h. go s h (find n s.list) refl }
    where
      go :
          (s : System) (h : IsGood rank mask s) (o : Option Daemon)
          → find n s.list ≡ o
          → Holds (IsGood rank mask) (continue (read_result o s) f)
      go s h none e = crashed
      go s h (some d) e = (kf d (h.fits n d e)).at s h

  -- So does the daemon behind a lock.
  pub Keeps-lock :
      {f : Daemon → M B}
      → ((d : Daemon) → Fits rank mask n d → Keeps (IsGood rank mask) (f d))
      → Keeps (IsGood rank mask) (lock n >>= f)
  unfolding ◌>>=◌ read lock
  Keeps-lock {f} kf = record { at = λ s h. go s h (find n s.list) refl }
    where
      go :
          (s : System) (h : IsGood rank mask s) (o : Option Daemon)
          → find n s.list ≡ o
          → Holds (IsGood rank mask) (continue (continue (read_result o s) acquired) f)
      go s h none e = crashed
      go s h (some d) e = Holds-acquired f d d.held s h (kf d (h.fits n d e))

  Holds-defined :
      {f : Definition → M B} (d : Daemon) (o : Option Definition) (s : System)
      → d.def ≡ o
      → IsGood rank mask s
      → Fits rank mask n d
      → ((def : Definition) → IsRanked rank mask n def → Keeps (IsGood rank mask) (f def))
      → Holds (IsGood rank mask) (continue (defined o s) f)
  unfolding panic pure
  Holds-defined d none s e h fits kf = crashed
  Holds-defined d (some def) s e h fits kf = (kf def (fits.ranked def e)).at s h

  pub Keeps-defined :
      {f : Definition → M B} (d : Daemon)
      → Fits rank mask n d
      → ((def : Definition) → IsRanked rank mask n def → Keeps (IsGood rank mask) (f def))
      → Keeps (IsGood rank mask) (defined d.def >>= f)
  unfolding ◌>>=◌
  Keeps-defined d fits kf = record { at = λ s h. Holds-defined d d.def s refl h fits kf }

  Holds-lock_def :
      (f : Definition → M B) (d : Daemon) (b : Bool) (s : System)
      → IsGood rank mask s
      → Fits rank mask n d
      → ((def : Definition) → IsRanked rank mask n def → Keeps (IsGood rank mask) (f def))
      → Holds
          (IsGood rank mask)
          (continue (continue ((if b then deadlock else pure d) s) (λ d. defined d.def)) f)
  unfolding deadlock pure
  Holds-lock_def f d true s h fits kf = blocked
  Holds-lock_def f d false s h fits kf = Holds-defined d d.def s refl h fits kf

module _ {rank : Bytes → ℕ} {mask : Bytes → Bool} {B : Type 0} (n : Bytes) where
  -- The definition behind a lock is ranked.
  pub Keeps-lock_def :
      {f : Definition → M B}
      → ((def : Definition) → IsRanked rank mask n def → Keeps (IsGood rank mask) (f def))
      → Keeps (IsGood rank mask) (lock_def n >>= f)
  unfolding ◌>>=◌ read lock lock_def
  Keeps-lock_def {f} kf = record { at = λ s h. go s h (find n s.list) refl }
    where
      go :
          (s : System) (h : IsGood rank mask s) (o : Option Daemon)
          → find n s.list ≡ o
          → Holds
              (IsGood rank mask)
              (continue (continue (continue (read_result o s) acquired) (λ d. defined d.def)) f)
      go s h none e = crashed
      go s h (some d) e = Holds-lock_def f d d.held s h (h.fits n d e) kf

module _ (rank : Bytes → ℕ) (mask : Bytes → Bool) where
  IsAllowed-upkeep : (n : Bytes) (e : Event) → IsUpkeep n e → IsAllowed rank mask e
  IsAllowed-upkeep n _ runs = tt
  IsAllowed-upkeep n _ terminates = tt
  IsAllowed-upkeep n _ kills = tt
  IsAllowed-upkeep n _ hangs_up = tt

module _ {rank : Bytes → ℕ} {mask : Bytes → Bool} where
  update-Fits :
      (s : System) (n : Bytes) (f : Daemon → Daemon) (k : Bytes) (d : Daemon)
      → IsGood rank mask s
      → ((d : Daemon) → Fits rank mask n d → Fits rank mask n (f d))
      → find k (update n f s.list) ≡ some d
      → Fits rank mask k d
  update-Fits s n f k d h kf e = elim (Bool-cases (equal n k)) [
    | inr other ↦ h.fits k d (ground (arith, find-update k n f s.list))
    | inl same ↦ elim (Option-cases (find k s.list)) [
      | inl absent ↦ cc (find-update k n f s.list)
      | inr (old, found) ↦
          let name : n ≡ k = (equal_iff n k).0 same in
          let new : f old ≡ d = ground (arith, find-update k n f s.list) in
          subst (λ d. Fits rank mask k d) new
            (subst (λ m. Fits rank mask m (f old)) name
              (kf old (subst (λ m. Fits rank mask m old) (sym name) (h.fits k old found))))
    ]
  ]

  pub Keeps-modify :
      (n : Bytes) (f : Daemon → Daemon)
      → ((d : Daemon) → Fits rank mask n d → Fits rank mask n (f d))
      → Keeps (IsGood rank mask) (modify n f)
  unfolding modify
  Keeps-modify n f kf = record {
    at = λ s h.
        went_on (record { fits = λ k d e. update-Fits s n f k d h kf e; allowed = h.allowed });
  }

  pub Keeps-emit : (e : Event) → IsAllowed rank mask e → Keeps (IsGood rank mask) (emit e)
  unfolding emit
  Keeps-emit e ok = record {
    at = λ s h. went_on (record { fits = h.fits; allowed = (ok, h.allowed) });
  }

  pub Keeps-tick : Keeps (IsGood rank mask) tick
  unfolding tick
  Keeps-tick = record { at = λ s h. went_on (record { fits = h.fits; allowed = h.allowed }) }

  pub Keeps-sleep : (n : ℕ) → Keeps (IsGood rank mask) (sleep n)
  unfolding sleep
  Keeps-sleep n = record { at = λ s h. went_on (record { fits = h.fits; allowed = h.allowed }) }

  -- A change of neither the mask nor the definition.
  pub Keeps-set :
      (n : Bytes) (f : Daemon → Daemon)
      → ((d : Daemon) → (f d).masked ≡ d.masked)
      → ((d : Daemon) → (f d).def ≡ d.def)
      → Keeps (IsGood rank mask) (modify n f)
  Keeps-set n f m e = Keeps-modify n f λ d h. record {
    masked_is = m d ∙ h.masked_is;
    ranked = λ def p. h.ranked def (sym (e d) ∙ p);
  }

  pub IsGood-Stable : (n : Bytes) → Stable (IsGood rank mask) n
  IsGood-Stable n = record {
    changes = λ f m d. Keeps-set n f m d;
    upkeep = λ e u. Keeps-emit e (IsAllowed-upkeep rank mask n e u);
    ticks = Keeps-tick;
    sleeps = λ k. Keeps-sleep k;
  }
