-- ===== src/Daemons/Link/Rules.antt =====
-- Rules for statements that do not return early: from one property of the system to another.
use docker_systemd.Base.{
  ◌≡◌, refl, sym, subst, Bool, true, false, Bytes, Option, none, some, if◌then◌else◌,
}
use docker_systemd.Definition.{Definition}
use docker_systemd.Daemon.State.{Daemon, System, find}
use docker_systemd.Daemon.Flow.{
  Flow, next, returned, panicked, deadlocked, no_fuel, M, pure, panic, deadlock, continue, ◌>>=◌,
  get, read, read_result, defined, acquired, lock,
}

-- The statement goes on in a system with `Q`, or the program stops there.
pub data Leads {A : Type 0} (Q : System → Type 0) : Flow A → Type 0 where
  goes_on : {a : A} {s : System} → Q s → Leads Q (next a s)
  crashes : Leads Q panicked
  blocks : Leads Q deadlocked

pub record Reaches {A : Type 0} (P Q : System → Type 0) (m : M A) : Type 0 where
  pub at : (s : System) → P s → Leads Q (m s)

Leads-continue :
    {A B : Type 0} {P Q : System → Type 0} (r : Flow A) (f : A → M B)
    → Leads P r
    → ((a : A) → Reaches P Q (f a))
    → Leads Q (continue r f)
Leads-continue (next a s) f (goes_on h) k = (k a).at s h
Leads-continue (returned x s) f h k = elim h [ ]
Leads-continue panicked f crashes k = crashes
Leads-continue deadlocked f blocks k = blocks
Leads-continue no_fuel f h k = elim h [ ]

-- Two properties that hold behind a statement hold together.
pub Leads-both :
    {A : Type 0} {P Q : System → Type 0} (r : Flow A)
    → Leads P r
    → Leads Q r
    → Leads (λ s. P s × Q s) r
Leads-both (next a s) (goes_on h) (goes_on k) = goes_on (h, k)
Leads-both (returned x s) h k = elim h [ ]
Leads-both panicked h k = crashes
Leads-both deadlocked h k = blocks
Leads-both no_fuel h k = elim h [ ]

pub reach_then :
    {A B : Type 0} {P Q R : System → Type 0} {m : M A} {f : A → M B}
    → Reaches P Q m
    → ((a : A) → Reaches Q R (f a))
    → Reaches P R (m >>= f)
unfolding ◌>>=◌
reach_then {m} {f} h k = record { at = λ s p. Leads-continue (m s) f (h.at s p) k }

module _ {P Q : System → Type 0} where
  pub reach_pure : {A : Type 0} (a : A) → ((s : System) → P s → Q s) → Reaches P Q (pure a)
  unfolding pure
  reach_pure a h = record { at = λ s p. goes_on (h s p) }

  -- What the property says of values that do not change may be used.
  pub reach_fact :
      {A : Type 0} {m : M A} (F : Type 0)
      → ((s : System) → P s → F)
      → (F → Reaches P Q m)
      → Reaches P Q m
  reach_fact F fact k = record { at = λ s p. (k (fact s p)).at s p }

  pub reach_get :
      {A B : Type 0} (f : System → A) {k : A → M B}
      → ((a : A) → Reaches (λ s. P s × (f s ≡ a)) Q (k a))
      → Reaches P Q (get f >>= k)
  unfolding get ◌>>=◌
  reach_get f k = record { at = λ s p. (k (f s)).at s (p, refl) }

  pub reach_read :
      {B : Type 0} (n : Bytes) {k : Daemon → M B}
      → ((d : Daemon) → Reaches (λ s. P s × (find n s.list ≡ some d)) Q (k d))
      → Reaches P Q (read n >>= k)
  unfolding read ◌>>=◌
  reach_read {B} n {k} h = record { at = λ s p. found s p (find n s.list) refl }
    where
      found :
          (s : System) (p : P s) (o : Option Daemon)
          → find n s.list ≡ o
          → Leads Q (continue (read_result o s) k)
      found s p none e = crashes
      found s p (some d) e = (h d).at s (p, e)

  pub reach_defined :
      {B : Type 0} (o : Option Definition) {k : Definition → M B}
      → ((def : Definition) → o ≡ some def → Reaches P Q (k def))
      → Reaches P Q (defined o >>= k)
  unfolding ◌>>=◌ panic pure
  reach_defined none h = record { at = λ s p. crashes }
  reach_defined (some def) h = record { at = λ s p. (h def refl).at s p }

module _ {P : System → Type 0} where
  reach_acquired : (d : Daemon) → Reaches P P (acquired d)
  unfolding deadlock pure
  reach_acquired d = record { at = λ s p. opened d.held s p }
    where
      opened : (b : Bool) (s : System) → P s → Leads P ((if b then deadlock else pure d) s)
      opened true s p = blocks
      opened false s p = goes_on p

  pub reach_lock : (n : Bytes) → Reaches P P (lock n)
  unfolding lock
  reach_lock n = reach_read n λ d. record { at = λ s p. (reach_acquired d).at s p.0 }

pub Leads-weaken :
    {A : Type 0} {P Q : System → Type 0} (r : Flow A)
    → Leads P r
    → ((s : System) → P s → Q s)
    → Leads Q r
Leads-weaken (next a s) (goes_on h) k = goes_on (k s h)
Leads-weaken (returned x s) h k = elim h [ ]
Leads-weaken panicked h k = crashes
Leads-weaken deadlocked h k = blocks
Leads-weaken no_fuel h k = elim h [ ]

-- The statement goes on.
pub data Ends {A : Type 0} (Q : System → Type 0) : Flow A → Type 0 where
  ends : (a : A) (s : System) → Q s → Ends Q (next a s)

pub record Runs {A : Type 0} (P Q : System → Type 0) (m : M A) : Type 0 where
  pub at : (s : System) → P s → Ends Q (m s)

pub run_then :
    {A B : Type 0} {P Q R : System → Type 0} {m : M A} {f : A → M B}
    → Runs P Q m
    → ((a : A) → Runs Q R (f a))
    → Runs P R (m >>= f)
unfolding ◌>>=◌
run_then {A} {B} {P} {Q} {R} {m} {f} h k = record { at = λ s p. continued (m s) (h.at s p) }
  where
    continued : (r : Flow A) → Ends Q r → Ends R (continue r f)
    continued (next _ _) (ends a s q) = (k a).at s q
    continued (returned _ _) h = elim h [ ]
    continued panicked h = elim h [ ]
    continued deadlocked h = elim h [ ]
    continued no_fuel h = elim h [ ]

module _ {P Q : System → Type 0} where
  pub run_pure : {A : Type 0} (a : A) → ((s : System) → P s → Q s) → Runs P Q (pure a)
  unfolding pure
  run_pure a h = record { at = λ s p. ends a s (h s p) }

  pub run_get :
      {A B : Type 0} (f : System → A) {k : A → M B}
      → ((a : A) → Runs (λ s. P s × (f s ≡ a)) Q (k a))
      → Runs P Q (get f >>= k)
  unfolding get ◌>>=◌
  run_get f k = record { at = λ s p. (k (f s)).at s (p, refl) }

  pub run_read :
      {B : Type 0} (n : Bytes) {k : Daemon → M B}
      → ((s : System) → P s → (d : Daemon) × (find n s.list ≡ some d))
      → ((d : Daemon) → Runs (λ s. P s × (find n s.list ≡ some d)) Q (k d))
      → Runs P Q (read n >>= k)
  unfolding read ◌>>=◌
  run_read {B} n {k} there h = record {
    at = λ s p.
        let (d, e) = there s p in
        subst (λ o. Ends Q (continue (read_result o s) k)) (sym e) ((h d).at s (p, e));
  }

  pub run_defined :
      {B : Type 0} (o : Option Definition) {k : Definition → M B}
      → ((s : System) → P s → (def : Definition) × (o ≡ some def))
      → ((def : Definition) → o ≡ some def → Runs P Q (k def))
      → Runs P Q (defined o >>= k)
  unfolding ◌>>=◌ panic pure
  run_defined none there h = record { at = λ s p. let e = (there s p).1 in absurd (cc) }
  run_defined (some def) there h = record { at = λ s p. (h def refl).at s p }

pub run_lock :
    {P Q : System → Type 0} {B : Type 0} (n : Bytes) {k : Daemon → M B}
    → ((s : System) → P s → (d : Daemon) × (find n s.list ≡ some d) × (d.held ≡ false))
    → ((d : Daemon) → Runs (λ s. P s × (find n s.list ≡ some d)) Q (k d))
    → Runs P Q (lock n >>= k)
unfolding lock deadlock pure read ◌>>=◌
run_lock {P} {Q} n {k} free h = record {
  at = λ s p.
      let (d, e, unheld) = free s p in
      subst (λ o. Ends Q (continue (continue (read_result o s) acquired) k)) (sym e)
        (subst (λ b. Ends Q (continue ((if b then deadlock else pure d) s) k)) (sym unheld)
          ((h d).at s (p, e)));
}
