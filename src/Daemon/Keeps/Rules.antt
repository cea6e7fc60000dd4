-- ===== src/Daemon/Keeps/Rules.antt =====
-- A rule for each way to put statements of `Flow` together: what keeps a property of the system.
use docker_systemd.Base.{◌≡◌, refl, sym, Bool, true, false, Option, if◌then◌else◌, subst}
use docker_systemd.Daemon.State.{Fault, System}
use docker_systemd.Daemon.Flow.{
  Flow, next, returned, panicked, deadlocked, no_fuel, M, pure, return, panic, continue, ◌>>=◌,
  as_value, call, get,
}

-- The statement ended, in a state that satisfies `P`, unless the program stopped.
pub data Holds {A : Type 0} (P : System → Type 0) : Flow A → Type 0 where
  went_on : {a : A} {s : System} → P s → Holds P (next a s)
  came_back : {r : Option Fault} {s : System} → P s → Holds P (returned r s)
  crashed : Holds P panicked
  blocked : Holds P deadlocked

pub record Keeps {A : Type 0} (P : System → Type 0) (m : M A) : Type 0 where
  pub at : (s : System) → P s → Holds P (m s)

continue_assoc :
    {A B C : Type 0} (r : Flow A) (f : A → M B) (g : B → M C)
    → continue (continue r f) g ≡ continue r (λ a. f a >>= g)
unfolding ◌>>=◌
continue_assoc (next a s) f g = refl
continue_assoc (returned x s) f g = refl
continue_assoc panicked f g = refl
continue_assoc deadlocked f g = refl
continue_assoc no_fuel f g = refl

module _ {P : System → Type 0} where
  pub Keeps-pure : {A : Type 0} (a : A) → Keeps P (pure a)
  unfolding pure
  Keeps-pure a = record { at = λ s h. went_on h }

  pub Keeps-return : {A : Type 0} (r : Option Fault) → Keeps P (return {A = A} r)
  unfolding return
  Keeps-return r = record { at = λ s h. came_back h }

  pub Keeps-panic : {A : Type 0} → Keeps P (panic {A = A})
  unfolding panic
  Keeps-panic = record { at = λ s h. crashed }

  pub Keeps-get : {A : Type 0} (f : System → A) → Keeps P (get f)
  unfolding get
  Keeps-get f = record { at = λ s h. went_on h }

  Holds-continue :
      {A B : Type 0} (r : Flow A) (f : A → M B)
      → Holds P r
      → ((a : A) → Keeps P (f a))
      → Holds P (continue r f)
  Holds-continue (next a s) f (went_on h) kf = (kf a).at s h
  Holds-continue (returned x s) f (came_back h) kf = came_back h
  Holds-continue panicked f crashed kf = crashed
  Holds-continue deadlocked f blocked kf = blocked
  Holds-continue no_fuel f h kf = elim h [ ]

  -- What goes on with any value keeps `P`.
  pub and_then :
      {A B : Type 0} {m : M A} {f : A → M B}
      → Keeps P m
      → ((a : A) → Keeps P (f a))
      → Keeps P (m >>= f)
  unfolding ◌>>=◌
  and_then {m} {f} km kf = record { at = λ s h. Holds-continue (m s) f (km.at s h) kf }

  pub Keeps-if :
      {A : Type 0} (b : Bool) {m n : M A}
      → (b ≡ true → Keeps P m)
      → (b ≡ false → Keeps P n)
      → Keeps P (if b then m else n)
  Keeps-if true km kn = km refl
  Keeps-if false km kn = kn refl

  -- A function's statements, followed by those behind its call.
  pub inline :
      {A B C : Type 0} (m : M A) (f : A → M B) (g : B → M C)
      → Keeps P (m >>= λ a. f a >>= g)
      → Keeps P ((m >>= f) >>= g)
  unfolding ◌>>=◌
  inline m f g k = record {
    at = λ s h. subst (Holds P) (sym (continue_assoc (m s) f g)) (k.at s h);
  }

  -- What stands behind a guard may use that the guard let it pass.
  pub Keeps-guard :
      {B : Type 0} (b : Bool) (r : Option Fault) (f : Unit {0} → M B)
      → (b ≡ false → Keeps P (f tt))
      → Keeps P ((if b then return r else pure tt) >>= f)
  unfolding ◌>>=◌ return pure
  Keeps-guard true r f k = record { at = λ s h. came_back h }
  Keeps-guard false r f k = record { at = λ s h. (k refl).at s h }

  Holds-as_value : (r : Flow (Option Fault)) → Holds P r → Holds P (as_value r)
  Holds-as_value (next a s) (went_on h) = went_on h
  Holds-as_value (returned x s) (came_back h) = went_on h
  Holds-as_value panicked crashed = crashed
  Holds-as_value deadlocked blocked = blocked
  Holds-as_value no_fuel h = elim h [ ]

  pub Keeps-call : {body : M (Option Fault)} → Keeps P body → Keeps P (call body)
  unfolding call
  Keeps-call {body} k = record { at = λ s h. Holds-as_value (body s) (k.at s h) }
