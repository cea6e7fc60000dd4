-- ===== src/Daemon/Flow.antt =====
-- Go functions over the state: sequencing, early `return`, nil dereferences, and locks.
use docker_systemd.Base.{ℕ, ◌+◌, ◌∷◌, Bytes, Option, none, some, if◌then◌else◌}
use docker_systemd.Definition.{Definition}
use docker_systemd.Daemon.State.{Fault, Daemon, Event, System, find, update}

-- How a statement ends: it goes on, it returns from the function, it dereferences nil, it waits for
-- a mutex that its own goroutine holds, or the bound on the depth of calls is used up.
pub data Flow (A : Type 0) : Type 0 where
  next : A → System → Flow A
  returned : Option Fault → System → Flow A
  panicked deadlocked no_fuel : Flow A

abbrev pub M : Type 0 → Type 0
M A = System → Flow A

unfoldable pub pure : {A : Type 0} → A → M A
pure a s = next a s

unfoldable pub return : {A : Type 0} → Option Fault → M A
return r s = returned r s

unfoldable pub panic : {A : Type 0} → M A
panic s = panicked

unfoldable pub deadlock : {A : Type 0} → M A
deadlock s = deadlocked

unfoldable pub out_of_fuel : {A : Type 0} → M A
out_of_fuel s = no_fuel

module _ {A B : Type 0} where
  abbrev pub continue : Flow A → (A → M B) → Flow B
  continue (next a s) f = f a s
  continue (returned r s) f = returned r s
  continue panicked f = panicked
  continue deadlocked f = deadlocked
  continue no_fuel f = no_fuel

  infixl 5 ◌>>=◌ ◌>>◌
  unfoldable pub ◌>>=◌ : M A → (A → M B) → M B
  unfolding pure return panic deadlock out_of_fuel
  ◌>>=◌ m f s = continue (m s) f

  abbrev pub ◌>>◌ : M A → M B → M B
  m >> k = m >>= λ _. k

-- A call: what the body returns is the value of the call.
abbrev pub as_value : Flow (Option Fault) → Flow (Option Fault)
as_value (next r s) = next r s
as_value (returned r s) = next r s
as_value panicked = panicked
as_value deadlocked = deadlocked
as_value no_fuel = no_fuel

unfoldable pub call : M (Option Fault) → M (Option Fault)
call body s = as_value (body s)

unfoldable pub get : {A : Type 0} → (System → A) → M A
get f s = next (f s) s

-- The daemon behind a pointer.
abbrev pub read_result : Option Daemon → System → Flow Daemon
read_result none s = panicked
read_result (some d) s = next d s

unfoldable pub read : Bytes → M Daemon
read name s = read_result (find name s.list) s

unfoldable pub modify : Bytes → (Daemon → Daemon) → M (Unit {0})
modify name f s = next tt (record s { list = update name f s.list })

unfoldable pub emit : Event → M (Unit {0})
emit e s = next tt (record s { trace = e ∷ s.trace })

-- The number of the next call to the outside.
unfoldable pub tick : M ℕ
tick s = next s.clock (record s { clock = s.clock + 1 })

-- `time.Sleep`
unfoldable pub sleep : ℕ → M (Unit {0})
sleep n s = next tt (record s { slept = s.slept + n })

-- `d.def.…`
abbrev pub defined : Option Definition → M Definition
defined none = panic
defined (some def) = pure def

abbrev pub acquired : Daemon → M Daemon
acquired d = if d.held then deadlock else pure d

-- `d.Lock()`, with the daemon as the section behind it sees it.
unfoldable pub lock : Bytes → M Daemon
lock name = read name >>= acquired

unfoldable pub lock_def : Bytes → M Definition
lock_def name = lock name >>= λ d. defined d.def

-- What opens every statement in a proof by computation.
unfoldable pub statements : Unit {0}
unfolding ◌>>=◌ call get read modify emit tick sleep lock lock_def
statements = tt
