-- ===== src/Commands.antt =====
-- systemd/command.go: the commands of `systemctl`, as the daemon runs them. The interfaces `Daemons`
-- and `Daemon` (systemd/daemons/def.go) and the parser of the arguments are parameters.
pub mod Handlers
pub mod Dispatch
pub mod Spec
pub mod Loops
pub mod Served
pub mod Refused
mod Tests
use docker_systemd.Base.{
  ℕ, Bool, true, false, ◌||◌, List, [], ◌∷◌, ◌++◌, Bytes, Option, none, some, if◌then◌else◌,
}
use docker_systemd.Text.{codes, equal, has_prefix, trim_suffix, split, join, contains}

-- What the commands with a list of services do to each of them.
pub data Action : Type 0 where
  enabling disabling starting stopping restarting reloading masking unmasking : Action

pub data Lookup (D : Type 0) : Type 0 where
  found : D → Lookup D
  missing : Bytes → Lookup D

-- `Daemons` and `Daemon`, with the system in the state `S` and daemons as values of `D`. An error is
-- its text. `booted` says that the variable `d` is set.
pub record Services (S D : Type 0) : Type 0 where
  pub booted : S → Bool
  pub find : Bytes → S → Lookup D × S
  pub list : S → List Bytes
  pub reload : S → Option Bytes × S
  pub name : D → Bytes
  pub act : Action → D → S → Option Bytes × S
  pub create_instance : Bytes → D → S → Option Bytes × S
  pub delete_service : D → S → Option Bytes × S
  pub status : D → S → Bytes × Option Bytes
  pub detail : D → S → Bytes
  pub is_enabled : D → S → Bool
  pub set_env : Bytes → Bytes → S → S
  pub unset_env : Bytes → S → S
  pub power_off : S → S

-- The system, and what has been written to the connection.
pub record Session (S : Type 0) : Type 0 where
  pub sys : S
  pub out : Bytes

-- What `Execute` returns: nil, a `cmdResponse`, or another error.
pub data Reply : Type 0 where
  nothing : Reply
  response : (message : Bytes) (is_error : Bool) → Reply
  failure : Bytes → Reply

-- A statement of a handler goes on, returns from the handler, or panics.
pub data Turn (S A : Type 0) : Type 0 where
  goes : A → Session S → Turn S A
  answers : Reply → Session S → Turn S A
  panics : Turn S A

abbrev pub Handler : Type 0 → Type 0 → Type 0
Handler S A = Session S → Turn S A

module _ {S A B : Type 0} where
  abbrev pub continue : Turn S A → (A → Handler S B) → Turn S B
  continue (goes a s) f = f a s
  continue (answers r s) f = answers r s
  continue panics f = panics

  infixl 5 ◌>>=◌ ◌>>◌
  unfoldable pub ◌>>=◌ : Handler S A → (A → Handler S B) → Handler S B
  (m >>= f) s = continue (m s) f

  unfoldable pub ◌>>◌ : Handler S A → Handler S B → Handler S B
  (m >> k) s = continue (m s) (λ _. k)

module _ {S : Type 0} where
  unfoldable pub pure : {A : Type 0} → A → Handler S A
  pure a s = goes a s

  unfoldable pub answer : {A : Type 0} → Reply → Handler S A
  answer r s = answers r s

  unfoldable pub panic : {A : Type 0} → Handler S A
  panic s = panics

  abbrev pub called : {A : Type 0} → A × S → Bytes → Turn S A
  called r out = goes r.0 (record { sys = r.1; out = out })

  unfoldable pub call : {A : Type 0} → (S → A × S) → Handler S A
  call f s = called (f s.sys) s.out

  unfoldable pub get : {A : Type 0} → (S → A) → Handler S A
  get f s = goes (f s.sys) s

  -- `c.Conn.Printf`
  unfoldable pub print : Bytes → Handler S (Unit {0})
  print text s = goes tt (record s { out = s.out ++ text })

-- `errors.New("service name not provided; …")`
abbrev pub usage : Bytes
usage = codes "service name not provided; usage: systemctl command servicename"

abbrev pub newline : Bytes
newline = 10 ∷ []

-- What `findDaemons` returns.
pub data Found (D : Type 0) : Type 0 where
  all : List D → Found D
  not_all : Bytes → Found D

module _ {S D : Type 0} (services : Services S D) where
  -- A method of `d`, which dereferences nil as long as the services are being loaded.
  unfoldable pub on_d : {A : Type 0} → (S → A × S) → Handler S A
  on_d f = do b ← get services.booted; if b then call f else panic

  abbrev pub add_found : Bytes → Lookup D → Handler S (Found D) → Handler S (Found D)
  add_found service (missing e) more = pure (not_all (service ++ (codes ": " ++ e)))
  add_found service (found d) more = do
    rest ← more
    elim rest [ all ds ↦ pure (all (d ∷ ds)) | not_all e ↦ pure (not_all e) ]

  -- The loop of `findDaemons`.
  unfoldable pub find_each : List Bytes → Handler S (Found D)
  find_each [] = pure (all [])
  find_each (name ∷ names) = do
    look ← call (services.find (trim_suffix name (codes ".service")))
    add_found (trim_suffix name (codes ".service")) look (find_each names)

  unfoldable pub find_daemons : List Bytes → Handler S (Found D)
  find_daemons [] = pure (not_all usage)
  find_daemons (name ∷ names) = do
    b ← get services.booted
    if b then find_each (name ∷ names) else pure (all [])

  -- `ds, err := findDaemons(args)` with the return on an error.
  abbrev pub or_answer : Found D → Handler S (List D)
  or_answer (all ds) = pure ds
  or_answer (not_all e) = answer (response e true)

  unfoldable pub daemons_of : List Bytes → Handler S (List D)
  daemons_of args = find_daemons args >>= or_answer

  -- `return MakeResponse(err.Error(), true)` where there is an error.
  abbrev pub or_error : Bytes → Option Bytes → Handler S (Unit {0})
  or_error prefix none = pure tt
  or_error prefix (some e) = answer (response (prefix ++ e) true)

  abbrev pub label : Action → Bytes
  label enabling = codes "Enabling "
  label disabling = codes "Disabling "
  label starting = codes "Starting "
  label stopping = codes "Stopping "
  label restarting = codes "Restarting "
  label reloading = codes "Reloading "
  label masking = codes "Masking "
  label unmasking = codes "Unmasking "

  -- The end of one round of the loop over the daemons.
  abbrev pub report_act : D → Option Bytes → Handler S (Unit {0})
  report_act d none = print (codes "OK" ++ newline)
  report_act d (some e) = do
    print (codes "FAIL" ++ newline)
    answer (response (services.name d ++ (codes ": " ++ e)) true)

  unfoldable pub each : Action → List D → Handler S (Unit {0})
  each action [] = pure tt
  each action (d ∷ ds) = do
    print (label action ++ (services.name d ++ codes " ... "))
    err ← call (services.act action d)
    report_act d err
    each action ds

  -- The `Execute` of disable, stop, restart, reload, mask and unmask.
  unfoldable pub execute_each : Action → List Bytes → Handler S Reply
  execute_each action args = do ds ← daemons_of args; each action ds; pure nothing

-- What opens the statements of a handler in a proof by computation.
unfoldable pub statements : Unit {0}
unfolding ◌>>=◌ ◌>>◌ pure answer panic call get print
statements = tt
