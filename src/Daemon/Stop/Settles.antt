-- ===== src/Daemon/Stop/Settles.antt =====
-- systemd/daemons/daemon.go, `Stop`: the state of the service behind it, also when it fails.
use docker_systemd.Base.{
  ◌≡◌, refl, sym, ap, ◌∙◌, subst, Bool, true, false, not, ◌||◌, Bytes, Option, none, some,
  if◌then◌else◌,
}
use mathlib.Core.Option
use docker_systemd.Text.Laws.{equal_self}
use docker_systemd.Daemon.State.{
  DaemonState, stopped, stopping, Fault, is_masked, log_not_opened, Daemon, System, find, update,
}
use docker_systemd.Daemon.Flow.{
  Flow, next, returned, panicked, deadlocked, no_fuel, pure, return, deadlock, continue, ◌>>=◌,
  as_value, call, get, read, read_result, modify, tick, acquired, lock,
}
use docker_systemd.Daemon.Host.{Host, new_logger}
use docker_systemd.Daemon.Keeps.{find-update, Holds, went_on, crashed, blocked}
use docker_systemd.Daemon.Stop.{
  is_restarting, set_state, set_error, stop_enter, stop_commands, stop_finish, stop,
}
use docker_systemd.Daemon.Stop.Outcome.{Done, IsStopped, stop_rest-Done}
use docker_systemd.Daemon.Stop.Outcome.Ends.{Leaves, goes_on, refuses, Leaves.crashed}

abbrev pub is_down : DaemonState → Bool
is_down stopped = true
is_down stopping = true
is_down _ = false

-- The service, if there is one, is masked or stopped or stopping.
abbrev pub Settled : Bytes → System → Type 0
Settled name s = (d : Daemon) → find name s.list ≡ some d → (d.masked || is_down d.state) ≡ true

-- A statement goes on with `Q`, or returns with the service settled, or the program stops there.
data Leads {A : Type 0} (name : Bytes) (Q : A → System → Type 0) : Flow A → Type 0 where
  leads : {a : A} {s : System} → Q a s → Leads name Q (next a s)
  settles : {r : Option Fault} {s : System} → Settled name s → Leads name Q (returned r s)
  falls : Leads name Q panicked
  waits : Leads name Q deadlocked

module _ (host : Host) (name : Bytes) where
  and_on :
      {A B : Type 0} {Q : A → System → Type 0} {Q' : B → System → Type 0} (r : Flow A)
      (f : A → System → Flow B)
      → Leads name Q r
      → ((a : A) (s : System) → Q a s → Leads name Q' (f a s))
      → Leads name Q' (continue r f)
  and_on (next a s) f (leads q) k = k a s q
  and_on (returned r s) f (settles h) k = settles h
  and_on panicked f falls k = falls
  and_on deadlocked f waits k = waits
  and_on no_fuel f h k = elim h [ ]

  abbrev Found : Daemon → System → Type 0
  Found d s = find name s.list ≡ some d

  lock-Leads : (s : System) → Leads name Found (lock name s)
  unfolding lock ◌>>=◌ read deadlock pure
  lock-Leads s = by_found (find name s.list) refl
    where
      by_held :
          (d : Daemon) (b : Bool)
          → Found d s
          → Leads name Found ((if b then deadlock else pure d) s)
      by_held d true e = waits
      by_held d false e = leads e

      by_found :
          (o : Option Daemon)
          → find name s.list ≡ o
          → Leads name Found (continue (read_result o s) acquired)
      by_found none e = falls
      by_found (some d) e = by_held d d.held e

  masked-Leads :
      (d : Daemon) (s : System)
      → Found d s
      → Leads name
          (λ _ t. Found d t)
          ((if d.masked then return {A = Unit} (some is_masked) else pure tt) s)
  unfolding return pure
  masked-Leads d s e = by_test d.masked refl
    where
      by_test :
          (b : Bool)
          → d.masked ≡ b
          → Leads name
              (λ _ t. Found d t)
              ((if b then return {A = Unit} (some is_masked) else pure tt) s)
      by_test true m = settles λ d' e'.
          let same : d ≡ d' = Option.some-injective _ _ (sym e ∙ e') in
          rw (sym (ap Daemon.masked same) ∙ m) refl
      by_test false m = leads e

  abbrev IsQuiet : Daemon → Type 0
  IsQuiet d = (d.masked || is_down d.state) ≡ true

  Settled-modify :
      {P : Daemon → Type 0} (f : Daemon → Daemon) (s : System)
      → ((d : Daemon) → P d → IsQuiet (f d))
      → ((d : Daemon) → Found d s → P d)
      → Settled name (record s { list = update name f s.list })
  Settled-modify {P} f s k h d e = by_found (find name s.list) h (sym found ∙ e)
    where
      found : find name (update name f s.list) ≡ Option.map f (find name s.list)
      found = rw (find-update name name f s.list, equal_self name) refl

      by_found :
          (o : Option Daemon)
          → ((d : Daemon) → o ≡ some d → P d)
          → Option.map f o ≡ some d
          → IsQuiet d
      by_found none h e = absurd (cc)
      by_found (some old) h e = subst IsQuiet (Option.some-injective _ _ e) (k old (h old refl))

  stopping-IsQuiet : (d : Daemon) → IsQuiet (set_state stopping d)
  stopping-IsQuiet d = by_mask d.masked
    where
      by_mask : (b : Bool) → (b || true) ≡ true
      by_mask true = refl
      by_mask false = refl

  set_stopping-Leads :
      (d : Daemon) (s : System)
      → Leads name
          (λ _ t. Settled name t)
          ((if not (is_restarting d.state) || true
              then modify name (set_state stopping)
              else pure tt)
            s)
  unfolding modify
  set_stopping-Leads d s = by_test (is_restarting d.state)
    where
      set : Leads name (λ _ t. Settled name t) (modify name (set_state stopping) s)
      set = leads (
          Settled-modify {P = λ d. Unit} (set_state stopping) s (λ d _. stopping-IsQuiet d)
            (λ d e. tt))

      by_test :
          (b : Bool)
          → Leads name
              (λ _ t. Settled name t)
              ((if not b || true then modify name (set_state stopping) else pure tt) s)
      by_test true = set
      by_test false = set

  logger-Leads :
      (s : System)
      → Settled name s
      → Leads name (λ opened t. Settled name t) (new_logger host name s)
  unfolding new_logger ◌>>=◌ tick get pure
  logger-Leads s h = leads h

  opened-Leads :
      (opened : Bool) (s : System)
      → Settled name s
      → Leads name
          (λ _ t. Unit)
          ((if opened
              then pure tt
              else (modify name (set_error (some log_not_opened)) >>= λ _.
                  return (some log_not_opened)))
            s)
  unfolding modify return pure ◌>>=◌
  opened-Leads true s h = leads tt
  opened-Leads false s h =
      settles (Settled-modify (set_error (some log_not_opened)) s (λ d quiet. quiet) h)

  enter-Leads : (s : System) → Leads name (λ _ t. Unit) (stop_enter host name true s)
  unfolding stop_enter ◌>>=◌
  enter-Leads s = and_on _ _ (lock-Leads s) λ d s e. and_on _ _ (masked-Leads d s e) λ _ s e.
      and_on _ _ (set_stopping-Leads d s)
        λ _ s h. and_on _ _ (logger-Leads s h) λ opened s h. opened-Leads opened s h

  IsStopped-Settled : (s : System) → IsStopped name s → Settled name s
  IsStopped-Settled s h d e = by_mask d.masked (h d e)
    where
      by_mask : (b : Bool) → d.state ≡ stopped → (b || is_down d.state) ≡ true
      by_mask true e = refl
      by_mask false e = ap is_down e

  -- No error is left for a function that has returned none.
  abbrev Never : Fault → Type 0
  Never e = true ≡ false

  rest-Settled :
      (r : Flow (Option Fault)) → Leaves Never (Done name) r → Holds (Settled name) (as_value r)
  rest-Settled (next none s) (goes_on h) = went_on (IsStopped-Settled s h.1)
  rest-Settled (next (some e) s) (goes_on h) = went_on (IsStopped-Settled s h.1)
  rest-Settled (returned (some e) s) (refuses h) = absurd (cc)
  rest-Settled (returned none s) h = elim h [ ]
  rest-Settled panicked h = crashed
  rest-Settled deadlocked h = blocked
  rest-Settled no_fuel h = elim h [ ]

  -- `Stop` ends, unless it dereferences nil or locks a mutex that its goroutine holds, and then its
  -- service is stopped or stopping, unless it is masked.
  pub stop-Settled : (s : System) → Holds (Settled name) (stop host name true s)
  unfolding stop call ◌>>=◌
  stop-Settled s = by_entry (stop_enter host name true s) (enter-Leads s)
    where
      by_entry :
          (r : Flow (Unit {0}))
          → Leads name (λ _ t. Unit) r
          → Holds
              (Settled name)
              (as_value (continue r (λ _. stop_commands host name >>= λ _. stop_finish host name)))
      by_entry (next a t) h = rest-Settled _ ((stop_rest-Done host name).at t)
      by_entry (returned r t) (settles h) = went_on h
      by_entry panicked h = crashed
      by_entry deadlocked h = blocked
      by_entry no_fuel h = elim h [ ]
