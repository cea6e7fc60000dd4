-- ===== src/Daemon/Keeps/Upkeep.antt =====
-- Properties of the system that the statements of `stop` (systemd/daemons/daemon.go) may keep: what is
-- asked of one, and the rules that need no more of it.
use docker_systemd.Base.{ℕ, ◌≡◌, Bool, true, false, Bytes, Option, none, some, if◌then◌else◌}
use docker_systemd.Definition.{Definition}
use docker_systemd.Daemon.State.{Daemon, Event, System, find, ran, sent_term, sent_kill, sent_hup}
use docker_systemd.Daemon.Flow.{
  pure, deadlock, continue, ◌>>=◌, read, read_result, modify, emit, tick, sleep, defined, acquired,
  lock, lock_def,
}
use docker_systemd.Daemon.Keeps.Rules.{
  Holds, went_on, crashed, blocked, Keeps, Keeps-pure, Keeps-panic, and_then,
}

-- What is done for a service other than its start.
pub data IsUpkeep (name : Bytes) : Event → Type 0 where
  runs : {line : Bytes} → IsUpkeep name (ran name line)
  terminates : {pid : ℕ} → IsUpkeep name (sent_term name pid)
  kills : {pid : ℕ} → IsUpkeep name (sent_kill name pid)
  hangs_up : {pid : ℕ} → IsUpkeep name (sent_hup name pid)

-- `P` survives changes of the service `name` that leave its mask and its definition, upkeep of that
-- service, and the passing of time.
pub record Stable (P : System → Type 0) (name : Bytes) : Type 0 where
  pub changes :
      (f : Daemon → Daemon)
      → ((d : Daemon) → (f d).masked ≡ d.masked)
      → ((d : Daemon) → (f d).def ≡ d.def)
      → Keeps P (modify name f)
  pub upkeep : (e : Event) → IsUpkeep name e → Keeps P (emit e)
  pub ticks : Keeps P tick
  pub sleeps : (n : ℕ) → Keeps P (sleep n)

module _ {P : System → Type 0} where
  pub Keeps-any : (n : Bytes) → Keeps P (lock n)
  unfolding lock ◌>>=◌ read
  Keeps-any n = record { at = λ s h. found (find n s.list) s h }
    where
      held :
          (d : Daemon) (b : Bool) (s : System) → P s → Holds P ((if b then deadlock else pure d) s)
      held d b s h = opened b
        where
          opened : (b : Bool) → Holds P ((if b then deadlock else pure d) s)
          opened true = blocked
          opened false = went_on h

      found : (o : Option Daemon) (s : System) → P s → Holds P (continue (read_result o s) acquired)
      found none s h = crashed
      found (some d) s h = held d d.held s h

  pub Keeps-some_defined : (o : Option Definition) → Keeps P (defined o)
  Keeps-some_defined none = Keeps-panic
  Keeps-some_defined (some def) = Keeps-pure def

  pub Keeps-any_def : (n : Bytes) → Keeps P (lock_def n)
  unfolding lock_def
  Keeps-any_def n = and_then (Keeps-any n) λ d. Keeps-some_defined d.def
