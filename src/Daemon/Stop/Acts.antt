-- ===== src/Daemon/Stop/Acts.antt =====
-- systemd/daemons/daemon.go, `stop`: what it does to the outside, and what is asked of a property of
-- the system that it keeps.
use docker_systemd.Base.{
  ℕ, ◌≡◌, refl, ◌⊎◌, Bool, true, false, List, [], ◌∷◌, Bytes, Option, none, some, if◌then◌else◌,
}
use docker_systemd.Definition.{Definition}
use docker_systemd.Daemon.State.{Daemon, Event, System, find, ran, sent_term, sent_kill}
use docker_systemd.Daemon.Flow.{
  M, pure, panic, deadlock, continue, ◌>>=◌, read, read_result, modify, emit, tick, sleep, defined,
  acquired, lock, lock_def,
}
use docker_systemd.Daemon.Keeps.{
  Holds, crashed, blocked, Keeps, inline, IsUpkeep, runs, terminates, kills, Stable,
}

abbrev pub IsAmong : {A : Type 0} → A → List A → Type 0
IsAmong a [] = true ≡ false
IsAmong a (x ∷ xs) = (x ≡ a) ⊎ IsAmong a xs

-- The line is a command of the definition for the stop of its service.
abbrev pub IsStopLine : Bytes → Definition → Type 0
IsStopLine line def =
    IsAmong line def.exec_stop_pre ⊎ IsAmong line def.exec_stop ⊎ IsAmong line def.exec_stop_post

-- What `stop` of the service `d` with this name may do: run one of its commands for the stop, or send
-- SIGTERM or SIGKILL to one of its own processes.
pub data IsStopAct (name : Bytes) (d : Daemon) : Event → Type 0 where
  runs_line :
      {def : Definition} {line : Bytes}
      → d.def ≡ some def
      → IsStopLine line def
      → IsStopAct name d (ran name line)
  terminates_own : {pid : ℕ} → IsAmong (some pid) d.cmds → IsStopAct name d (sent_term name pid)
  kills_own : {pid : ℕ} → IsAmong (some pid) d.cmds → IsStopAct name d (sent_kill name pid)

-- `P` survives changes of the service `name` that leave its mask, its definition and its processes,
-- what `stop` of it does, and the passing of time; `Seen` is what `P` tells of the service.
pub record Stoppable (P : System → Type 0) (name : Bytes) (Seen : Daemon → Type 0) : Type 0 where
  pub sees : (s : System) (d : Daemon) → P s → find name s.list ≡ some d → Seen d
  pub changes :
      (f : Daemon → Daemon)
      → ((d : Daemon) → (f d).masked ≡ d.masked)
      → ((d : Daemon) → (f d).def ≡ d.def)
      → ((d : Daemon) → (f d).cmds ≡ d.cmds)
      → Keeps P (modify name f)
  pub acts : (d : Daemon) (e : Event) → Seen d → IsStopAct name d e → Keeps P (emit e)
  pub ticks : Keeps P tick
  pub sleeps : (n : ℕ) → Keeps P (sleep n)

IsStopAct-IsUpkeep : {name : Bytes} {d : Daemon} (e : Event) → IsStopAct name d e → IsUpkeep name e
IsStopAct-IsUpkeep _ (runs_line there is) = runs
IsStopAct-IsUpkeep _ (terminates_own is) = terminates
IsStopAct-IsUpkeep _ (kills_own is) = kills

pub Stable-Stoppable :
    {P : System → Type 0} (name : Bytes) → Stable P name → Stoppable P name (λ d. Unit)
Stable-Stoppable name stable = record {
  sees = λ s d p e. tt;
  changes = λ f m e c. stable.changes f m e;
  acts = λ d e seen act. stable.upkeep e (IsStopAct-IsUpkeep e act);
  ticks = stable.ticks;
  sleeps = stable.sleeps;
}

module _ {P : System → Type 0} {Seen : Daemon → Type 0} (name : Bytes)
    (stoppable : Stoppable P name Seen) where
  Keeps-defined :
      {B : Type 0} {k : Definition → M B} (o : Option Definition)
      → ((def : Definition) → o ≡ some def → Keeps P (k def))
      → Keeps P (defined o >>= k)
  unfolding ◌>>=◌ panic pure
  Keeps-defined none h = record { at = λ s p. crashed }
  Keeps-defined (some def) h = record { at = λ s p. (h def refl).at s p }

  -- A section of the service's mutex sees it as `P` tells.
  pub Keeps-seen :
      {B : Type 0} {k : Daemon → M B}
      → ((d : Daemon) → Seen d → Keeps P (k d))
      → Keeps P (lock name >>= k)
  unfolding lock ◌>>=◌ read pure deadlock
  Keeps-seen {k} h = record { at = λ s p. found s p (find name s.list) refl }
    where
      opened :
          (s : System) (p : P s) (d : Daemon) (seen : Seen d) (b : Bool)
          → Holds P (continue ((if b then deadlock else pure d) s) k)
      opened s p d seen true = blocked
      opened s p d seen false = (h d seen).at s p

      found :
          (s : System) (p : P s) (o : Option Daemon)
          → find name s.list ≡ o
          → Holds P (continue (continue (read_result o s) acquired) k)
      found s p none e = crashed
      found s p (some d) e = opened s p d (stoppable.sees s d p e) d.held

  pub Keeps-seen_def :
      {B : Type 0} {k : Definition → M B}
      → ((d : Daemon) (def : Definition) → Seen d → d.def ≡ some def → Keeps P (k def))
      → Keeps P (lock_def name >>= k)
  unfolding lock_def
  Keeps-seen_def {k} h =
      inline _ _ _ (Keeps-seen λ d seen. Keeps-defined d.def (λ def e. h d def seen e))
