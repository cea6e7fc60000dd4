-- ===== src/Daemon/Stop/Outcome/Ends.antt =====
-- systemd/daemons/daemon.go, `stop`: how each of its statements ends.
use docker_systemd.Base.{
  ℕ, zero, suc, ◌-◌, Bool, true, false, not, ◌||◌, List, [], ◌∷◌, Bytes, Option, none, some, ltb,
  if◌then◌else◌,
}
use docker_systemd.Definition.{Definition}
use docker_systemd.Daemon.State.{Fault, is_masked, log_not_opened, Daemon, Event, System, find}
use docker_systemd.Daemon.Flow.{
  Flow, next, returned, panicked, deadlocked, no_fuel, M, pure, return, panic, deadlock, continue,
  ◌>>=◌, get, read, read_result, modify, emit, tick, sleep, defined, acquired, lock, lock_def,
}
use docker_systemd.Daemon.Host.{Host, Command, run_command, new_logger, time_now}
use docker_systemd.Daemon.Stop.{
  is_restarting, report, run_all, send_term, send_kill, all_exited, wait_exit, stop_enter,
  stop_commands,
}

-- The errors with which `stop` refuses.
pub data IsRefusal : Fault → Type 0 where
  masked : IsRefusal is_masked
  no_log : IsRefusal log_not_opened

-- A statement goes on in a system with `Q`, or returns an error with `R`, or the program stops there.
pub data Leaves {A : Type 0} (R : Fault → Type 0) (Q : A → System → Type 0) : Flow A → Type 0 where
  goes_on : {a : A} {s : System} → Q a s → Leaves R Q (next a s)
  refuses : {e : Fault} {s : System} → R e → Leaves R Q (returned (some e) s)
  crashed : Leaves R Q panicked
  blocked : Leaves R Q deadlocked

pub record Ensures {A : Type 0} (R : Fault → Type 0) (Q : A → System → Type 0) (m : M A)
    : Type 0 where
  pub at : (s : System) → Leaves R Q (m s)

abbrev pub Any : {A : Type 0} → A → System → Type 0
Any a s = Unit

abbrev pub Ends : {A : Type 0} → (Fault → Type 0) → M A → Type 0
Ends r m = Ensures r Any m

module _ {R : Fault → Type 0} where
  module _ {B : Type 0} {Q : B → System → Type 0} where
    Leaves-continue :
        {A : Type 0} (r : Flow A) (f : A → M B)
        → Leaves R Any r
        → ((a : A) → Ensures R Q (f a))
        → Leaves R Q (continue r f)
    Leaves-continue (next a s) f (goes_on h) k = (k a).at s
    Leaves-continue (returned (some e) s) f (refuses h) k = refuses h
    Leaves-continue (returned none s) f h k = elim h [ ]
    Leaves-continue panicked f crashed k = crashed
    Leaves-continue deadlocked f blocked k = blocked
    Leaves-continue no_fuel f h k = elim h [ ]

    pub and_next :
        {A : Type 0} {m : M A} {f : A → M B}
        → Ends R m
        → ((a : A) → Ensures R Q (f a))
        → Ensures R Q (m >>= f)
    unfolding ◌>>=◌
    and_next {m} {f} e k = record { at = λ s. Leaves-continue (m s) f (e.at s) k }

  pub Ends-pure : {A : Type 0} (a : A) → Ends R (pure a)
  unfolding pure
  Ends-pure a = record { at = λ s. goes_on tt }

  pub Ends-return : {A : Type 0} (e : Fault) → R e → Ends R (return {A = A} (some e))
  unfolding return
  Ends-return e h = record { at = λ s. refuses h }

  Ends-panic : {A : Type 0} → Ends R (panic {A = A})
  unfolding panic
  Ends-panic = record { at = λ s. crashed }

  pub Ends-if :
      {A : Type 0} (b : Bool) {m n : M A} → Ends R m → Ends R n → Ends R (if b then m else n)
  Ends-if true h k = h
  Ends-if false h k = k

  pub Ends-lock : (n : Bytes) → Ends R (lock n)
  unfolding lock ◌>>=◌ read
  Ends-lock n = record { at = λ s. found (find n s.list) s }
    where
      opened :
          (b : Bool) (d : Daemon) (s : System) → Leaves R Any ((if b then deadlock else pure d) s)
      opened true d s = blocked
      opened false d s = goes_on tt

      found : (o : Option Daemon) (s : System) → Leaves R Any (continue (read_result o s) acquired)
      found none s = crashed
      found (some d) s = opened d.held d s

  Ends-defined : (o : Option Definition) → Ends R (defined o)
  Ends-defined none = Ends-panic
  Ends-defined (some def) = Ends-pure def

  pub Ends-lock_def : (n : Bytes) → Ends R (lock_def n)
  unfolding lock_def
  Ends-lock_def n = and_next (Ends-lock n) λ d. Ends-defined d.def

  pub Ends-modify : (n : Bytes) (f : Daemon → Daemon) → Ends R (modify n f)
  unfolding modify
  Ends-modify n f = record { at = λ s. goes_on tt }

  Ends-emit : (e : Event) → Ends R (emit e)
  unfolding emit
  Ends-emit e = record { at = λ s. goes_on tt }

  Ends-tick : Ends R tick
  unfolding tick
  Ends-tick = record { at = λ s. goes_on tt }

  Ends-sleep : (n : ℕ) → Ends R (sleep n)
  unfolding sleep
  Ends-sleep n = record { at = λ s. goes_on tt }

  Ends-get : {A : Type 0} (f : System → A) → Ends R (get f)
  unfolding get
  Ends-get f = record { at = λ s. goes_on tt }

  module _ (host : Host) (name : Bytes) where
    Ends-run_command : (cmd : Command) → Ends R (run_command host name cmd)
    unfolding run_command
    Ends-run_command cmd = and_next Ends-tick λ at. and_next (Ends-emit _) λ _. Ends-pure _

    pub Ends-new_logger : Ends R (new_logger host name)
    unfolding new_logger
    Ends-new_logger = and_next Ends-tick λ at. and_next (Ends-get _) λ _. Ends-pure _

    pub Ends-time_now : Ends R (time_now host)
    unfolding time_now
    Ends-time_now = and_next Ends-tick λ at. and_next (Ends-get _) λ _. Ends-pure _

    Ends-report :
        (wrap : Bytes → Fault → Fault) (line : Bytes) (e : Option Fault)
        → Ends R (report host name wrap line e)
    Ends-report wrap line none = Ends-pure _
    Ends-report wrap line (some e) = and_next (Ends-lock name) λ d. Ends-modify _ _

    Ends-run_all :
        (wrap : Bytes → Fault → Fault) (dir : Bytes) (lines : List Bytes)
        → Ends R (run_all host name wrap dir lines)
    unfolding run_all
    Ends-run_all wrap dir [] = Ends-pure _
    Ends-run_all wrap dir (line ∷ lines) =
        and_next (Ends-run_command _)
          λ e. and_next (Ends-report wrap line e) λ _. Ends-run_all wrap dir lines

    Ends-send_term : (cmds : List (Option ℕ)) → Ends R (send_term host name cmds)
    unfolding send_term
    Ends-send_term [] = Ends-pure _
    Ends-send_term (none ∷ cmds) = Ends-send_term cmds
    Ends-send_term (some pid ∷ cmds) = and_next (Ends-emit _) λ _. Ends-send_term cmds

    pub Ends-send_kill : (cmds : List (Option ℕ)) → Ends R (send_kill host name cmds)
    unfolding send_kill
    Ends-send_kill [] = Ends-pure _
    Ends-send_kill (none ∷ cmds) = Ends-send_kill cmds
    Ends-send_kill (some pid ∷ cmds) = and_next (Ends-emit _) λ _. Ends-send_kill cmds

    Ends-all_exited : (cmds : List (Option ℕ)) → Ends R (all_exited host name cmds)
    unfolding all_exited
    Ends-all_exited [] = Ends-pure _
    Ends-all_exited (none ∷ cmds) = Ends-panic
    Ends-all_exited (some pid ∷ cmds) =
        and_next Ends-tick λ at. Ends-if (host.alive pid at) (Ends-pure _) (Ends-all_exited cmds)

    pub Ends-wait_exit : (rounds start tout : ℕ) → Ends R (wait_exit host name rounds start tout)
    unfolding wait_exit
    Ends-wait_exit zero start tout = Ends-pure _
    Ends-wait_exit (suc rounds) start tout = and_next (Ends-sleep _) λ _.
        and_next (Ends-lock name) λ d. and_next (Ends-all_exited _) λ exited.
          and_next Ends-time_now λ now.
            Ends-if exited (Ends-pure _)
              (Ends-if (ltb tout (now - start)) (Ends-pure _) (Ends-wait_exit rounds start tout))

    pub Ends-stop_commands : Ends R (stop_commands host name)
    unfolding stop_commands
    Ends-stop_commands = and_next (Ends-lock_def name) λ def. and_next (Ends-run_all _ _ _) λ _.
        and_next (Ends-run_all _ _ _)
          λ _. and_next (Ends-lock name) λ d. and_next (Ends-send_term _) λ _. Ends-run_all _ _ _

module _ (host : Host) (name : Bytes) where
  pub Ends-stop_enter : (b : Bool) → Ends IsRefusal (stop_enter host name b)
  unfolding stop_enter
  Ends-stop_enter b = and_next (Ends-lock name) λ d.
      and_next (Ends-if d.masked (Ends-return _ masked) (Ends-pure _)) λ _.
        and_next (Ends-if (not (is_restarting d.state) || b) (Ends-modify _ _) (Ends-pure _)) λ _.
          and_next (Ends-new_logger host name) λ opened.
            Ends-if opened (Ends-pure _) (and_next (Ends-modify _ _) λ _. Ends-return _ no_log)
