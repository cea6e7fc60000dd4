-- ===== src/Daemon/Monitor/Watch.antt =====
-- systemd/daemons/daemon.go, the beginning of `monitorCmds`: the wait for the processes of a service.
-- `Wait` and `Is` (procwait/procwait.go), `Find` (systemd/pidtracker/pidtracker.go), the processes of
-- the system and inslice.HasString are parameters.
pub mod Crash
pub mod Plain
pub mod Later
pub mod Ends
pub mod Whole
mod Tests
use docker_systemd.Base.{
  ℕ, zero, suc, ◌==◌, Bool, true, false, not, ◌&&◌, List, [], ◌∷◌, ◌++◌, Bytes, Option, none, some,
  leb, if◌then◌else◌,
}
use docker_systemd.Text.{codes, equal, has_prefix, split}
use docker_systemd.Duration.{decimal, is_digit, two_63}
use docker_systemd.Definition.{Definition}
use docker_systemd.Daemon.State.{Daemon}
use docker_systemd.Daemon.Flow.{
  M, pure, panic, out_of_fuel, ◌>>=◌, ◌>>◌, call, read, modify, tick, defined,
}
use docker_systemd.Daemon.Host.{Host, Launch, not_started}
use docker_systemd.Daemon.Monitor.{after_exit}

-- A process of the system; its environment may not be readable.
pub record Process : Type 0 where
  pub pid : ℕ
  pub ppid : ℕ
  pub environ : Option Bytes

-- The answers by the number of the call. `wait_pid` gives `not_started` where `Wait` gives nil.
pub record Watched : Type 0 where
  pub wait_pid : ℕ → ℕ → Launch
  pub is : ℕ → ℕ → Bool
  pub find : ℕ → ℕ → List ℕ
  pub processes : ℕ → Option (List Process)
  pub has_string : List Bytes → Bytes → Bool

abbrev pub set_cmds : List (Option ℕ) → Daemon → Daemon
set_cmds cmds d = record d { cmds = cmds }

abbrev pub set_pids : List ℕ → Daemon → Daemon
set_pids pids d = record d { pids = pids }

abbrev pub forking_types : List Bytes
forking_types = codes "forking" ∷ codes "dbus" ∷ codes "notify" ∷ codes "notify-reload" ∷ []

-- The digits of the pid file.
unfoldable pub digits_of : Bytes → Bytes
digits_of [] = []
digits_of (r ∷ npid) = let rest = digits_of npid in if is_digit r then r ∷ rest else rest

-- Its pid, where it is an `int` above 1. No digit gives 0.
abbrev pub pid_of : Bytes → Option ℕ
pid_of pids = let p = decimal 0 pids in if leb 2 p && not (leb two_63 p) then some p else none

-- `strings.Split(nenv, "=")[1]`
abbrev pub second_of : List Bytes → Bytes
second_of (key ∷ value ∷ rest) = value
second_of _ = []

-- The loop over the environment of a process: its pid once for each variable that names the service.
unfoldable pub named_by : Bytes → ℕ → List Bytes → List ℕ
named_by name pid [] = []
named_by name pid (nenv ∷ envs) =
    let rest = named_by name pid envs in
    if has_prefix nenv (codes "SYSTEMD_SERVICE_NAME=") && equal (second_of (split nenv b'=')) name
    then pid ∷ rest
    else rest

abbrev pub named_in : Bytes → ℕ → Option Bytes → List ℕ
named_in name pid none = []
named_in name pid (some penviron) = named_by name pid (split penviron 0)

-- The loop over the processes: those that process 1 has adopted and whose environment names the
-- service.
unfoldable pub own_processes : Bytes → List Process → List ℕ
own_processes name [] = []
own_processes name (p ∷ processList) =
    let rest = own_processes name processList in
    if p.ppid == 1 then named_in name p.pid p.environ ++ rest else rest

-- The statuses that are not nil.
unfoldable pub not_nil : List Launch → List Launch
not_nil [] = []
not_nil (not_started ∷ ans) = not_nil ans
not_nil (a ∷ ans) = a ∷ not_nil ans

module _ (host : Host) (sys : Watched) (name : Bytes) where
  -- `procwait.Wait`, which is assumed to return: the process ends at some time.
  unfoldable pub wait_for : ℕ → M Launch
  wait_for pid = do at ← tick; pure (sys.wait_pid pid at)

  unfoldable pub wait_each : List ℕ → M (List Launch)
  wait_each [] = pure []
  wait_each (p ∷ pids) = do a ← wait_for p; ans ← wait_each pids; pure (a ∷ ans)

  -- The loop over `d.cmds`: the statuses, and the pids. It dereferences the process of a command that
  -- did not start.
  unfoldable pub wait_cmds : List (Option ℕ) → M (List Launch × List ℕ)
  wait_cmds [] = pure ([], [])
  wait_cmds (none ∷ cmds) = panic
  wait_cmds (some pid ∷ cmds) = do
    a ← wait_for pid
    rest ← wait_cmds cmds
    pure (a ∷ rest.0, pid ∷ rest.1)

  -- The process of the pid file.
  abbrev pub wait_main : Option ℕ → M (List Launch)
  wait_main none = pure []
  wait_main (some p) = do
    modify name (set_pids (p ∷ []))
    a ← wait_for p
    modify name (set_pids [])
    pure (a ∷ [])

  abbrev pub pid_in : Option Bytes → Option ℕ
  pid_in none = none
  pid_in (some npid) = pid_of (digits_of npid)

  unfoldable pub wait_pid_file : Bytes → M (List Launch)
  wait_pid_file path = do at ← tick; wait_main (pid_in (host.read_file path at))

  -- A round of the loop over the list of processes, `again` being the rounds behind it.
  abbrev pub wait_found : M (List Launch) → Option (List Process) → M (List Launch)
  wait_found again none = pure []
  wait_found again (some processList) = do
    modify name (set_pids (own_processes name processList))
    ans ← wait_each (own_processes name processList)
    more ← (if equal (own_processes name processList) [] then pure [] else again)
    pure (ans ++ more)

  unfoldable pub wait_processes : ℕ → M (List Launch)
  wait_processes zero = out_of_fuel
  wait_processes (suc rounds) = do at ← tick; wait_found (wait_processes rounds) (sys.processes at)

  -- Those of the children that are there.
  unfoldable pub living : List ℕ → M (List ℕ)
  living [] = pure []
  living (c ∷ children) = do
    at ← tick
    rest ← living children
    pure (if sys.is c at then c ∷ rest else rest)

  -- The loop over `cmdpids`: `kids`.
  unfoldable pub kids_of : List ℕ → M (List ℕ)
  kids_of [] = pure []
  kids_of (cmd ∷ cmdpids) = do
    at ← tick
    kids ← living (sys.find cmd at)
    more ← kids_of cmdpids
    pure (kids ++ more)

  abbrev pub or_again : M (List Launch) → List Launch → M (List Launch)
  or_again again [] = pure []
  or_again again (a ∷ ans) = do more ← again; pure (a ∷ ans ++ more)

  -- The last loop: the children that the processes have left.
  unfoldable pub wait_kids : ℕ → List ℕ → M (List Launch)
  wait_kids zero cmdpids = out_of_fuel
  wait_kids (suc rounds) cmdpids = do
    kids ← kids_of cmdpids
    modify name (set_pids kids)
    ans ← wait_each kids
    or_again (wait_kids rounds cmdpids) (not_nil ans)

  -- What is done for a service whose processes fork.
  unfoldable pub wait_forked : ℕ → Bytes → List ℕ → M (List Launch)
  wait_forked rounds pid_file cmdpids = do
    ans ← (if equal pid_file [] then wait_processes rounds else wait_pid_file pid_file)
    more ← wait_kids rounds cmdpids
    modify name (set_pids [])
    pure (ans ++ more)

  -- `ans`, in at most `rounds` rounds of each loop.
  unfoldable pub watch : ℕ → M (List Launch)
  watch rounds = do
    modify name (set_pids [])
    d ← read name
    first ← wait_cmds d.cmds
    modify name (set_cmds [])
    def ← defined d.def
    more ←
        (if sys.has_string forking_types def.service_type
          then wait_forked rounds def.pid_file first.1
          else pure [])
    pure (first.0 ++ more)

  -- `monitorCmds`; `others` is what other goroutines do up to the exit of the processes.
  unfoldable pub monitor_cmds : ℕ → M (Unit {0}) → M (Unit {0}) → ℕ → M (Unit {0})
  monitor_cmds fuel others meanwhile rounds = do
    ans ← watch rounds
    others
    after_exit host fuel meanwhile name ans
    pure tt
