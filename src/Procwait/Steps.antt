-- ===== src/Procwait/Steps.antt =====
-- procwait/procwait.go: the turns of the goroutines and of the operating system.
use docker_systemd.Base.{ℕ, ◌≡◌, false, none, some}
use docker_systemd.Procwait.{
  unborn, alive, zombie, reaped, outside, registered, forked, started, waiting, ended, not_started,
  idle, joined, got, World, set_job, set_child, set_waiter, at_phase, register, wait_cmd, release,
  wait, put,
}

-- A pid is given to one process only. `begins`, `start_fails`, `forks`, `shows` and `looks` are the
-- statements of `Run`, `wakes` its return; `waits` and `returns` are those of `Wait`; the reaper's
-- turns are `reaps`, the call of `Wait4`, and `releases`. A child may also be born outside of `Run`.
pub data Step (s : World) : World → Type 0 where
  begins : (c : ℕ) → (s.jobs c).phase ≡ outside → Step s (set_job c (register (s.jobs c)) s)
  start_fails :
      (c : ℕ)
      → (s.jobs c).phase ≡ registered
      → Step s (set_job c (at_phase not_started (s.jobs c)) s)
  forks :
      (c pid : ℕ)
      → (s.jobs c).phase ≡ registered
      → s.children pid ≡ unborn
      → Step s (set_child pid alive (set_job c (at_phase (forked pid) (s.jobs c)) s))
  shows :
      (c pid : ℕ)
      → (s.jobs c).phase ≡ forked pid
      → Step s (set_job c (record (s.jobs c) { phase = started pid; process = some pid }) s)
  looks :
      (c pid : ℕ) → (s.jobs c).phase ≡ started pid → Step s (set_job c (wait_cmd pid (s.jobs c)) s)
  wakes :
      (c pid : ℕ)
      → (s.jobs c).phase ≡ waiting pid
      → (s.jobs c).locked ≡ false
      → Step s (set_job c (at_phase (ended pid (s.jobs c).ws) (s.jobs c)) s)
  born : (pid : ℕ) → s.children pid ≡ unborn → Step s (set_child pid alive s)
  exits : (pid ws : ℕ) → s.children pid ≡ alive → Step s (set_child pid (zombie ws) s)
  reaps :
      (pid ws : ℕ)
      → s.children pid ≡ zombie ws
      → s.reaper ≡ none
      → Step s (record s { children = put pid (reaped ws) s.children; reaper = some (pid, ws) })
  releases : (pid ws : ℕ) → s.reaper ≡ some (pid, ws) → Step s (release pid ws s)
  waits : (t pid : ℕ) → s.waiters t ≡ idle → Step s (wait t pid s)
  returns :
      (t pid at : ℕ)
      → s.waiters t ≡ joined pid at
      → (s.heap at).locked ≡ false
      → Step s (set_waiter t (got pid (s.heap at).ws) s)

pub data Steps (s : World) : World → Type 0 where
  here : Steps s s
  more : {t u : World} → Steps s t → Step t u → Steps s u

-- Before the first call.
abbrev pub initial : World
initial = record {
  children = λ _. unborn;
  jobs = λ _. record { phase = outside; entry = false; locked = false; ws = 0; process = none };
  w = λ _. none;
  heap = λ _. record { locked = false; ws = 0 };
  fresh = 0;
  waiters = λ _. idle;
  reaper = none;
}

abbrev pub IsReachable : World → Type 0
IsReachable = Steps initial
