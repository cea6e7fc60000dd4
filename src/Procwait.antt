-- ===== src/Procwait.antt =====
-- procwait/procwait.go: `Run`, `Wait` and the reaper, as goroutines that take turns.
pub mod Reap
pub mod Steps
pub mod Jobs
pub mod Waiters
pub mod Turns
pub mod Tracks
pub mod Sound
pub mod Returns
pub mod Lost
mod Tests
use docker_systemd.Base.{
  ℕ, suc, ◌+◌, Bool, true, false, ◌&&◌, Option, none, some, ◌==◌, if◌then◌else◌,
}

-- A map with another value for one key.
abbrev pub put {ℓ} : {A : Type ℓ} → ℕ → A → (ℕ → A) → ℕ → A
put k v f n = if n == k then v else f n

-- A process of the operating system, by its pid. The status of a zombie is still to be reaped.
pub data Child : Type 0 where
  unborn alive : Child
  zombie reaped : ℕ → Child

-- Where a goroutine is in `Run`: before it, with the command in the table, with a process that
-- `cmd.Process` does not show yet, behind `cmd.Start`, at `l.RLock()`, and how it returned.
pub data Phase : Type 0 where
  outside registered : Phase
  forked started waiting : ℕ → Phase
  ended : (pid ws : ℕ) → Phase
  not_found : ℕ → Phase
  not_started : Phase

-- A command given to `Run`: its entry in `waits.run`, the `proc` of that entry, and `cmd.Process`.
pub record Job : Type 0 where
  pub phase : Phase
  pub entry : Bool
  pub locked : Bool
  pub ws : ℕ
  pub process : Option ℕ

-- `proc`
pub record Proc : Type 0 where
  pub locked : Bool
  pub ws : ℕ

-- Where a goroutine is in `Wait`: before it, at `l.RLock()` of the proc at an address, and how it
-- returned; `missed` returned nil.
pub data Waiter : Type 0 where
  idle missed : Waiter
  joined : (pid at : ℕ) → Waiter
  got : (pid ws : ℕ) → Waiter

-- The processes, and `waits`: its map `w` with the procs by address. `reaper` is what `Wait4` has
-- returned to the reaper while it has not taken the mutex yet.
pub record World : Type 0 where
  pub children : ℕ → Child
  pub jobs : ℕ → Job
  pub w : ℕ → Option ℕ
  pub heap : ℕ → Proc
  pub fresh : ℕ
  pub waiters : ℕ → Waiter
  pub reaper : Option (ℕ × ℕ)

abbrev pub set_job : ℕ → Job → World → World
set_job c j s = record s { jobs = put c j s.jobs }

abbrev pub set_child : ℕ → Child → World → World
set_child pid k s = record s { children = put pid k s.children }

abbrev pub set_waiter : ℕ → Waiter → World → World
set_waiter t v s = record s { waiters = put t v s.waiters }

abbrev pub at_phase : Phase → Job → Job
at_phase p j = record j { phase = p }

-- `Run` puts the command into the table, with a proc that is locked.
abbrev pub register : Job → Job
register j = record j { phase = registered; entry = true; locked = true; ws = 0 }

-- `waitCmd`: the proc of the command, if the table still has it.
abbrev pub wait_cmd : ℕ → Job → Job
wait_cmd pid j = if j.entry then at_phase (waiting pid) j else at_phase (not_found pid) j

-- `a.Process != nil && a.Process.Pid == wpid`
abbrev pub is_process : ℕ → Option ℕ → Bool
is_process wpid none = false
is_process wpid (some pid) = pid == wpid

-- One round of the reaper's loop over `waits.run`.
abbrev pub release_job : ℕ → ℕ → Job → Job
release_job wpid ws j =
    if j.entry && is_process wpid j.process
    then record j { entry = false; locked = false; ws = ws }
    else j

-- The reaper's look into `waits.w`.
abbrev pub release_proc : ℕ → Option ℕ → (ℕ → Proc) → ℕ → Proc
release_proc ws none heap = heap
release_proc ws (some a) heap = put a (record { locked = false; ws = ws }) heap

-- What the reaper does with the mutex: `waitWithPid` behind `Wait4`.
abbrev pub release : ℕ → ℕ → World → World
release wpid ws s = record s {
  jobs = λ c. release_job wpid ws (s.jobs c);
  heap = release_proc ws (s.w wpid) s.heap;
  w = put wpid none s.w;
  reaper = none;
}

-- `p.Signal(syscall.Signal(0)) == nil`, which also holds for a zombie.
abbrev pub is_there : Child → Bool
is_there unborn = false
is_there alive = true
is_there (zombie _) = true
is_there (reaped _) = false

-- `Wait` behind its look at the process.
abbrev pub track_by : Bool → ℕ → ℕ → World → World
track_by true t pid s = record s {
  waiters = put t (joined pid s.fresh) s.waiters;
  w = put pid (some s.fresh) s.w;
  heap = put s.fresh (record { locked = true; ws = 0 }) s.heap;
  fresh = s.fresh + 1;
}
track_by false t pid s = set_waiter t missed s

-- `Wait` behind its first look into the table.
abbrev pub track : ℕ → ℕ → World → World
track t pid s = track_by (is_there (s.children pid)) t pid s

abbrev pub join : ℕ → ℕ → Option ℕ → World → World
join t pid none s = track t pid s
join t pid (some a) s = set_waiter t (joined pid a) s

-- `Wait` with the mutex.
abbrev pub wait : ℕ → ℕ → World → World
wait t pid s = join t pid (s.w pid) s
