-- ===== src/Procwait/Lost.antt =====
-- procwait/procwait.go, `Run`: a process that is reaped before `cmd.Process` shows it.
use docker_systemd.Base.{
  ℕ, ◌≡◌, ◌≢◌, refl, sym, ap, ◌∙◌, subst, arith, Bool, true, false, none, some, ◌==◌, ==_iff,
  if◌then◌else◌, ◌&&◌,
}
use mathlib.Core.Option
use docker_systemd.Procwait.{
  put, Child, alive, zombie, reaped, Phase, outside, registered, forked, started, waiting, ended,
  not_found, not_started, Job, at_phase, register, wait_cmd, World, set_job, set_child, is_process,
  release_job, release,
}
use docker_systemd.Procwait.Steps.{
  Step, begins, start_fails, forks, shows, looks, wakes, born, exits, reaps, releases, waits,
  returns, Steps, here, more, IsReachable,
}
use docker_systemd.Procwait.Jobs.{IsHeld, InPhase}
use docker_systemd.Procwait.Sound.{IsReachable-IsInvariant, wait-rest}

-- Whether `Run` has returned.
abbrev pub has_returned : Phase → Bool
has_returned (ended _ _) = true
has_returned (not_found _) = true
has_returned not_started = true
has_returned _ = false

-- Behind the birth of a process that is not to be reaped again.
abbrev IsBehind : ℕ → Job → Phase → Type 0
IsBehind pid j (forked p) = (p ≡ pid) × (j.process ≡ none)
IsBehind pid j (started p) = (p ≡ pid) × (j.process ≡ some pid)
IsBehind pid j (waiting p) = (p ≡ pid) × (j.process ≡ some pid)
IsBehind pid j _ = ⊥

abbrev IsStuck : ℕ → Job → Type 0
IsStuck pid j = IsHeld j × IsBehind pid j j.phase

abbrev IsLost : ℕ → ℕ → ℕ → World → Type 0
IsLost pid ws c s =
    IsStuck pid (s.jobs c) × (s.children pid ≡ reaped ws) × ((ws' : ℕ) → s.reaper ≢ some (pid, ws'))

-- Another pid than that of the process is nothing to the command.
release_job-IsStuck :
    (pid pid' ws : ℕ) (j : Job)
    → (pid == pid') ≡ false
    → IsStuck pid j
    → IsStuck pid (release_job pid' ws j)
release_job-IsStuck pid pid' ws j other h = rw (not_process j.phase h.1) (kept j.entry)
  where
    not_process : (f : Phase) → IsBehind pid j f → is_process pid' j.process ≡ false
    not_process outside h = absurd h
    not_process registered h = absurd h
    not_process (forked p) h = rw h.1 refl
    not_process (started p) h = rw h.1 other
    not_process (waiting p) h = rw h.1 other
    not_process (ended p _) h = absurd h
    not_process (not_found p) h = absurd h
    not_process not_started h = absurd h

    kept :
        (b : Bool)
        → IsStuck pid
            (if b && false then record j { entry = false; locked = false; ws = ws } else j)
    kept true = h
    kept false = h

module _ (pid ws c : ℕ) (s : World) where
  -- A turn of a command, as long as it does not free the lost one.
  IsLost-set_job :
      (d : ℕ) (j : Job)
      → (d ≡ c → IsStuck pid (s.jobs c) → IsStuck pid j)
      → IsLost pid ws c s
      → IsLost pid ws c (set_job d j s)
  IsLost-set_job d j same h = (by_test (c == d) refl, h.1, h.2)
    where
      by_test : (b : Bool) → (c == d) ≡ b → IsStuck pid (if b then j else s.jobs c)
      by_test true e = same (sym ((==_iff c d).0 e)) h.0
      by_test false e = h.0

  -- A turn that wants the command in a phase in which it is not.
  lost-not :
      (d : ℕ) (f : Phase)
      → (s.jobs d).phase ≡ f
      → (IsBehind pid (s.jobs c) f → ⊥)
      → (j : Job) → d ≡ c
      → IsStuck pid (s.jobs c)
      → IsStuck pid j
  lost-not d f is no_phase j same h =
      absurd (
        no_phase (subst (IsBehind pid (s.jobs c)) (ap (λ n. (s.jobs n).phase) (sym same) ∙ is) h.1))

  IsLost-set_child :
      (p : ℕ) (k : Child)
      → s.children p ≢ reaped ws
      → IsLost pid ws c s
      → IsLost pid ws c (set_child p k s)
  IsLost-set_child p k before h = (h.0, by_test (pid == p) refl, h.2)
    where
      by_test : (b : Bool) → (pid == p) ≡ b → (if b then k else s.children pid) ≡ reaped ws
      by_test true e =
          absurd (before (subst (λ n. s.children n ≡ reaped ws) ((==_iff pid p).0 e) h.1))
      by_test false e = h.1

  behind :
      (d : ℕ) (f : Phase)
      → (s.jobs d).phase ≡ f
      → d ≡ c
      → IsStuck pid (s.jobs c)
      → IsHeld (s.jobs d) × IsBehind pid (s.jobs d) f
  behind d f is same h =
      let (held, at) = subst (λ n. IsStuck pid (s.jobs n)) (sym same) h in
      (held, subst (IsBehind pid (s.jobs d)) is at)

  lost-looks :
      (d p : ℕ)
      → (s.jobs d).phase ≡ started p
      → d ≡ c
      → IsStuck pid (s.jobs c)
      → IsStuck pid (wait_cmd p (s.jobs d))
  lost-looks d p is same h =
      let (held, at) = behind d (started p) is same h in
      subst
        (λ b.
          IsStuck pid
            (if b then at_phase (waiting p) (s.jobs d) else at_phase (not_found p) (s.jobs d)))
        (sym held.0) (held, at)

  lost-shows :
      (d p : ℕ)
      → (s.jobs d).phase ≡ forked p
      → d ≡ c
      → IsStuck pid (s.jobs c)
      → IsStuck pid (record (s.jobs d) { phase = started p; process = some p })
  lost-shows d p is same h =
      let (held, at) = behind d (forked p) is same h in (held, (at.0, ap some at.0))

  lost-wakes :
      (d p : ℕ)
      → (s.jobs d).phase ≡ waiting p
      → (s.jobs d).locked ≡ false
      → (j : Job) → d ≡ c
      → IsStuck pid (s.jobs c)
      → IsStuck pid j
  lost-wakes d p is free j same h =
      let (held, at) = behind d (waiting p) is same h in let e = held.1 in absurd (ground arith)

  IsLost-reaps :
      (p status : ℕ)
      → s.children p ≡ zombie status
      → IsLost pid ws c s
      → IsLost pid ws c
          (record s { children = put p (reaped status) s.children; reaper = some (p, status) })
  IsLost-reaps p status is h = (
    h.0,
    (IsLost-set_child p (reaped status) (λ e. ground arith) h).1,
    λ ws' e.
        let same = ap (λ (z : ℕ × ℕ). z.0) (Option.some-injective _ _ e) in
        let e' = subst (λ n. s.children n ≡ zombie status) same is in let e'' = h.1 in ground arith,
  )

  IsLost-releases :
      (p status : ℕ)
      → s.reaper ≡ some (p, status)
      → IsLost pid ws c s
      → IsLost pid ws c (release p status s)
  IsLost-releases p status pending h = (by_test (pid == p) refl, h.1, λ ws' e. ground arith)
    where
      by_test : (b : Bool) → (pid == p) ≡ b → IsStuck pid (release_job p status (s.jobs c))
      by_test true e =
          absurd (h.2 status (pending ∙ ap (λ n. some (n, status)) (sym ((==_iff pid p).0 e))))
      by_test false e = release_job-IsStuck pid p status (s.jobs c) e h.0

Step-IsLost : (pid ws c : ℕ) {s u : World} → Step s u → IsLost pid ws c s → IsLost pid ws c u
Step-IsLost pid ws c {s} (begins d is) h =
    IsLost-set_job pid ws c s d (register (s.jobs d))
      (lost-not pid ws c s d outside is (λ k. k) (register (s.jobs d))) h
Step-IsLost pid ws c {s} (start_fails d is) h =
    IsLost-set_job pid ws c s d (at_phase not_started (s.jobs d))
      (lost-not pid ws c s d registered is (λ k. k) (at_phase not_started (s.jobs d))) h
Step-IsLost pid ws c {s} (forks d p is new) h =
    let j = at_phase (forked p) (s.jobs d) in
    IsLost-set_child pid ws c (set_job d j s) p alive (λ e. ground arith)
      (IsLost-set_job pid ws c s d j (lost-not pid ws c s d registered is (λ k. k) j) h)
Step-IsLost pid ws c {s} (shows d p is) h =
    IsLost-set_job pid ws c s d (record (s.jobs d) { phase = started p; process = some p })
      (lost-shows pid ws c s d p is) h
Step-IsLost pid ws c {s} (looks d p is) h =
    IsLost-set_job pid ws c s d (wait_cmd p (s.jobs d)) (lost-looks pid ws c s d p is) h
Step-IsLost pid ws c {s} (wakes d p is free) h =
    let j = at_phase (ended p (s.jobs d).ws) (s.jobs d) in
    IsLost-set_job pid ws c s d j (lost-wakes pid ws c s d p is free j) h
Step-IsLost pid ws c {s} (born p is) h = IsLost-set_child pid ws c s p alive (λ e. ground arith) h
Step-IsLost pid ws c {s} (exits p status is) h =
    IsLost-set_child pid ws c s p (zombie status) (λ e. ground arith) h
Step-IsLost pid ws c {s} (reaps p status is free) h = IsLost-reaps pid ws c s p status is h
Step-IsLost pid ws c {s} (releases p status pending) h =
    IsLost-releases pid ws c s p status pending h
Step-IsLost pid ws c {s} (waits t p is) h =
    let rest = wait-rest s t p in rw (rest.0, rest.1, rest.2) h
Step-IsLost pid ws c {s} (returns t p at is free) h = h

Steps-IsLost : (pid ws c : ℕ) {s u : World} → Steps s u → IsLost pid ws c s → IsLost pid ws c u
Steps-IsLost pid ws c here h = h
Steps-IsLost pid ws c (more before step) h =
    Step-IsLost pid ws c step (Steps-IsLost pid ws c before h)

behind-returned : (pid : ℕ) (j : Job) (f : Phase) → IsBehind pid j f → has_returned f ≡ false
behind-returned pid j outside h = refl
behind-returned pid j registered h = refl
behind-returned pid j (forked p) h = refl
behind-returned pid j (started p) h = refl
behind-returned pid j (waiting p) h = refl
behind-returned pid j (ended p _) h = absurd h
behind-returned pid j (not_found p) h = absurd h
behind-returned pid j not_started h = absurd h

-- A `Run` whose process has been reaped, and whose status the reaper has dealt with, before
-- `cmd.Process` shows the process, never returns, whatever turns follow.
pub run-hangs :
    {s u : World} (c pid ws : ℕ)
    → IsReachable s
    → (s.jobs c).phase ≡ forked pid
    → s.children pid ≡ reaped ws
    → s.reaper ≡ none
    → Steps s u
    → has_returned (u.jobs c).phase ≡ false
run-hangs {s} {u} c pid ws reach is done free steps =
    let sound : InPhase s.children (s.jobs c) (forked pid) =
      subst (InPhase s.children (s.jobs c)) is ((IsReachable-IsInvariant reach).0 c) in
    let lost : IsLost pid ws c s = (
      (sound.0, subst (IsBehind pid (s.jobs c)) (sym is) (refl, sound.1)),
      done,
      λ ws' e. ground arith,
    ) in
    let (stuck, _, _) = Steps-IsLost pid ws c steps lost in
    behind-returned pid (u.jobs c) (u.jobs c).phase stuck.1
