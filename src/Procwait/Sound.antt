-- ===== src/Procwait/Sound.antt =====
-- procwait/procwait.go: what holds at all times, and what the callers of `Run` and `Wait` are told.
use docker_systemd.Base.{
  ℕ, ◌≡◌, ◌≢◌, inl, inr, refl, sym, subst, Bool, true, false, Bool-cases, Option, none, some, ◌==◌,
  if◌then◌else◌,
}
use docker_systemd.Procwait.{
  put, Child, unborn, alive, zombie, reaped, forked, started, waiting, ended, not_found,
  not_started, Job, at_phase, register, wait_cmd, joined, got, World, set_job, set_child, wait,
  join, track_by, is_there,
}
use docker_systemd.Procwait.Steps.{
  Step, begins, start_fails, forks, shows, looks, wakes, born, exits, reaps, releases, waits,
  returns, Steps, here, more, IsReachable, initial,
}
use docker_systemd.Procwait.Jobs.{IsSound, InPhase, InPhase-Stays, put-Stays, release_job-IsSound}
use docker_systemd.Procwait.Waiters.{
  IsServed, IsTable-same, IsTable-child, IsTable-reaped, IsServed-Stays,
}
use docker_systemd.Procwait.Turns.{IsTable-release, IsServed-release}
use docker_systemd.Procwait.Tracks.{IsFair, set_waiter-IsFair, wait-IsFair}

abbrev pub IsInvariant : World → Type 0
IsInvariant s = ((c : ℕ) → IsSound s.children (s.jobs c)) × IsFair s

-- Each command is sound behind a turn of one.
jobs-put :
    (s : World) (c : ℕ) (j : Job)
    → IsSound s.children j
    → ((d : ℕ) → IsSound s.children (s.jobs d))
    → (d : ℕ) → IsSound s.children (put c j s.jobs d)
jobs-put s c j new old d = elim (Bool-cases (d == c)) [
  | inl same ↦ rw same new
  | inr other ↦ rw other (old d)
]

set_job-IsInvariant :
    (s : World) (c : ℕ) (j : Job)
    → IsSound s.children j
    → IsInvariant s
    → IsInvariant (set_job c j s)
set_job-IsInvariant s c j new h = (
  jobs-put s c j new h.0,
  (
    IsTable-same s (set_job c j s) refl refl refl refl refl h.1.0,
    λ t. IsServed-Stays s (set_job c j s) (s.waiters t) refl refl refl (λ p ws e. e) (h.1.1 t),
  ),
)

set_child-IsInvariant :
    (s : World) (pid : ℕ) (k : Child)
    → is_there k ≡ true
    → ((ws : ℕ) → s.children pid ≢ reaped ws)
    → IsInvariant s
    → IsInvariant (set_child pid k s)
set_child-IsInvariant s pid k there before h =
    let stays = put-Stays s.children pid k before in
    (
      λ c.
          InPhase-Stays s.children (put pid k s.children) (s.jobs c) (s.jobs c).phase stays (h.0 c),
      (
        IsTable-child s pid k there before h.1.0,
        λ t. IsServed-Stays s (set_child pid k s) (s.waiters t) refl refl refl stays (h.1.1 t),
      ),
    )

-- A child that is not reaped.
unborn-before : (s : World) (pid ws : ℕ) → s.children pid ≡ unborn → s.children pid ≢ reaped ws
unborn-before s pid ws is e = cc

alive-before : (s : World) (pid ws : ℕ) → s.children pid ≡ alive → s.children pid ≢ reaped ws
alive-before s pid ws is e = cc

zombie-before :
    (s : World) (pid ws ws' : ℕ) → s.children pid ≡ zombie ws → s.children pid ≢ reaped ws'
zombie-before s pid ws ws' is e = cc

wait_cmd-IsSound :
    (k : ℕ → Child) (pid : ℕ) (j : Job)
    → j.phase ≡ started pid
    → IsSound k j
    → IsSound k (wait_cmd pid j)
wait_cmd-IsSound k pid j is h = by_entry (subst (InPhase k j) is h)
  where
    looked : Bool → Job
    looked b = if b then at_phase (waiting pid) j else at_phase (not_found pid) j

    by_entry : InPhase k j (started pid) → IsSound k (wait_cmd pid j)
    by_entry (process, inl held) =
        subst (λ b. IsSound k (looked b)) (sym held.0) (process, inl held)
    by_entry (process, inr released) = subst (λ b. IsSound k (looked b)) (sym released.0) released

woken-IsSound :
    (k : ℕ → Child) (pid : ℕ) (j : Job)
    → j.phase ≡ waiting pid
    → j.locked ≡ false
    → IsSound k j
    → IsSound k (at_phase (ended pid j.ws) j)
woken-IsSound k pid j is free h = by_release (subst (InPhase k j) is h)
  where
    by_release : InPhase k j (waiting pid) → IsSound k (at_phase (ended pid j.ws) j)
    by_release (process, inl held) = absurd (let e = held.1 in cc)
    by_release (process, inr (out, _, done)) = (out, done)

-- `Wait` leaves the commands and the processes alone.
pub wait-rest :
    (s : World) (t pid : ℕ)
    → ((wait t pid s).jobs ≡ s.jobs)
      × ((wait t pid s).children ≡ s.children)
      × ((wait t pid s).reaper ≡ s.reaper)
wait-rest s t pid = by_entry (s.w pid)
  where
    by_test :
        (b : Bool)
        → ((track_by b t pid s).jobs ≡ s.jobs)
          × ((track_by b t pid s).children ≡ s.children)
          × ((track_by b t pid s).reaper ≡ s.reaper)
    by_test true = (refl, refl, refl)
    by_test false = (refl, refl, refl)

    by_entry :
        (o : Option ℕ)
        → ((join t pid o s).jobs ≡ s.jobs)
          × ((join t pid o s).children ≡ s.children)
          × ((join t pid o s).reaper ≡ s.reaper)
    by_entry none = by_test (is_there (s.children pid))
    by_entry (some a) = (refl, refl, refl)

pub Step-IsInvariant : {s u : World} → Step s u → IsInvariant s → IsInvariant u
Step-IsInvariant {s} (begins c is) h =
    set_job-IsInvariant s c (register (s.jobs c))
      ((refl, refl), (subst (InPhase s.children (s.jobs c)) is (h.0 c)).1) h
Step-IsInvariant {s} (start_fails c is) h =
    set_job-IsInvariant s c (at_phase not_started (s.jobs c))
      (subst (InPhase s.children (s.jobs c)) is (h.0 c)) h
Step-IsInvariant {s} (forks c pid is new) h =
    set_child-IsInvariant (set_job c (at_phase (forked pid) (s.jobs c)) s) pid alive refl
      (λ ws. unborn-before s pid ws new)
      (set_job-IsInvariant s c (at_phase (forked pid) (s.jobs c))
        (subst (InPhase s.children (s.jobs c)) is (h.0 c)) h)
Step-IsInvariant {s} (shows c pid is) h =
    set_job-IsInvariant s c (record (s.jobs c) { phase = started pid; process = some pid })
      (refl, inl (subst (InPhase s.children (s.jobs c)) is (h.0 c)).0) h
Step-IsInvariant {s} (looks c pid is) h =
    set_job-IsInvariant s c (wait_cmd pid (s.jobs c))
      (wait_cmd-IsSound s.children pid (s.jobs c) is (h.0 c)) h
Step-IsInvariant {s} (wakes c pid is free) h =
    set_job-IsInvariant s c (at_phase (ended pid (s.jobs c).ws) (s.jobs c))
      (woken-IsSound s.children pid (s.jobs c) is free (h.0 c)) h
Step-IsInvariant {s} (born pid is) h =
    set_child-IsInvariant s pid alive refl (λ ws. unborn-before s pid ws is) h
Step-IsInvariant {s} (exits pid ws is) h =
    set_child-IsInvariant s pid (zombie ws) refl (λ ws'. alive-before s pid ws' is) h
Step-IsInvariant {s} (reaps pid ws is free) h =
    let stays = put-Stays s.children pid (reaped ws) (λ ws'. zombie-before s pid ws ws' is) in
    (
      λ c.
          InPhase-Stays s.children (put pid (reaped ws) s.children) (s.jobs c) (s.jobs c).phase
            stays (h.0 c),
      (
        IsTable-reaped s pid ws is free h.1.0,
        λ t.
            IsServed-Stays s
              (record s { children = put pid (reaped ws) s.children; reaper = some (pid, ws) })
              (s.waiters t) refl refl refl stays (h.1.1 t),
      ),
    )
Step-IsInvariant {s} (releases pid ws pending) h = (
  λ c. release_job-IsSound s.children pid ws (s.jobs c) (h.1.0.reaper_lem pid ws pending) (h.0 c),
  (
    IsTable-release s pid ws pending h.1.0,
    λ t. IsServed-release s pid ws pending h.1.0 (s.waiters t) (h.1.1 t),
  ),
)
Step-IsInvariant {s} (waits t pid is) h =
    let rest = wait-rest s t pid in (λ c. rw (rest.0, rest.1) (h.0 c), wait-IsFair s t pid h.1)
Step-IsInvariant {s} (returns t pid at is free) h = (
  h.0,
  set_waiter-IsFair s t (got pid (s.heap at).ws) (got_status (subst (IsServed s) is (h.1.1 t))) h.1,
)
  where
    got_status : IsServed s (joined pid at) → s.children pid ≡ reaped (s.heap at).ws
    got_status (inl e) = absurd (let e' = h.1.0.locked pid at e in cc)
    got_status (inr (_, _, _, done)) = done

initial-IsInvariant : IsInvariant initial
initial-IsInvariant = (
  λ c. (refl, refl),
  (
    record {
      known = λ p a e. absurd (cc);
      locked = λ p a e. absurd (cc);
      due = λ p a e. absurd (cc);
      own = λ p p' a e e'. absurd (cc);
      reaper_lem = λ p ws e. absurd (cc);
    },
    λ t. tt,
  ),
)

pub Steps-IsInvariant : {s u : World} → IsInvariant s → Steps s u → IsInvariant u
Steps-IsInvariant h here = h
Steps-IsInvariant h (more before step) = Step-IsInvariant step (Steps-IsInvariant h before)

pub IsReachable-IsInvariant : {s : World} → IsReachable s → IsInvariant s
IsReachable-IsInvariant r = Steps-IsInvariant initial-IsInvariant r
