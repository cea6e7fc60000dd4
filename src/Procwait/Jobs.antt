-- ===== src/Procwait/Jobs.antt =====
-- procwait/procwait.go, `Run`: what each turn keeps of a command.
use docker_systemd.Base.{
  ℕ, ◌≡◌, ◌≢◌, ◌⊎◌, inl, inr, refl, sym, subst, Bool, true, false, ◌&&◌, Bool-cases, none, some,
  ◌==◌, ==_iff, if◌then◌else◌,
}
use docker_systemd.Procwait.{
  put, Child, reaped, Phase, outside, registered, forked, started, waiting, ended, not_found,
  not_started, Job, is_process, release_job,
}

-- The mutex of the proc is locked and the table has it.
abbrev pub IsHeld : Job → Type 0
IsHeld j = (j.entry ≡ true) × (j.locked ≡ true)

-- The reaper has put the status of the process into the proc.
abbrev pub IsReleased : (ℕ → Child) → ℕ → Job → Type 0
IsReleased k p j = (j.entry ≡ false) × (j.locked ≡ false) × (k p ≡ reaped j.ws)

-- What holds of a command in a phase.
abbrev pub InPhase : (ℕ → Child) → Job → Phase → Type 0
InPhase k j outside = (j.entry ≡ false) × (j.process ≡ none)
InPhase k j registered = IsHeld j × (j.process ≡ none)
InPhase k j (forked p) = IsHeld j × (j.process ≡ none)
InPhase k j (started p) = (j.process ≡ some p) × (IsHeld j ⊎ IsReleased k p j)
InPhase k j (waiting p) = (j.process ≡ some p) × (IsHeld j ⊎ IsReleased k p j)
InPhase k j (ended p ws) = (j.entry ≡ false) × (k p ≡ reaped ws)
InPhase k j (not_found p) = (j.entry ≡ false) × (j.locked ≡ false) × (k p ≡ reaped j.ws)
InPhase k j not_started = IsHeld j × (j.process ≡ none)

abbrev pub IsSound : (ℕ → Child) → Job → Type 0
IsSound k j = InPhase k j j.phase

-- What stays true while children change: a reaped child stays reaped.
abbrev pub Stays : (k k' : ℕ → Child) → Type 0
Stays k k' = (p ws : ℕ) → k p ≡ reaped ws → k' p ≡ reaped ws

pub put-Stays :
    (k : ℕ → Child) (pid : ℕ) (new : Child)
    → ((ws : ℕ) → k pid ≢ reaped ws)
    → Stays k (put pid new k)
put-Stays k pid new before p ws e = elim (Bool-cases (p == pid)) [
  | inl same ↦ absurd (before ws (subst (λ n. k n ≡ reaped ws) ((==_iff p pid).0 same) e))
  | inr other ↦ rw other e
]

IsReleased-Stays :
    (k k' : ℕ → Child) (p : ℕ) (j : Job)
    → Stays k k'
    → IsHeld j ⊎ IsReleased k p j
    → IsHeld j ⊎ IsReleased k' p j
IsReleased-Stays k k' p j stays (inl h) = inl h
IsReleased-Stays k k' p j stays (inr (a, b, e)) = inr (a, b, stays p j.ws e)

pub InPhase-Stays :
    (k k' : ℕ → Child) (j : Job) (f : Phase) → Stays k k' → InPhase k j f → InPhase k' j f
InPhase-Stays k k' j outside stays h = h
InPhase-Stays k k' j registered stays h = h
InPhase-Stays k k' j (forked p) stays h = h
InPhase-Stays k k' j (started p) stays h = (h.0, IsReleased-Stays k k' p j stays h.1)
InPhase-Stays k k' j (waiting p) stays h = (h.0, IsReleased-Stays k k' p j stays h.1)
InPhase-Stays k k' j (ended p ws) stays h = (h.0, stays p ws h.1)
InPhase-Stays k k' j (not_found p) stays h = (h.0, h.1, stays p j.ws h.2)
InPhase-Stays k k' j not_started stays h = h

-- The reaper's round on a command, behind a child that it has reaped.
module _ (k : ℕ → Child) (pid ws : ℕ) (j : Job) (gone : k pid ≡ reaped ws) where
  abbrev released : Job
  released = record j { entry = false; locked = false; ws = ws }

  no_process : j.process ≡ none → is_process pid j.process ≡ true → ⊥
  no_process e is = let e' = rw e at is in absurd (cc)

  released-At :
      (p : ℕ) → j.process ≡ some p → is_process pid j.process ≡ true → IsReleased k p released
  released-At p e is =
      let same = (==_iff p pid).0 (rw e at is) in
      (refl, refl, subst (λ n. k n ≡ reaped ws) (sym same) gone)

  InPhase-released :
      (f : Phase)
      → j.entry ≡ true
      → is_process pid j.process ≡ true
      → InPhase k j f
      → InPhase k released f
  InPhase-released outside e is h = absurd (no_process h.1 is)
  InPhase-released registered e is h = absurd (no_process h.1 is)
  InPhase-released (forked p) e is h = absurd (no_process h.1 is)
  InPhase-released (started p) e is h = (h.0, inr (released-At p h.0 is))
  InPhase-released (waiting p) e is h = (h.0, inr (released-At p h.0 is))
  InPhase-released (ended p _) e is h = absurd (let e' = h.0 in cc)
  InPhase-released (not_found p) e is h = absurd (let e' = h.0 in cc)
  InPhase-released not_started e is h = absurd (no_process h.1 is)

  pub release_job-IsSound : IsSound k j → IsSound k (release_job pid ws j)
  release_job-IsSound h = by_test j.entry (is_process pid j.process) refl refl
    where
      by_test :
          (a b : Bool)
          → j.entry ≡ a
          → is_process pid j.process ≡ b
          → IsSound k (if a && b then released else j)
      by_test true true e is = InPhase-released j.phase e is h
      by_test true false e is = h
      by_test false b e is = h

-- Whether the reaper may unlock a proc: what the table has is locked.
pub IsSound-locked : (k : ℕ → Child) (j : Job) → IsSound k j → j.entry ≡ true → j.locked ≡ true
IsSound-locked k j h e = by_phase j.phase h
  where
    by_phase : (f : Phase) → InPhase k j f → j.locked ≡ true
    by_phase outside h = absurd (cc)
    by_phase registered h = h.0.1
    by_phase (forked p) h = h.0.1
    by_phase (started p) h = elim h.1 [ inl held ↦ held.1 | inr r ↦ absurd (let e' = r.0 in cc) ]
    by_phase (waiting p) h = elim h.1 [ inl held ↦ held.1 | inr r ↦ absurd (let e' = r.0 in cc) ]
    by_phase (ended p ws) h = absurd (cc)
    by_phase (not_found p) h = absurd (cc)
    by_phase not_started h = h.0.1
