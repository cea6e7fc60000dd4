-- ===== src/Procwait/Returns.antt =====
-- procwait/procwait.go: what the callers of `Run` and `Wait` are told, and when.
use docker_systemd.Base.{
  ℕ, ◌≡◌, inl, inr, refl, sym, ap, ◌∙◌, subst, true, none, some, ◌==◌, ==_iff,
}
use docker_systemd.Procwait.{
  put, Child, alive, zombie, reaped, Phase, started, ended, not_found, joined, got, World, set_job,
  set_child, set_waiter, release, wait_cmd, is_process,
}
use docker_systemd.Procwait.Steps.{
  Step, looks, exits, reaps, releases, returns, Steps, here, more, IsReachable,
}
use docker_systemd.Procwait.Jobs.{InPhase, IsSound-locked}
use docker_systemd.Procwait.Waiters.{IsTable, IsServed}
use docker_systemd.Procwait.Sound.{IsReachable-IsInvariant}

-- The status of a child that has been reaped.
abbrev status : Child → ℕ
status (reaped ws) = ws
status _ = 0

module _ {s : World} (reach : IsReachable s) where
  in_phase : (c : ℕ) (f : Phase) → (s.jobs c).phase ≡ f → InPhase s.children (s.jobs c) f
  in_phase c f is = subst (InPhase s.children (s.jobs c)) is ((IsReachable-IsInvariant reach).0 c)

  -- At all times, a `Run` that has returned a status has returned the one with which the process of
  -- its command was reaped.
  pub run-status : (c pid ws : ℕ) → (s.jobs c).phase ≡ ended pid ws → s.children pid ≡ reaped ws
  run-status c pid ws is = (in_phase c (ended pid ws) is).1

  -- At all times, a `Wait` that has returned a status has returned the one with which the process
  -- that it was asked for was reaped.
  wait-status : (t pid ws : ℕ) → s.waiters t ≡ got pid ws → s.children pid ≡ reaped ws
  wait-status t pid ws is = subst (IsServed s) is ((IsReachable-IsInvariant reach).1.1 t)

  -- A goroutine in `Wait` is never forgotten: at any time at which its process has been reaped and
  -- the reaper has nothing left to do, its next turn returns the status of the process.
  pub wait-returns :
      (t pid at ws : ℕ)
      → s.waiters t ≡ joined pid at
      → s.children pid ≡ reaped ws
      → s.reaper ≡ none
      → Step s (set_waiter t (got pid ws) s)
  wait-returns t pid at ws is done free =
      turn (subst (IsServed s) is ((IsReachable-IsInvariant reach).1.1 t))
    where
      table : IsTable s
      table = (IsReachable-IsInvariant reach).1.0

      turn : IsServed s (joined pid at) → Step s (set_waiter t (got pid ws) s)
      turn (inl e) = elim (table.due pid at e) [
        | inl there ↦ absurd (let e' = rw done at there in cc)
        | inr (ws', pending) ↦ absurd (let e' = rw free at pending in cc)
      ]
      turn (inr (below, unlocked, out, done')) =
          let same : (s.heap at).ws ≡ ws = ap status (sym done' ∙ done) in
          subst (λ x. Step s (set_waiter t (got pid x) s)) same (returns t pid at is unlocked)

  -- What the reaper may find in the table, to unlock it, is locked: the proc of each command and
  -- that of each process that `Wait` put there.
  entry-locked :
      (c pid a : ℕ)
      → (s.jobs c).entry ≡ true
      → s.w pid ≡ some a
      → ((s.jobs c).locked ≡ true) × ((s.heap a).locked ≡ true)
  entry-locked c pid a there e = (
    IsSound-locked s.children (s.jobs c) ((IsReachable-IsInvariant reach).0 c) there,
    (IsReachable-IsInvariant reach).1.0.locked pid a e,
  )

  -- A `Run` that is behind `cmd.Start`, with the command in the table and its process alive, may
  -- return that the command was not found: that is where it gets if the process exits and the reaper
  -- comes to the table before `waitCmd` looks.
  pub run-not_found :
      (c pid ws : ℕ)
      → (s.jobs c).phase ≡ started pid
      → (s.jobs c).entry ≡ true
      → s.children pid ≡ alive
      → s.reaper ≡ none
      → (u : World) × Steps s u × ((u.jobs c).phase ≡ not_found pid)
  run-not_found c pid ws is there live free =
      let self : (pid == pid) ≡ true = (==_iff pid pid).1 refl in
      let self_c : (c == c) ≡ true = (==_iff c c).1 refl in
      let found : is_process pid (s.jobs c).process ≡ true =
        rw (in_phase c (started pid) is).0 self in
      (
        looked,
        more
            (more (more (more here (exits pid ws live)) (reaps pid ws (rw self refl) free))
              (releases pid ws refl))
            (looks c pid (rw (there, found) is)),
        rw (self_c, there, found) refl,
      )
    where
      gone : World
      gone = set_child pid (zombie ws) s

      late : World
      late =
          release pid ws
            (record gone { children = put pid (reaped ws) gone.children; reaper = some (pid, ws) })

      looked : World
      looked = set_job c (wait_cmd pid (late.jobs c)) late
