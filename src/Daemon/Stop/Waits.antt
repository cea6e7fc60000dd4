-- ===== src/Daemon/Stop/Waits.antt =====
-- systemd/daemons/daemon.go, `stop`: the bound on the rounds of its wait.
use docker_systemd.Base.{
  ℕ, zero, suc, ◌+◌, ◌-◌, ◌*◌, ◌≤◌, ◌<◌, ◌≡◌, refl, subst, ◌∙◌, arith, Bool, true, false, List, [],
  ◌∷◌, Bytes, Option, none, some, ltb, if◌then◌else◌, Bool-cases, inl, inr, ltb→ge,
}
use docker_systemd.Daemon.State.{Daemon, System, find}
use docker_systemd.Daemon.Flow.{
  Flow, next, returned, panicked, deadlocked, no_fuel, M, pure, panic, deadlock, continue, ◌>>=◌,
  get, tick, sleep, read, read_result, lock, acquired,
}
use docker_systemd.Daemon.Host.{Host, time_now}
use docker_systemd.Daemon.Stop.{all_exited, wait_exit, wait_rounds}

-- The system behind a statement: no call is undone, and nothing slept.
abbrev Advances : System → Flow Bool → Type 0
Advances s (next b t) = (s.clock ≤ t.clock) × (t.slept ≡ s.slept)
Advances s _ = Unit

Advances-later :
    (s t : System) (r : Flow Bool)
    → s.clock ≤ t.clock
    → t.slept ≡ s.slept
    → Advances t r
    → Advances s r
Advances-later s t (next b u) h e (k, p) = (omega arith, p ∙ e)
Advances-later s t (returned r u) h e k = tt
Advances-later s t panicked h e k = tt
Advances-later s t deadlocked h e k = tt
Advances-later s t no_fuel h e k = tt

module _ (host : Host) (name : Bytes) (start tout : ℕ) where
  all_exited-Advances :
      (cmds : List (Option ℕ)) (s : System) → Advances s (all_exited host name cmds s)
  unfolding all_exited ◌>>=◌ tick pure panic
  all_exited-Advances [] s = (omega arith, refl)
  all_exited-Advances (none ∷ cmds) s = tt
  all_exited-Advances (some pid ∷ cmds) s =
      go (host.alive pid s.clock) (all_exited-Advances cmds (record s { clock = s.clock + 1 }))
    where
      go :
          (b : Bool)
          → Advances
              (record s { clock = s.clock + 1 })
              (all_exited host name cmds (record s { clock = s.clock + 1 }))
          → Advances s (
              (if b then pure false else all_exited host name cmds)
                (record s { clock = s.clock + 1 }))
      go true k = (omega arith, refl)
      go false k = Advances-later s (record s { clock = s.clock + 1 }) _ (omega arith) refl k

  -- The end of a round, once it is known whether the processes have exited.
  abbrev decide : ℕ → Bool → ℕ → M Bool
  decide rounds exited now =
      if exited
      then pure true
      else if ltb tout (now - start)
      then pure false
      else wait_exit host name rounds start tout

  abbrev end_round : ℕ → Bool → M Bool
  end_round rounds exited = time_now host >>= decide rounds exited

  -- Where the wait began, and that the rounds left outlast the timeout.
  record Enough (rounds : ℕ) (s : System) : Type 0 where
    left : 0 < rounds
    begun : start ≤ host.now s.clock + s.slept
    enough : start + tout < host.now s.clock + s.slept + rounds * 10000000

  module _ (steady : (n m : ℕ) → n ≤ m → host.now n ≤ host.now m) (more : ℕ) where
    abbrev Agree : ℕ → Type 0
    Agree rounds =
        (s : System)
        → Enough rounds s
        → wait_exit host name (rounds + more) start tout s ≡ wait_exit host name rounds start tout s

    end_round-Agree :
        (rounds : ℕ) (exited : Bool) (s : System)
        → Agree rounds
        → start ≤ host.now s.clock + s.slept
        → start + tout < host.now s.clock + s.slept + rounds * 10000000
        → end_round (rounds + more) exited s ≡ end_round rounds exited s
    unfolding ◌>>=◌ time_now tick get pure
    end_round-Agree rounds true s agree h k = refl
    end_round-Agree rounds false s agree h k =
        elim (Bool-cases (ltb tout (host.now s.clock + s.slept - start))) [
          | inl late ↦ rw (late) refl
          | inr early ↦
              let in_time = ltb→ge tout (host.now s.clock + s.slept - start) early in
              let later = steady s.clock (s.clock + 1) (omega arith) in
              rw early (
                agree (record s { clock = s.clock + 1 })
                  (record { left = omega arith; begun = omega arith; enough = omega arith }))
        ]

    round-Agree :
        (rounds : ℕ) (r : Flow Bool) (s : System)
        → Agree rounds
        → Advances s r
        → start ≤ host.now s.clock + s.slept
        → start + tout < host.now s.clock + s.slept + rounds * 10000000
        → continue r (end_round (rounds + more)) ≡ continue r (end_round rounds)
    round-Agree rounds (next b t) s agree (k, p) h e =
        let later = steady s.clock t.clock k in
        end_round-Agree rounds b t agree (omega arith) (omega arith)
    round-Agree rounds (returned x t) s agree k h e = refl
    round-Agree rounds panicked s agree k h e = refl
    round-Agree rounds deadlocked s agree k h e = refl
    round-Agree rounds no_fuel s agree k h e = refl

    locked-Agree :
        (rounds : ℕ) (d : Daemon) (b : Bool) (s : System)
        → Agree rounds
        → start ≤ host.now s.clock + s.slept
        → start + tout < host.now s.clock + s.slept + rounds * 10000000
        → continue
            ((if b then deadlock else pure d) s)
            (λ d. all_exited host name d.cmds >>= end_round (rounds + more))
          ≡ continue
              ((if b then deadlock else pure d) s)
              (λ d. all_exited host name d.cmds >>= end_round rounds)
    unfolding deadlock pure ◌>>=◌
    locked-Agree rounds d true s agree h e = refl
    locked-Agree rounds d false s agree h e =
        round-Agree rounds (all_exited host name d.cmds s) s agree (all_exited-Advances d.cmds s) h
          e

    wait_exit-Agree : (rounds : ℕ) → Agree rounds
    unfolding wait_exit ◌>>=◌ sleep lock read
    wait_exit-Agree zero s e = elim e.left [ ]
    wait_exit-Agree (suc rounds) s e =
        let next_round : suc (rounds + more) ≡ suc rounds + more = omega arith in
        subst
          (λ n. wait_exit host name n start tout s ≡ wait_exit host name (suc rounds) start tout s)
          next_round (go (find name s.list) refl (wait_exit-Agree rounds))
      where
        go :
            (o : Option Daemon)
            → find name s.list ≡ o
            → Agree rounds
            → continue
                (continue (read_result o (record s { slept = s.slept + 10000000 })) acquired)
                (λ d. all_exited host name d.cmds >>= end_round (rounds + more))
              ≡ continue
                  (continue (read_result o (record s { slept = s.slept + 10000000 })) acquired)
                  (λ d. all_exited host name d.cmds >>= end_round rounds)
        go none p agree = refl
        go (some d) p agree =
            locked-Agree rounds d d.held (record s { slept = s.slept + 10000000 }) agree
              (let b = e.begun in omega arith) (let k = e.enough in omega arith)

-- The bound on the rounds of the wait in `stop` does not end it: with any greater bound it returns
-- the same from the same system, for a clock that never goes back and a wait that began in the
-- past.
pub wait_exit-rounds :
    (host : Host) (name : Bytes) (start tout : ℕ)
    → ((n m : ℕ) → n ≤ m → host.now n ≤ host.now m)
    → (more : ℕ) (s : System) → start ≤ host.now s.clock + s.slept
    → wait_exit host name (wait_rounds host name tout + more) start tout s
      ≡ wait_exit host name (wait_rounds host name tout) start tout s
wait_exit-rounds host name start tout steady more s h =
    wait_exit-Agree host name start tout steady more (wait_rounds host name tout) s
      (record { left = omega arith; begun = h; enough = omega arith })
