-- ===== src/Daemon/Monitor/Watch/Later.antt =====
-- systemd/daemons/daemon.go, `monitorCmds`: what each statement does to the number of
-- calls that have been made.
use docker_systemd.Base.{
  ℕ, zero, suc, ◌+◌, subst, refl, ◌≤◌, ◌<◌, ◌≡◌, ◌≢◌, ◌⊎◌, ap, arith, List, [], ◌∷◌, Bytes, Option,
  none, some,
}
use docker_systemd.Text.{equal}
use docker_systemd.Text.Laws.{equal_self}
use docker_systemd.Daemon.State.{Daemon, System, find, update}
use docker_systemd.Daemon.Flow.{
  Flow, next, returned, panicked, deadlocked, no_fuel, M, pure, ◌>>=◌, modify, tick, read,
  read_result,
}
use docker_systemd.Daemon.Host.{Host, Launch}
use docker_systemd.Daemon.Keeps.{
  Holds, went_on, came_back, crashed, blocked, Keeps, Keeps-pure, Keeps-panic, Keeps-if, and_then,
  Stable,
}
use docker_systemd.Daemon.Monitor.Watch.{
  Watched, Process, set_pids, set_cmds, own_processes, not_nil, wait_for, wait_each, wait_cmds,
  wait_main, wait_found, wait_pid_file, or_again,
}

-- So many calls have been made, in a system with `G`.
abbrev pub Later : (System → Type 0) → ℕ → System → Type 0
Later G c s = (c ≤ s.clock) × G s

held_at : {A : Type 0} {P : System → Type 0} (a : A) (s : System) → Holds P (next a s) → P s
held_at a s (went_on h) = h

pub Holds-weaken :
    {A : Type 0} {P Q : System → Type 0} (r : Flow A)
    → Holds P r
    → ((s : System) → P s → Q s)
    → Holds Q r
Holds-weaken (next a s) (went_on p) k = went_on (k s p)
Holds-weaken (returned a s) (came_back p) k = came_back (k s p)
Holds-weaken panicked h k = crashed
Holds-weaken deadlocked h k = blocked
Holds-weaken no_fuel h k = elim h [ ]

pub le_or_lt : (a b : ℕ) → (a ≤ b) ⊎ (b < a)
le_or_lt a b = ground arith

pub next_at :
    {A : Type 0} (a : A) (s : System) (m : ℕ)
    → s.clock ≡ m
    → next a s ≡ next a (record s { clock = m })
next_at a s m e = ap (λ m. next a (record s { clock = m })) e

module _ (host : Host) (sys : Watched) (name : Bytes) where
  -- A round of the last loop, behind its walk over the children.
  abbrev pub kids_round : M (List Launch) → List ℕ → M (List Launch)
  kids_round again kids = modify name (set_pids kids) >>= λ _.
      wait_each host sys name kids >>= λ ans. or_again host sys name again (not_nil ans)

module _ (host : Host) (sys : Watched) (name : Bytes) {G : System → Type 0}
    (stable : Stable G name) where
  after_call : (s : System) → G s → G (record s { clock = s.clock + 1 })
  unfolding tick
  after_call s h = held_at s.clock (record s { clock = s.clock + 1 }) (stable.ticks.at s h)

  pub after_calls : (k : ℕ) (s : System) → G s → G (record s { clock = s.clock + k })
  after_calls zero s h =
      let e : s.clock ≡ s.clock + 0 = omega arith in subst (λ m. G (record s { clock = m })) e h
  after_calls (suc k) s h =
      let e : s.clock + 1 + k ≡ s.clock + suc k = omega arith in
      subst (λ m. G (record s { clock = m })) e
        (after_calls k (record s { clock = s.clock + 1 }) (after_call s h))

  pub Keeps-tick : (c : ℕ) → Keeps (Later G c) tick
  unfolding tick
  Keeps-tick c = record { at = λ s h. went_on (omega (arith, h.0), after_call s h.1) }

  Keeps-set :
      (c : ℕ) (f : Daemon → Daemon)
      → ((d : Daemon) → (f d).masked ≡ d.masked)
      → ((d : Daemon) → (f d).def ≡ d.def)
      → Keeps (Later G c) (modify name f)
  unfolding modify
  Keeps-set c f m e = record {
    at = λ s h. went_on (
      h.0,
      held_at tt (record s { list = update name f s.list }) ((stable.changes f m e).at s h.1),
    );
  }

  pub Keeps-set_pids : (c : ℕ) (pids : List ℕ) → Keeps (Later G c) (modify name (set_pids pids))
  Keeps-set_pids c pids = Keeps-set c (set_pids pids) (λ d. refl) (λ d. refl)

  pub Keeps-set_cmds :
      (c : ℕ) (cmds : List (Option ℕ)) → Keeps (Later G c) (modify name (set_cmds cmds))
  Keeps-set_cmds c cmds = Keeps-set c (set_cmds cmds) (λ d. refl) (λ d. refl)

  pub Keeps-wait_for : (c pid : ℕ) → Keeps (Later G c) (wait_for host sys name pid)
  unfolding wait_for
  Keeps-wait_for c pid = and_then (Keeps-tick c) λ at. Keeps-pure _

  pub Keeps-wait_each : (c : ℕ) (pids : List ℕ) → Keeps (Later G c) (wait_each host sys name pids)
  unfolding wait_each
  Keeps-wait_each c [] = Keeps-pure _
  Keeps-wait_each c (p ∷ pids) =
      and_then (Keeps-wait_for c p) λ a. and_then (Keeps-wait_each c pids) λ ans. Keeps-pure _

  pub Keeps-wait_found :
      (again : M (List Launch)) (list : List Process) (c : ℕ)
      → (own_processes name list ≢ [] → Keeps (Later G c) again)
      → Keeps (Later G c) (wait_found host sys name again (some list))
  Keeps-wait_found again list c more = and_then (Keeps-set_pids c _) λ _.
      and_then (Keeps-wait_each c _) λ ans.
        and_then
          (Keeps-if (equal (own_processes name list) []) (λ _. Keeps-pure _)
            (λ other. more λ e. absurd (ground (arith, equal_self [], e, other))))
          λ rest. Keeps-pure _

  pub Keeps-or_again :
      (again : M (List Launch)) (ans : List Launch) (c : ℕ)
      → Keeps (Later G c) again
      → Keeps (Later G c) (or_again host sys name again ans)
  Keeps-or_again again [] c more = Keeps-pure _
  Keeps-or_again again (a ∷ ans) c more = and_then more λ rest. Keeps-pure _

  pub Keeps-kids_round :
      (again : M (List Launch)) (kids : List ℕ) (c : ℕ)
      → Keeps (Later G c) again
      → Keeps (Later G c) (kids_round host sys name again kids)
  Keeps-kids_round again kids c more =
      and_then (Keeps-set_pids c _)
        λ _. and_then (Keeps-wait_each c kids) λ ans. Keeps-or_again again _ c more

  pub no_kids :
      (again : M (List Launch)) (c : ℕ) (t : System)
      → Later G c t
      → Holds (Later G c) (kids_round host sys name again [] t)
  unfolding wait_each not_nil ◌>>=◌ pure
  no_kids again c t later =
      (and_then (Keeps-set_pids c []) λ _. record { at = λ s h. went_on h }).at t later

  pub Keeps-wait_main : (c : ℕ) (p : Option ℕ) → Keeps (Later G c) (wait_main host sys name p)
  Keeps-wait_main c none = Keeps-pure _
  Keeps-wait_main c (some p) =
      and_then (Keeps-set_pids c _)
        λ _. and_then (Keeps-wait_for c p) λ a. and_then (Keeps-set_pids c _) λ _. Keeps-pure _

  pub Keeps-wait_pid_file :
      (c : ℕ) (path : Bytes) → Keeps (Later G c) (wait_pid_file host sys name path)
  unfolding wait_pid_file
  Keeps-wait_pid_file c path = and_then (Keeps-tick c) λ at. Keeps-wait_main c _

  pub Keeps-wait_cmds :
      (c : ℕ) (cmds : List (Option ℕ)) → Keeps (Later G c) (wait_cmds host sys name cmds)
  unfolding wait_cmds
  Keeps-wait_cmds c [] = Keeps-pure _
  Keeps-wait_cmds c (none ∷ cmds) = Keeps-panic
  Keeps-wait_cmds c (some pid ∷ cmds) =
      and_then (Keeps-wait_for c pid) λ a. and_then (Keeps-wait_cmds c cmds) λ rest. Keeps-pure _

  pub Keeps-read : (c : ℕ) → Keeps (Later G c) (read name)
  unfolding read
  Keeps-read c = record { at = λ s h. found (find name s.list) s h }
    where
      found : (o : Option Daemon) (s : System) → Later G c s → Holds (Later G c) (read_result o s)
      found none s h = crashed
      found (some d) s h = went_on h
