-- ===== src/Procwait/Waiters.antt =====
-- procwait/procwait.go, `Wait`: what each turn keeps of the table and of those that wait.
use docker_systemd.Base.{
  ℕ, ◌<◌, ◌≡◌, ◌≢◌, ◌⊎◌, inl, inr, sym, ap, subst, true, false, Bool-cases, Option, none, some,
  ◌==◌, ==_iff,
}
use mathlib.Core.Option
use docker_systemd.Procwait.{
  put, Child, zombie, reaped, Waiter, idle, missed, joined, got, World, is_there,
}
use docker_systemd.Procwait.Jobs.{Stays}

-- The process has not been reaped, or the reaper has not come to the table yet.
abbrev pub IsDue : World → ℕ → Type 0
IsDue s pid = (is_there (s.children pid) ≡ true) ⊎ ((ws : ℕ) × (s.reaper ≡ some (pid, ws)))

-- The table: its procs are there, locked, due and distinct.
pub record IsTable (s : World) : Type 0 where
  pub known : (pid a : ℕ) → s.w pid ≡ some a → a < s.fresh
  pub locked : (pid a : ℕ) → s.w pid ≡ some a → (s.heap a).locked ≡ true
  pub due : (pid a : ℕ) → s.w pid ≡ some a → IsDue s pid
  pub own : (pid pid' a : ℕ) → s.w pid ≡ some a → s.w pid' ≡ some a → pid ≡ pid'
  pub reaper_lem : (pid ws : ℕ) → s.reaper ≡ some (pid, ws) → s.children pid ≡ reaped ws

-- A goroutine that waits on the proc at `a`: the table has it, or it is free, with the status.
abbrev pub IsServed : World → Waiter → Type 0
IsServed s idle = Unit
IsServed s missed = Unit
IsServed s (joined pid a) =
    (s.w pid ≡ some a)
    ⊎ ((a < s.fresh)
        × ((s.heap a).locked ≡ false)
        × ((pid' : ℕ) → s.w pid' ≢ some a)
        × (s.children pid ≡ reaped (s.heap a).ws))
IsServed s (got pid ws) = s.children pid ≡ reaped ws

-- Two systems that differ in the commands and in who waits.
pub IsTable-same :
    (s s' : World)
    → s'.w ≡ s.w
    → s'.heap ≡ s.heap
    → s'.fresh ≡ s.fresh
    → s'.children ≡ s.children
    → s'.reaper ≡ s.reaper
    → IsTable s
    → IsTable s'
IsTable-same s s' w heap fresh children reaper h = record {
  known = λ p a e. rw fresh (h.known p a (rw w at e));
  locked = λ p a e. rw heap (h.locked p a (rw w at e));
  due = λ p a e. rw (children, reaper) (h.due p a (rw w at e));
  own = λ p p' a e e'. h.own p p' a (rw w at e) (rw w at e');
  reaper_lem = λ p ws e. rw children (h.reaper_lem p ws (rw reaper at e));
}

-- A child that is born or exits.
pub IsTable-child :
    (s : World) (pid : ℕ) (new : Child)
    → is_there new ≡ true
    → ((ws : ℕ) → s.children pid ≢ reaped ws)
    → IsTable s
    → IsTable (record s { children = put pid new s.children })
IsTable-child s pid new there before h = record {
  known = h.known;
  locked = h.locked;
  due = λ p a e. still p (h.due p a e);
  own = h.own;
  reaper_lem = λ p ws e. elim (Bool-cases (p == pid)) [
    | inl same ↦ absurd (
        before ws
          (subst (λ n. s.children n ≡ reaped ws) ((==_iff p pid).0 same) (h.reaper_lem p ws e)))
    | inr other ↦ rw other (h.reaper_lem p ws e)
  ];
}
  where
    still : (p : ℕ) → IsDue s p → IsDue (record s { children = put pid new s.children }) p
    still p (inr r) = inr r
    still p (inl is) = elim (Bool-cases (p == pid)) [
      | inl same ↦ inl (rw same there)
      | inr other ↦ inl (rw other is)
    ]

pub IsServed-Stays :
    (s s' : World) (v : Waiter)
    → s'.w ≡ s.w
    → s'.heap ≡ s.heap
    → s'.fresh ≡ s.fresh
    → Stays s.children s'.children
    → IsServed s v
    → IsServed s' v
IsServed-Stays s s' idle w heap fresh stays h = tt
IsServed-Stays s s' missed w heap fresh stays h = tt
IsServed-Stays s s' (joined pid a) w heap fresh stays (inl e) = inl (rw w e)
IsServed-Stays s s' (joined pid a) w heap fresh stays (inr (below, free, out, done)) =
    inr (rw fresh below, rw heap free, λ p e. out p (rw w at e), rw heap (stays pid _ done))
IsServed-Stays s s' (got pid ws) w heap fresh stays h = stays pid ws h

-- The reaper's `Wait4`.
module _ (s : World) (pid ws : ℕ) (is : s.children pid ≡ zombie ws) (free : s.reaper ≡ none) where
  abbrev reaped_world : World
  reaped_world = record s { children = put pid (reaped ws) s.children; reaper = some (pid, ws) }

  reaped-IsDue : (p : ℕ) → IsDue s p → IsDue reaped_world p
  reaped-IsDue p (inr (_, e)) = absurd (let e' = rw free at e in cc)
  reaped-IsDue p (inl there) = elim (Bool-cases (p == pid)) [
    | inl same ↦ inr (ws, ap (λ n. some (n, ws)) (sym ((==_iff p pid).0 same)))
    | inr other ↦ inl (rw other there)
  ]

  pub IsTable-reaped : IsTable s → IsTable reaped_world
  IsTable-reaped h = record {
    known = h.known;
    locked = h.locked;
    due = λ p a e. reaped-IsDue p (h.due p a e);
    own = h.own;
    reaper_lem =
        λ p ws' e. let (same, status) = some_pair e in rw (==_self p pid same) (ap reaped status);
  }
    where
      some_pair :
          {p ws' : ℕ}
          → ◌≡◌ {A = Option (ℕ × ℕ)} (some (pid, ws)) (some (p, ws'))
          → (p ≡ pid) × (ws ≡ ws')
      some_pair e =
          let e' = Option.some-injective _ _ e in
          (sym (ap (λ (z : ℕ × ℕ). z.0) e'), ap (λ (z : ℕ × ℕ). z.1) e')

      ==_self : (p pid : ℕ) → p ≡ pid → (p == pid) ≡ true
      ==_self p pid e = (==_iff p pid).1 e
