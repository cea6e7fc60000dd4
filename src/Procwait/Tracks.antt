-- ===== src/Procwait/Tracks.antt =====
-- procwait/procwait.go: the turn of `Wait` that looks into the table.
use docker_systemd.Base.{
  ℕ, ◌+◌, ◌<◌, ◌≡◌, ◌⊎◌, inl, inr, refl, sym, ap, ◌∙◌, subst, arith, Bool, true, false, Bool-cases,
  Option, none, some, ◌==◌, ==_iff,
}
use mathlib.Core.Option
use docker_systemd.Procwait.{
  put, reaped, Proc, Waiter, idle, missed, joined, got, World, is_there, set_waiter, track,
  track_by, join, wait,
}
use docker_systemd.Procwait.Waiters.{IsDue, IsTable, IsTable-same, IsServed, IsServed-Stays}

abbrev tracked : ℕ → World → World
tracked pid s = record s {
  w = put pid (some s.fresh) s.w;
  heap = put s.fresh (record { locked = true; ws = 0 }) s.heap;
  fresh = s.fresh + 1;
}

-- A new proc in the table.
module _ (s : World) (pid : ℕ) (absent : s.w pid ≡ none) (there : is_there (s.children pid) ≡ true)
    (h : IsTable s) where
  -- An entry is the new one or an old one, with an address below.
  entry-cases :
      (p a : ℕ)
      → (tracked pid s).w p ≡ some a
      → ((p ≡ pid) × (a ≡ s.fresh)) ⊎ ((s.w p ≡ some a) × (a < s.fresh) × ((a == s.fresh) ≡ false))
  entry-cases p a e = elim (Bool-cases (p == pid)) [
    | inl same ↦ inl ((==_iff p pid).0 same, sym (Option.some-injective _ _ (rw same at e)))
    | inr other ↦
        let e' = rw other at e in let below = h.known p a e' in inr (e', below, ground arith)
  ]

  heap-old : (a : ℕ) → (a == s.fresh) ≡ false → (tracked pid s).heap a ≡ s.heap a
  heap-old a other = rw other refl

  tracked-locked : (p a : ℕ) → (tracked pid s).w p ≡ some a → ((tracked pid s).heap a).locked ≡ true
  tracked-locked p a e = elim (entry-cases p a e) [
    | inl (_, new) ↦ let self = (==_iff a s.fresh).1 new in rw self refl
    | inr (e', _, other) ↦ ap Proc.locked (heap-old a other) ∙ h.locked p a e'
  ]

  tracked-IsDue : (p a : ℕ) → (tracked pid s).w p ≡ some a → IsDue s p
  tracked-IsDue p a e = elim (entry-cases p a e) [
    | inl (same, _) ↦ inl (subst (λ n. is_there (s.children n) ≡ true) (sym same) there)
    | inr (e', _, _) ↦ h.due p a e'
  ]

  tracked-own : (p p' a : ℕ) → (tracked pid s).w p ≡ some a → (tracked pid s).w p' ≡ some a → p ≡ p'
  tracked-own p p' a e e' = both (entry-cases p a e) (entry-cases p' a e')
    where
      Case : ℕ → Type 0
      Case q =
          ((q ≡ pid) × (a ≡ s.fresh))
          ⊎ ((s.w q ≡ some a) × (a < s.fresh) × ((a == s.fresh) ≡ false))

      both : Case p → Case p' → p ≡ p'
      both (inl (same, _)) (inl (same', _)) = same ∙ sym same'
      both (inl (_, new)) (inr (_, below, _)) = absurd (ground arith)
      both (inr (_, below, _)) (inl (_, new)) = absurd (ground arith)
      both (inr (found, _, _)) (inr (found', _, _)) = h.own p p' a found found'

  IsTable-tracked : IsTable (tracked pid s)
  IsTable-tracked = record {
    known = λ p a e. elim (entry-cases p a e) [
      | inl (_, new) ↦ ground arith
      | inr (_, below, _) ↦ ground arith
    ];
    locked = tracked-locked;
    due = tracked-IsDue;
    own = tracked-own;
    reaper_lem = h.reaper_lem;
  }

  IsServed-tracked : (v : Waiter) → IsServed s v → IsServed (tracked pid s) v
  IsServed-tracked idle served = tt
  IsServed-tracked missed served = tt
  IsServed-tracked (got p ws) served = served
  IsServed-tracked (joined p a) (inl e) = elim (Bool-cases (p == pid)) [
    | inl same ↦ absurd (let e' = subst (λ n. s.w n ≡ some a) ((==_iff p pid).0 same) e in cc)
    | inr other ↦ inl (rw other e)
  ]
  IsServed-tracked (joined p a) (inr (below, free, out, done)) =
      let other : (a == s.fresh) ≡ false = ground arith in
      inr (
        ground arith,
        ap Proc.locked (heap-old a other) ∙ free,
        λ p' e. elim (entry-cases p' a e) [
          | inl (_, new) ↦ absurd (ground arith)
          | inr (e', _, _) ↦ out p' e'
        ],
        done ∙ ap reaped (sym (ap Proc.ws (heap-old a other))),
      )

-- Everyone that waits, with one that is new.
abbrev pub AreServed : World → Type 0
AreServed s = (t : ℕ) → IsServed s (s.waiters t)

abbrev pub IsFair : World → Type 0
IsFair s = IsTable s × AreServed s

IsServed-put :
    (s : World) (t : ℕ) (v : Waiter)
    → IsServed s v
    → ((t' : ℕ) → IsServed s (s.waiters t'))
    → (t' : ℕ) → IsServed s (put t v s.waiters t')
IsServed-put s t v new old t' = elim (Bool-cases (t' == t)) [
  | inl same ↦ rw same new
  | inr other ↦ rw other (old t')
]

pub set_waiter-IsFair :
    (s : World) (t : ℕ) (v : Waiter) → IsServed s v → IsFair s → IsFair (set_waiter t v s)
set_waiter-IsFair s t v new h = (
  IsTable-same s (set_waiter t v s) refl refl refl refl refl h.0,
  λ t'.
      IsServed-Stays s (set_waiter t v s) (put t v s.waiters t') refl refl refl (λ p ws e. e)
        (IsServed-put s t v new h.1 t'),
)

joined-IsFair :
    (s : World) (t pid : ℕ)
    → s.w pid ≡ none
    → is_there (s.children pid) ≡ true
    → IsFair s
    → IsFair (set_waiter t (joined pid s.fresh) (tracked pid s))
joined-IsFair s t pid absent there h =
    let self : (pid == pid) ≡ true = (==_iff pid pid).1 refl in
    set_waiter-IsFair (tracked pid s) t (joined pid s.fresh) (inl (rw self refl)) (
      IsTable-tracked s pid absent there h.0,
      λ t'. IsServed-tracked s pid absent there h.0 (s.waiters t') (h.1 t'),
    )

track-IsFair : (s : World) (t pid : ℕ) → s.w pid ≡ none → IsFair s → IsFair (track t pid s)
track-IsFair s t pid absent h = by_test (is_there (s.children pid)) refl
  where
    by_test : (b : Bool) → is_there (s.children pid) ≡ b → IsFair (track_by b t pid s)
    by_test false e = set_waiter-IsFair s t missed tt h
    by_test true e = joined-IsFair s t pid absent e h

-- `Wait` with the mutex keeps the table.
pub wait-IsFair : (s : World) (t pid : ℕ) → IsFair s → IsFair (wait t pid s)
wait-IsFair s t pid h = by_entry (s.w pid) refl
  where
    by_entry : (o : Option ℕ) → s.w pid ≡ o → IsFair (join t pid o s)
    by_entry none e = track-IsFair s t pid e h
    by_entry (some a) e = set_waiter-IsFair s t (joined pid a) (inl e) h
