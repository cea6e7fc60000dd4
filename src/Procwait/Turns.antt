-- ===== src/Procwait/Turns.antt =====
-- procwait/procwait.go: the turns that change the table of `Wait`.
use docker_systemd.Base.{
  ℕ, ◌≡◌, ◌≢◌, inl, inr, refl, sym, ap, ◌∙◌, subst, arith, true, false, Bool-cases, Option, none,
  some, ◌==◌, ==_iff,
}
use mathlib.Core.Option
use docker_systemd.Procwait.{
  put, reaped, Proc, Waiter, idle, missed, joined, got, World, release_proc, release,
}
use docker_systemd.Procwait.Waiters.{IsDue, IsTable, IsServed}

==_sym : (a b : ℕ) → (a == b) ≡ false → (b == a) ≡ false
==_sym a b e = ground arith

-- Where the maps with a new value agree with the old ones.
put-found :
    (w : ℕ → Option ℕ) (pid p a : ℕ)
    → put pid none w p ≡ some a
    → ((p == pid) ≡ false) × (w p ≡ some a)
put-found w pid p a e = elim (Bool-cases (p == pid)) [
  | inl same ↦ absurd (let e' = rw same at e in cc)
  | inr other ↦ (other, (rw other at e))
]

module _ (s : World) (pid ws : ℕ) (pending : s.reaper ≡ some (pid, ws)) (h : IsTable s) where
  -- A proc that is not the one of the process stays as it was.
  heap-kept : (a : ℕ) → s.w pid ≢ some a → release_proc ws (s.w pid) s.heap a ≡ s.heap a
  heap-kept a out = kept (s.w pid) out
    where
      kept : (o : Option ℕ) → o ≢ some a → release_proc ws o s.heap a ≡ s.heap a
      kept none out = refl
      kept (some b) out = elim (Bool-cases (a == b)) [
        | inl same ↦ absurd (out (ap some (sym ((==_iff a b).0 same))))
        | inr other ↦ rw other refl
      ]

  heap-freed :
      (a : ℕ)
      → s.w pid ≡ some a
      → release_proc ws (s.w pid) s.heap a ≡ record { locked = false; ws = ws }
  heap-freed a e = let self : (a == a) ≡ true = (==_iff a a).1 refl in rw (e, self) refl

  own-other : (p a : ℕ) → (p == pid) ≡ false → s.w p ≡ some a → s.w pid ≢ some a
  own-other p a other e e' = let same = h.own p pid a e e' in let is = (==_iff p pid).1 same in cc

  pub IsTable-release : IsTable (release pid ws s)
  IsTable-release = record {
    known = λ p a e. h.known p a (put-found s.w pid p a e).1;
    locked = λ p a e.
        let (other, e') = put-found s.w pid p a e in
        ap Proc.locked (heap-kept a (own-other p a other e')) ∙ h.locked p a e';
    due = λ p a e. let (other, e') = put-found s.w pid p a e in still p other (h.due p a e');
    own = λ p p' a e e'. h.own p p' a (put-found s.w pid p a e).1 (put-found s.w pid p' a e').1;
    reaper_lem = λ p ws' e. absurd (cc);
  }
    where
      still : (p : ℕ) → (p == pid) ≡ false → IsDue s p → IsDue (release pid ws s) p
      still p other (inl there) = inl there
      still p other (inr (ws', e)) =
          let same = ap (λ (z : ℕ × ℕ). z.0) (Option.some-injective _ _ (sym e ∙ pending)) in
          let is = (==_iff p pid).1 same in absurd (cc)

  IsServed-joined : (p a : ℕ) → IsServed s (joined p a) → IsServed (release pid ws s) (joined p a)
  IsServed-joined p a (inl e) = elim (Bool-cases (p == pid)) [
    | inl same ↦
        let is = (==_iff p pid).0 same in
        let mine : s.w pid ≡ some a = subst (λ n. s.w n ≡ some a) is e in
        inr (
          h.known p a e,
          ap Proc.locked (heap-freed a mine),
          λ p' e'.
              let (other, found) = put-found s.w pid p' a e' in own-other p' a other found mine,
          subst (λ n. s.children n ≡ reaped (release_proc ws (s.w pid) s.heap a).ws) (sym is)
              (h.reaper_lem pid ws pending ∙ ap reaped (sym (ap Proc.ws (heap-freed a mine)))),
        )
    | inr other ↦ inl (rw other e)
  ]
  IsServed-joined p a (inr (below, free, out, done)) =
      let same = heap-kept a (out pid) in
      inr (
        below,
        ap Proc.locked same ∙ free,
        λ p' e. out p' (put-found s.w pid p' a e).1,
        done ∙ ap reaped (sym (ap Proc.ws same)),
      )

  pub IsServed-release : (v : Waiter) → IsServed s v → IsServed (release pid ws s) v
  IsServed-release idle served = tt
  IsServed-release missed served = tt
  IsServed-release (joined p a) served = IsServed-joined p a served
  IsServed-release (got p status) served = served
