-- ===== src/Procwait/Reap.antt =====
-- procwait/procwait.go, `FinalReap`: how often it calls `Wait4`. The clock and the answers of `Wait4`
-- are parameters; what `waitWithPid` does with a process is in Procwait.
use docker_systemd.Base.{
  ℕ, zero, suc, ◌+◌, ◌-◌, ◌≡◌, ◌≢◌, ◌≤◌, ◌<◌, inl, inr, refl, arith, Bool, true, false, Bool-cases,
  Option, none, some, ltb, leb, if◌then◌else◌, ◌==◌,
}

-- `Wait4` with WNOHANG: an error, no process that has ended, or one.
pub data Answer : Type 0 where
  is_error no_process : Answer
  a_process : ℕ → Answer

pub data ReapEnd : Type 0 where
  by_timeout by_error by_idleness : ReapEnd

-- The loop has ended, after at most so many calls.
abbrev pub EndsBy : ℕ → Option (ReapEnd × ℕ) → Type 0
EndsBy bound none = true ≡ false
EndsBy bound (some (reason, calls)) = calls ≤ bound

module _ (now : ℕ → ℕ) (wait4 : ℕ → Answer) where
  -- `consecutiveNoProcess` is counted up to 3; `again` is the loop behind this round.
  abbrev pub on_answer :
      (ℕ → Option (ReapEnd × ℕ)) → (idle calls : ℕ) → Answer → Option (ReapEnd × ℕ)
  on_answer again idle calls is_error = some (by_error, calls)
  on_answer again idle calls no_process =
      if leb 3 (idle + 1) then some (by_idleness, calls) else again (idle + 1)
  on_answer again idle calls (a_process wpid) = again 0

  -- The loop from the call `at` of `Wait4` on, in at most `rounds` rounds: why it ends, and how many
  -- calls there were by then.
  unfoldable pub reap : (rounds start at idle : ℕ) → Option (ReapEnd × ℕ)
  reap zero start at idle = none
  reap (suc rounds) start at idle =
      let again = reap rounds start (at + 1) in
      if ltb 10000000000 (now at - start)
      then some (by_timeout, at)
      else on_answer again idle (at + 1) (wait4 at)

  -- `FinalReap`
  unfoldable pub final_reap : ℕ → Option (ReapEnd × ℕ)
  final_reap rounds = reap rounds (now 0) 0 0

  module _ (n : ℕ) (none_left : (at wpid : ℕ) → n ≤ at → wait4 at ≢ a_process wpid) where
    reap-EndsBy :
        (rounds start at idle : ℕ)
        → idle ≤ 2
        → at ≤ n + idle
        → n + 3 ≤ rounds + at
        → EndsBy (n + 3) (reap rounds start at idle)
    unfolding reap
    reap-EndsBy zero start at idle low early enough = absurd (omega arith)
    reap-EndsBy (suc rounds) start at idle low early enough =
        by_time (ltb 10000000000 (now at - start)) (
          by_answer (wait4 at) refl (λ idle' low' early'.
            reap-EndsBy rounds start (at + 1) idle' low' early' (omega arith)))
      where
        again : ℕ → Option (ReapEnd × ℕ)
        again idle' = reap rounds start (at + 1) idle'

        by_time :
            (b : Bool)
            → EndsBy (n + 3) (on_answer again idle (at + 1) (wait4 at))
            → EndsBy
                (n + 3)
                (if b then some (by_timeout, at) else on_answer again idle (at + 1) (wait4 at))
        by_time true h = omega arith
        by_time false h = h

        by_count :
            (b : Bool)
            → leb 3 (idle + 1) ≡ b
            → ((idle' : ℕ) → idle' ≤ 2 → at + 1 ≤ n + idle' → EndsBy (n + 3) (again idle'))
            → EndsBy (n + 3) (if b then some (by_idleness, at + 1) else again (idle + 1))
        by_count true full more = omega arith
        by_count false full more = more (idle + 1) (ground arith) (omega arith)

        by_answer :
            (a : Answer)
            → wait4 at ≡ a
            → ((idle' : ℕ) → idle' ≤ 2 → at + 1 ≤ n + idle' → EndsBy (n + 3) (again idle'))
            → EndsBy (n + 3) (on_answer again idle (at + 1) a)
        by_answer is_error e more = omega arith
        by_answer no_process e more = by_count (leb 3 (idle + 1)) refl more
        by_answer (a_process wpid) e more = elim (Bool-cases (leb n at)) [
          | inl late ↦ absurd (none_left at wpid (ground arith) e)
          | inr before ↦ more 0 (omega arith) (ground arith)
        ]

    -- Where `Wait4` gives no process from the call `n` on, `FinalReap` ends after at most `n + 3` calls,
    -- however long they take.
    pub final_reap-EndsBy : EndsBy (n + 3) (final_reap (n + 3))
    unfolding final_reap
    final_reap-EndsBy = reap-EndsBy (n + 3) (now 0) 0 0 (omega arith) (omega arith) (omega arith)

module _ (now : ℕ → ℕ) (wait4 : ℕ → Answer) where
  -- Why the last reaping may end after so many calls: more than ten seconds have passed, the last call
  -- failed, or none of the last three calls had a process.
  abbrev pub HasReaped : ℕ → ReapEnd × ℕ → Type 0
  HasReaped start (by_timeout, calls) = 10000000000 < now calls - start
  HasReaped start (by_error, calls) = (k : ℕ) × (calls ≡ k + 1) × (wait4 k ≡ is_error)
  HasReaped start (by_idleness, calls) =
      (3 ≤ calls) × ((k : ℕ) → k < calls → calls ≤ k + 3 → wait4 k ≡ no_process)

  abbrev pub AfterReap : ℕ → Option (ReapEnd × ℕ) → Type 0
  AfterReap start none = Unit
  AfterReap start (some r) = HasReaped start r

  -- The last `idle` calls before the call `at` had no process.
  abbrev HasIdled : ℕ → ℕ → Type 0
  HasIdled idle at = (k : ℕ) → k < at → at ≤ k + idle → wait4 k ≡ no_process

  idles : (idle at : ℕ) → wait4 at ≡ no_process → HasIdled idle at → HasIdled (idle + 1) (at + 1)
  idles idle at now_none before k low high = elim (Bool-cases (k == at)) [
    | inl last ↦ let same : k ≡ at = ground arith in rw same now_none
    | inr earlier ↦ before k (ground arith) (ground arith)
  ]

  reap-HasReaped :
      (rounds start at idle : ℕ)
      → idle ≤ 2
      → idle ≤ at
      → HasIdled idle at
      → AfterReap start (reap now wait4 rounds start at idle)
  unfolding reap
  reap-HasReaped zero start at idle low early before = tt
  reap-HasReaped (suc rounds) start at idle low early before =
      elim (Bool-cases (ltb 10000000000 (now at - start))) [
        | inl late ↦ rw late (ground arith)
        | inr in_time ↦ rw in_time (
            by_answer (wait4 at) refl (λ idle' low' early' before'.
              reap-HasReaped rounds start (at + 1) idle' low' early' before'))
      ]
    where
      again : ℕ → Option (ReapEnd × ℕ)
      again idle' = reap now wait4 rounds start (at + 1) idle'

      by_answer :
          (a : Answer)
          → wait4 at ≡ a
          → ((idle' : ℕ)
              → idle' ≤ 2
              → idle' ≤ at + 1
              → HasIdled idle' (at + 1)
              → AfterReap start (again idle'))
          → AfterReap start (on_answer now wait4 again idle (at + 1) a)
      by_answer is_error e more = (at, refl, e)
      by_answer no_process e more = elim (Bool-cases (leb 3 (idle + 1))) [
        | inl full ↦
            rw full (ground arith, λ k low' high. idles idle at e before k low' (ground arith))
        | inr few ↦ rw few (more (idle + 1) (ground arith) (omega arith) (idles idle at e before))
      ]
      by_answer (a_process wpid) e more =
          more 0 (omega arith) (omega arith) (λ k low' high. absurd (omega arith))

  -- Why `FinalReap` has ended, if it has.
  pub final_reap-HasReaped : (rounds : ℕ) → AfterReap (now 0) (final_reap now wait4 rounds)
  unfolding final_reap
  final_reap-HasReaped rounds =
      reap-HasReaped rounds (now 0) 0 0 (omega arith) (omega arith)
        (λ k low high. absurd (omega arith))
