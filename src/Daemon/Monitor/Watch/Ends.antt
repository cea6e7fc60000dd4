-- ===== src/Daemon/Monitor/Watch/Ends.antt =====
-- systemd/daemons/daemon.go, `monitorCmds`: the loops that look for processes end.
use docker_systemd.Base.{
  ℕ, zero, suc, ◌+◌, ◌≤◌, ◌<◌, ◌≡◌, ◌≢◌, ◌⊎◌, inl, inr, refl, arith, Bool, true, false, List, [],
  ◌∷◌, ◌++◌, Bytes, Option, none, some, if◌then◌else◌,
}
use docker_systemd.Text.{equal}
use docker_systemd.Daemon.State.{System}
use docker_systemd.Daemon.Flow.{next, M, continue, pure, ◌>>=◌, tick}
use docker_systemd.Daemon.Host.{Host, Launch}
use docker_systemd.Daemon.Keeps.{
  Holds, went_on, Keeps, Keeps-pure, Keeps-if, and_then, Keeps-some_defined, Stable,
}
use docker_systemd.Daemon.Monitor.Watch.{
  Watched, Process, own_processes, wait_found, wait_processes, forking_types, living, kids_of,
  wait_kids, wait_forked, watch,
}
use docker_systemd.Daemon.Monitor.Watch.Later.{
  Keeps-set_pids, Keeps-set_cmds, after_calls, Keeps-wait_found, kids_round, Keeps-kids_round,
  no_kids, Keeps-wait_pid_file, Keeps-wait_cmds, Keeps-read, Later, Holds-weaken, le_or_lt, next_at,
}

-- From the call `n` on, the service has no process any more: no one is listed with its name, and none
-- of the children that were forked is there.
pub record IsQuiet (sys : Watched) (name : Bytes) (n : ℕ) : Type 0 where
  pub unlisted :
      (at : ℕ) (list : List Process)
      → n ≤ at
      → sys.processes at ≡ some list
      → own_processes name list ≡ []
  pub gone : (pid at : ℕ) → n ≤ at → sys.is pid at ≡ false

module _ (host : Host) (sys : Watched) (name : Bytes) {G : System → Type 0}
    (stable : Stable G name) where
  module _ (n : ℕ) (quiet : IsQuiet sys name n) where
    -- One round, at a call `at`.
    found-Later :
        (again : M (List Launch)) (o : Option (List Process)) (at : ℕ) (t : System)
        → sys.processes at ≡ o
        → Later G (at + 1) t
        → (at < n → Keeps (Later G (at + 1)) again)
        → Holds (Later G (at + 1)) (wait_found host sys name again o t)
    unfolding pure
    found-Later again none at t listed later more = went_on later
    found-Later again (some list) at t listed later more =
        (Keeps-wait_found host sys name stable again list (at + 1)
            λ some_left. more (early some_left)).at
          t later
      where
        early : own_processes name list ≢ [] → at < n
        early some_left = elim (le_or_lt n at) [
          | inl late ↦ absurd (some_left (quiet.unlisted at list late listed))
          | inr before ↦ before
        ]

    -- The loop over the list of processes.
    Keeps-wait_processes :
        (rounds c : ℕ)
        → n ≤ rounds + c
        → Keeps (Later G c) (wait_processes host sys name (suc rounds))
    unfolding wait_processes ◌>>=◌ tick
    Keeps-wait_processes zero c enough = record {
      at = λ t later.
          Holds-weaken _
            (found-Later (wait_processes host sys name zero) (sys.processes t.clock) t.clock _ refl
              (omega arith, after_calls host sys name stable 1 t later.1)
              (λ early. absurd (omega (arith, later.0))))
            (λ u h. (omega (arith, h.0), h.1));
    }
    Keeps-wait_processes (suc rounds) c enough = record {
      at = λ t later.
          Holds-weaken _
            (found-Later (wait_processes host sys name (suc rounds)) (sys.processes t.clock) t.clock
              _ refl (omega arith, after_calls host sys name stable 1 t later.1)
              (λ early. Keeps-wait_processes rounds (t.clock + 1) (omega (arith, later.0))))
            (λ u h. (omega (arith, h.0), h.1));
    }

    -- What a walk over processes gives: those that are there, after some calls.
    abbrev Gathers : M (List ℕ) → System → Type 0
    Gathers m s =
        (kids : List ℕ) × (k : ℕ) × (m s ≡ next kids (record s { clock = s.clock + k }))
        × ((kids ≡ []) ⊎ ((s.clock < n) × (1 ≤ k)))

    living-Gathers : (children : List ℕ) (s : System) → Gathers (living host sys name children) s
    unfolding living ◌>>=◌ tick pure
    living-Gathers [] s = ([], 0, next_at [] s (s.clock + 0) (omega arith), inl refl)
    living-Gathers (c ∷ children) s =
        by_rest (living-Gathers children (record s { clock = s.clock + 1 }))
      where
        by_is :
            (kids : List ℕ) (k : ℕ) (b : Bool)
            → sys.is c s.clock ≡ b
            → (kids ≡ []) ⊎ ((s.clock + 1 < n) × (1 ≤ k))
            → ((if b then c ∷ kids else kids) ≡ []) ⊎ ((s.clock < n) × (1 ≤ 1 + k))
        by_is kids k true there rest = elim (le_or_lt n s.clock) [
          | inl late ↦ absurd (let no_one = quiet.gone c s.clock late in cc)
          | inr before ↦ inr (before, omega arith)
        ]
        by_is kids k false away (inl none_left) = inl none_left
        by_is kids k false away (inr (early, some_calls)) = inr (omega arith, omega arith)

        by_rest :
            Gathers (living host sys name children) (record s { clock = s.clock + 1 })
            → Gathers (living host sys name (c ∷ children)) s
        by_rest (kids, k, run, rest) = (
          if sys.is c s.clock then c ∷ kids else kids,
          1 + k,
          rw run
              (next_at _ (record s { clock = s.clock + 1 + k }) (s.clock + (1 + k)) (omega arith)),
          by_is kids k (sys.is c s.clock) refl rest,
        )

    kids_of-Gathers : (cmdpids : List ℕ) (s : System) → Gathers (kids_of host sys name cmdpids) s
    unfolding kids_of ◌>>=◌ tick pure
    kids_of-Gathers [] s = ([], 0, next_at [] s (s.clock + 0) (omega arith), inl refl)
    kids_of-Gathers (cmd ∷ cmdpids) s =
        by_kids (living-Gathers (sys.find cmd s.clock) (record s { clock = s.clock + 1 }))
          (λ m. kids_of-Gathers cmdpids (record s { clock = m }))
      where
        together :
            (kids more : List ℕ) (k l : ℕ)
            → (kids ≡ []) ⊎ ((s.clock + 1 < n) × (1 ≤ k))
            → (more ≡ []) ⊎ ((s.clock + 1 + k < n) × (1 ≤ l))
            → (kids ++ more ≡ []) ⊎ ((s.clock < n) × (1 ≤ 1 + k + l))
        together kids more k l (inl e) (inl e') = inl (rw (e, e') refl)
        together kids more k l (inr early) _ = inr (omega arith, omega arith)
        together kids more k l (inl e) (inr early) = inr (omega arith, omega arith)

        by_kids :
            Gathers (living host sys name (sys.find cmd s.clock)) (record s { clock = s.clock + 1 })
            → ((m : ℕ) → Gathers (kids_of host sys name cmdpids) (record s { clock = m }))
            → Gathers (kids_of host sys name (cmd ∷ cmdpids)) s
        by_kids (kids, k, run, rest) others =
            let (more, l, run', rest') = others (s.clock + 1 + k) in
            (
              kids ++ more,
              1 + k + l,
              rw (run, run')
                  (next_at _ (record s { clock = s.clock + 1 + k + l }) (s.clock + (1 + k + l))
                    (omega arith)),
              together kids more k l rest rest',
            )

    kids-Later :
        (again : M (List Launch)) (c : ℕ) (cmdpids : List ℕ) (t : System)
        → Later G c t
        → (t.clock < n → Keeps (Later G (t.clock + 1)) again)
        → Holds (Later G c) (
            continue
              (kids_of host sys name cmdpids t)
              (λ kids. kids_round host sys name again kids))
    kids-Later again c cmdpids t later more = by_walk (kids_of-Gathers cmdpids t)
      where
        by_walk :
            Gathers (kids_of host sys name cmdpids) t
            → Holds (Later G c) (
                continue
                  (kids_of host sys name cmdpids t)
                  (λ kids. kids_round host sys name again kids))
        by_walk (kids, k, run, inl none_left) =
            rw (run, none_left)
              (no_kids host sys name stable again c (record t { clock = t.clock + k })
                (omega (arith, later.0), after_calls host sys name stable k t later.1))
        by_walk (kids, k, run, inr (early, some_calls)) = rw run (
            Holds-weaken _
              ((Keeps-kids_round host sys name stable again kids (t.clock + 1) (more early)).at
                (record t { clock = t.clock + k })
                (omega arith, after_calls host sys name stable k t later.1))
              (λ u h. (omega (arith, h.0), h.1)))

    -- The loop over the children that the processes have left.
    Keeps-wait_kids :
        (rounds c : ℕ) (cmdpids : List ℕ)
        → n ≤ rounds + c
        → Keeps (Later G c) (wait_kids host sys name (suc rounds) cmdpids)
    unfolding wait_kids ◌>>=◌
    Keeps-wait_kids zero c cmdpids enough = record {
      at = λ t later.
          kids-Later (wait_kids host sys name zero cmdpids) c cmdpids t later
            (λ early. absurd (omega (arith, later.0)));
    }
    Keeps-wait_kids (suc rounds) c cmdpids enough = record {
      at = λ t later.
          kids-Later (wait_kids host sys name (suc rounds) cmdpids) c cmdpids t later
            (λ early. Keeps-wait_kids rounds (t.clock + 1) cmdpids (omega (arith, later.0)));
    }

    Keeps-wait_forked :
        (rounds c : ℕ) (pid_file : Bytes) (cmdpids : List ℕ)
        → n ≤ rounds + c
        → Keeps (Later G c) (wait_forked host sys name (suc rounds) pid_file cmdpids)
    unfolding wait_forked
    Keeps-wait_forked rounds c pid_file cmdpids enough =
        and_then
          (Keeps-if (equal pid_file []) (λ _. Keeps-wait_processes rounds c enough)
            (λ _. Keeps-wait_pid_file host sys name stable c pid_file))
          λ ans.
            and_then (Keeps-wait_kids rounds c cmdpids enough)
              λ more. and_then (Keeps-set_pids host sys name stable c _) λ _. Keeps-pure _

    pub Keeps-watch :
        (rounds c : ℕ) → n ≤ rounds + c → Keeps (Later G c) (watch host sys name (suc rounds))
    unfolding watch
    Keeps-watch rounds c enough = and_then (Keeps-set_pids host sys name stable c _) λ _.
        and_then (Keeps-read host sys name stable c) λ d.
          and_then (Keeps-wait_cmds host sys name stable c _) λ first.
            and_then (Keeps-set_cmds host sys name stable c _) λ _.
              and_then (Keeps-some_defined _) λ def.
                and_then
                  (Keeps-if (sys.has_string forking_types def.service_type)
                    (λ _. Keeps-wait_forked rounds c _ _ enough) (λ _. Keeps-pure _))
                  λ more. Keeps-pure _
