-- ===== src/Commands/Loops.antt =====
-- systemd/command.go: the loops over names and over services do what they are to do.
use docker_systemd.Base.{
  ◌≡◌, ◌⊎◌, inl, inr, refl, sym, ap, ◌∙◌, true, List, [], ◌∷◌, ◌++◌, append-nil, append_assoc,
  Bytes, Option, none, some,
}
use docker_systemd.Text.{codes, trim_suffix}
use docker_systemd.Commands.{
  Action, Services, Session, Lookup, found, missing, Found, all, not_all, response, Turn, goes,
  answers, label, newline, find_each, each, statements,
}
use docker_systemd.Commands.Spec.{
  Finds, no_more, finds, finds_later, misses, Acts, acted_all, acted, failed,
}

lookup-cases :
    {S D : Type 0} (r : Lookup D × S)
    → ((d : D) × (t : S) × (r ≡ (found d, t))) ⊎ ((e : Bytes) × (t : S) × (r ≡ (missing e, t)))
lookup-cases (found d, t) = inl (d, t, refl)
lookup-cases (missing e, t) = inr (e, t, refl)

answer-cases :
    {S : Type 0} (r : Option Bytes × S)
    → ((t : S) × (r ≡ (none, t))) ⊎ ((e : Bytes) × (t : S) × (r ≡ (some e, t)))
answer-cases (none, t) = inl (t, refl)
answer-cases (some e, t) = inr (e, t, refl)

abbrev pub session : {S : Type 0} → S → Bytes → Session S
session s out = record { sys = s; out = out }

append-three : (a b c d : Bytes) → ((a ++ b) ++ c) ++ d ≡ a ++ (b ++ (c ++ d))
append-three a b c d = simp append_assoc refl

-- How the loop over the daemons goes on.
abbrev pub each_end : {S : Type 0} → Option Bytes → Session S → Turn S (Unit {0})
each_end none s = goes tt s
each_end (some e) s = answers (response e true) s

module _ {S D : Type 0} (services : Services S D) where
  pub find_each-Finds :
      (names : List Bytes) (s : S) (o : Bytes)
      → (f : Found D) × (u : S) × (find_each services names (session s o) ≡ goes f (session u o))
        × Finds services names s f u
  unfolding find_each statements
  find_each-Finds [] s o = (all [], s, refl, no_more)
  find_each-Finds (name ∷ names) s o =
      elim (lookup-cases (services.find (trim_suffix name (codes ".service")) s)) [
        | inl (d, t, e) ↦ later d t e (find_each-Finds names t o)
        | inr (m, t, e) ↦ (not_all _, t, rw e refl, misses e)
      ]
    where
      later :
          (d : D) (t : S)
          → services.find (trim_suffix name (codes ".service")) s ≡ (found d, t)
          → (f : Found D) × (u : S) × (find_each services names (session t o)
              ≡ goes f (session u o))
            × Finds services names t f u
          → (f : Found D) × (u : S) × (find_each services (name ∷ names) (session s o)
              ≡ goes f (session u o))
            × Finds services (name ∷ names) s f u
      later d t e (all ds, u, run, spec) = (all (d ∷ ds), u, rw (e, run) refl, finds e spec)
      later d t e (not_all m, u, run, spec) = (not_all m, u, rw (e, run) refl, finds_later e spec)

  pub each-Acts :
      (a : Action) (ds : List D) (s : S) (o : Bytes)
      → (u : S) × (text : Bytes) × (r : Option Bytes) × (each services a ds (session s o)
          ≡ each_end r (session u (o ++ text)))
        × Acts services a ds s u text r
  unfolding each statements
  each-Acts a [] s o =
      (s, [], none, ap (λ x. goes tt (session s x)) (sym (append-nil o)), acted_all)
  each-Acts a (d ∷ ds) s o = elim (answer-cases (services.act a d s)) [
    | inl (t, e) ↦
        let first = label services a ++ (services.name d ++ codes " ... ") in
        let (u, text, r, run, spec) = each-Acts a ds t ((o ++ first) ++ (codes "OK" ++ newline)) in
        (
          u,
          first ++ ((codes "OK" ++ newline) ++ text),
          r,
          rw e (
              run
              ∙ ap (λ x. each_end r (session u x))
                  (append-three o first (codes "OK" ++ newline) text)),
          acted e spec,
        )
    | inr (m, t, e) ↦
        let first = label services a ++ (services.name d ++ codes " ... ") in
        let end = some (services.name d ++ (codes ": " ++ m)) in
        (
          t,
          first ++ (codes "FAIL" ++ newline),
          end,
          rw e (
              ap (λ x. each_end end (session t x))
                (append_assoc o first (codes "FAIL" ++ newline))),
          failed e,
        )
  ]
