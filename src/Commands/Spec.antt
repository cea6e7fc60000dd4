-- ===== src/Commands/Spec.antt =====
-- systemd/command.go: what a command on a list of services is to do, apart from how it does it.
use docker_systemd.Base.{ℕ, ◌≡◌, List, [], ◌∷◌, ◌++◌, Bytes, Option, none, some}
use docker_systemd.Text.{codes, trim_suffix}
use docker_systemd.Commands.{Action, Services, found, missing, label, newline, Found, all, not_all}

module _ {S D : Type 0} (services : Services S D) where
  -- The services of some names, looked up one after the other up to the first that is missing.
  pub data Finds : List Bytes → S → Found D → S → Type 0 where
    no_more : {s : S} → Finds [] s (all []) s
    finds :
        {name : Bytes} {names : List Bytes} {d : D} {ds : List D} {s t u : S}
        → services.find (trim_suffix name (codes ".service")) s ≡ (found d, t)
        → Finds names t (all ds) u
        → Finds (name ∷ names) s (all (d ∷ ds)) u
    finds_later :
        {name : Bytes} {names : List Bytes} {d : D} {e : Bytes} {s t u : S}
        → services.find (trim_suffix name (codes ".service")) s ≡ (found d, t)
        → Finds names t (not_all e) u
        → Finds (name ∷ names) s (not_all e) u
    misses :
        {name : Bytes} {names : List Bytes} {e : Bytes} {s t : S}
        → services.find (trim_suffix name (codes ".service")) s ≡ (missing e, t)
        → Finds
            (name ∷ names)
            s
            (not_all (trim_suffix name (codes ".service") ++ (codes ": " ++ e)))
            t

  -- An action on services, one after the other, with the text that is printed and the error of the
  -- first that fails: no service behind that one is touched.
  pub data Acts (a : Action) : List D → S → S → Bytes → Option Bytes → Type 0 where
    acted_all : {s : S} → Acts a [] s s [] none
    acted :
        {d : D} {ds : List D} {s t u : S} {text : Bytes} {r : Option Bytes}
        → services.act a d s ≡ (none, t)
        → Acts a ds t u text r
        → Acts a
            (d ∷ ds)
            s
            u
            ((label services a ++ (services.name d ++ codes " ... "))
              ++ ((codes "OK" ++ newline) ++ text))
            r
    failed :
        {d : D} {ds : List D} {e : Bytes} {s t : S}
        → services.act a d s ≡ (some e, t)
        → Acts a
            (d ∷ ds)
            s
            t
            ((label services a ++ (services.name d ++ codes " ... ")) ++ (codes "FAIL" ++ newline))
            (some (services.name d ++ (codes ": " ++ e)))

  -- What the client sees of the command: the text and the return code.
  pub data Serves (a : Action) (names : List Bytes) (s u : S) : Bytes → ℕ → Type 0 where
    unknown : {e : Bytes} → Finds names s (not_all e) u → Serves a names s u (e ++ newline) 1
    served :
        {ds : List D} {t : S} {text : Bytes}
        → Finds names s (all ds) t
        → Acts a ds t u text none
        → Serves a names s u text 0
    stopped_at :
        {ds : List D} {t : S} {text e : Bytes}
        → Finds names s (all ds) t
        → Acts a ds t u text (some e)
        → Serves a names s u (text ++ (e ++ newline)) 1
