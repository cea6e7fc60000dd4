-- ===== src/Exchange/Whole.antt =====
-- A command from end to end: the client sees what the command does.
use docker_systemd.Base.{
  ℕ, ◌≡◌, ◌≤◌, ◌<◌, ap, subst, arith, Bool, true, false, List, [], ◌∷◌, ◌++◌, Bytes, All, Option,
  none, some, length, if◌then◌else◌,
}
use docker_systemd.Text.{has_prefix, codes}
use docker_systemd.Wire.{encode}
use docker_systemd.Wire.RoundTrip.{IsShort, decode-encode}
use docker_systemd.Wire.Reply.{IsNonZero, IsNonEmpty, concat, exit, read_reply-concat}
use docker_systemd.Commands.{
  Services, Session, Reply, nothing, response, failure, Turn, goes, answers, panics,
}
use docker_systemd.Commands.Dispatch
use docker_systemd.Commands.Dispatch.{
  Parsed, runs, refused, is_help, ended_with, ended, parsed, execute,
}
use docker_systemd.Exchange.{exchange, serve}

-- A return code is 0 or 1.
abbrev IsCode : {S : Type 0} → Option (ℕ × Session S) → Type 0
IsCode none = Unit
IsCode (some (code, s)) = code < 65536

module _ {S D : Type 0} (services : Services S D) (help : Bytes) (parse : List Bytes → Parsed) where
  ended_with-IsCode : (r : Reply) (s : Session S) → IsCode (ended_with services r s)
  ended_with-IsCode nothing s = omega arith
  ended_with-IsCode (response message true) s = omega arith
  ended_with-IsCode (response message false) s = omega arith
  ended_with-IsCode (failure message) s = small (has_prefix message (codes "Unknown command"))
    where
      small : (b : Bool) → (if b then 0 else 1) < 65536
      small true = omega arith
      small false = omega arith

  ended-IsCode : (r : Turn S Reply) → IsCode (ended services r)
  ended-IsCode (goes r s) = ended_with-IsCode r s
  ended-IsCode (answers r s) = ended_with-IsCode r s
  ended-IsCode panics = tt

  parsed-IsCode : (p : Parsed) (s : Session S) → IsCode (parsed services p s)
  parsed-IsCode (runs c args) s = ended-IsCode (execute services c args s)
  parsed-IsCode (refused true message) s = omega arith
  parsed-IsCode (refused false message) s = omega arith

  command-IsCode :
      (args : List Bytes) (s : Session S) → IsCode (Dispatch.command services help parse args s)
  unfolding Dispatch.command
  command-IsCode args s = by_test (is_help args)
    where
      by_test :
          (b : Bool)
          → IsCode (
              if b
              then some (0, Dispatch.println services help s)
              else parsed services (parse args) s)
      by_test true = omega arith
      by_test false = parsed-IsCode (parse args) s

  -- For a command that fits into a message, and however the socket cuts the output into pieces:
  -- where `command` ends with a return code, the system is the one that it leaves, and `systemctl`
  -- prints its output, if that has no 0x00 byte, and exits with its return code.
  pub exchange-command :
      (cut : Bytes → List Bytes) (program : Bytes) (args : List Bytes) (s : S) (code : ℕ)
      (t : Session S)
      → ((output : Bytes) → All IsNonEmpty (cut output) × (concat (cut output) ≡ output))
      → length args < 65536
      → All IsShort args
      → length (encode (program ∷ args)) ≤ 65536
      → Dispatch.command services help parse args (record { sys = s; out = [] }) ≡ some (code, t)
      → All IsNonZero t.out
      → exchange services help parse cut (program ∷ args) s ≡ (some t.sys, (t.out, exit code))
  unfolding exchange serve
  exchange-command cut program args s code t pieces count short fits run no_zero =
      let small : code < 65536 =
        subst (λ o. IsCode o) run (command-IsCode args (record { sys = s; out = [] })) in
      rw (decode-encode program args count short fits, run)
        (ap (λ r. (some t.sys, r))
          (read_reply-concat (cut (t.out ++ (0 ∷ []))) t.out code (pieces (t.out ++ (0 ∷ []))).0
            no_zero small (pieces (t.out ++ (0 ∷ []))).1))
