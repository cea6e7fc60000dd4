-- ===== src/Exchange/Tests.antt =====
-- A command from end to end on a system with a counter, and the theorem at it.
use docker_systemd.Base.{
  ℕ, ◌+◌, ◌≡◌, refl, ap, arith, true, false, List, [], ◌∷◌, ◌++◌, Bytes, All, none, some,
}
use docker_systemd.Text.{codes, equal, trim_suffix, has_suffix}
use docker_systemd.Wire.RoundTrip.{length-encode}
use docker_systemd.Wire.Reply.{IsNonEmpty, concat, exit}
use docker_systemd.Commands.{
  Services, found, newline, find_daemons, find_each, daemons_of, each, execute_each, statements,
}
use docker_systemd.Commands.Dispatch.{cmd_stop, Parsed, runs, refused, execute}
use docker_systemd.Commands.Dispatch
use docker_systemd.Exchange.{exchange}
use docker_systemd.Exchange.Whole.{exchange-command}

-- Every byte is delivered by itself.
abbrev singly : Bytes → List Bytes
singly [] = []
singly (b ∷ bytes) = (b ∷ []) ∷ singly bytes

singly-pieces :
    (output : Bytes) → All IsNonEmpty (singly output) × (concat (singly output) ≡ output)
singly-pieces [] = (tt, refl)
singly-pieces (b ∷ bytes) =
    let (pieces, same) = singly-pieces bytes in (((λ e. cc), pieces), ap (◌∷◌ b) same)

-- Every service is found, and every action on one is counted.
abbrev counter : Services ℕ Bytes
counter = record {
  booted = λ s. true;
  find = λ name s. (found name, s);
  list = λ s. [];
  reload = λ s. (none, s);
  name = λ d. d;
  act = λ a d s. (none, s + 1);
  create_instance = λ part d s. (none, s);
  delete_service = λ d s. (none, s);
  status = λ d s. ([], none);
  detail = λ d s. [];
  is_enabled = λ d s. true;
  set_env = λ k v s. s;
  unset_env = λ k s. s;
  power_off = λ s. s;
}

abbrev parse : List Bytes → Parsed
parse (verb ∷ args) = runs cmd_stop args
parse [] = refused false []

abbrev printed : Bytes
printed = codes "Stopping app ... OK" ++ newline

exchange-command_example :
    exchange counter [] parse singly (codes "systemctl" ∷ codes "stop" ∷ codes "app" ∷ []) 7
    ≡ (some 8, (printed, exit 0))
unfolding Dispatch.command execute execute_each daemons_of find_daemons find_each each statements
    equal trim_suffix has_suffix
exchange-command_example =
    exchange-command counter [] parse singly (codes "systemctl") (codes "stop" ∷ codes "app" ∷ []) 7
      0 (record { sys = 8; out = printed }) singly-pieces (omega arith) (omega arith)
      (omega (arith, length-encode (codes "systemctl") (codes "stop" ∷ codes "app" ∷ []))) refl
      (omega arith)
