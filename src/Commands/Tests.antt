-- ===== src/Commands/Tests.antt =====
-- Commands on a system with one service, and the theorems at them.
use docker_systemd.Base.{
  ℕ, ◌≡◌, refl, Bool, true, false, ◌||◌, List, [], ◌∷◌, ◌++◌, Bytes, none, some, if◌then◌else◌,
}
use docker_systemd.Text.{codes, equal, contains, has_prefix}
use docker_systemd.Commands.{starting, Services, Lookup, found, missing}
use docker_systemd.Commands.Dispatch.{cmd_start, cmd_create, Parsed, runs, refused, command}
use docker_systemd.Commands.Spec.{Serves}
use docker_systemd.Commands.Loops.{session}
use docker_systemd.Commands.Served.{command-Serves}

-- The state: whether the services are loaded, and the names that were acted on.
abbrev Toy : Type 0
Toy = Bool × List Bytes

abbrev look_up : Bytes → Toy → Lookup Bytes × Toy
look_up name s =
    if equal name (codes "app") || equal name (codes "db@")
    then (found name, s)
    else (missing (codes "daemon not found"), s)

abbrev toy : Services Toy Bytes
toy = record {
  booted = λ s. s.0;
  find = look_up;
  list = λ s. codes "app" ∷ [];
  reload = λ s. (none, s);
  name = λ d. d;
  act = λ a d s. (none, (s.0, d ∷ s.1));
  create_instance = λ part d s. (none, s);
  delete_service = λ d s. (none, s);
  status = λ d s. (codes "State: Running", none);
  detail = λ d s. [];
  is_enabled = λ d s. true;
  set_env = λ k v s. s;
  unset_env = λ k s. s;
  power_off = λ s. s;
}

-- The arguments as go-flags reads them.
abbrev parse : List Bytes → Parsed
parse (verb ∷ args) =
    if equal verb (codes "start")
    then runs cmd_start args
    else if equal verb (codes "create-instance")
    then runs cmd_create args
    else refused true (codes "Unknown command")
parse [] = refused false []

command-Serves_example :
    (u : Toy) × (text : Bytes) × (code : ℕ) × (command toy [] parse
        (codes "start" ∷ codes "app" ∷ [])
        (session (true, []) [])
      ≡ some (code, session u ([] ++ text)))
    × Serves toy starting (codes "app" ∷ []) (true, []) u text code
unfolding equal contains has_prefix
command-Serves_example =
    command-Serves toy [] parse (codes "start" ∷ codes "app" ∷ []) starting (codes "app") []
      (true, []) [] refl refl refl (refl, tt)
