-- ===== src/Commands/Refused.antt =====
-- systemd/command.go: commands that come too early, without a name, or without a part of a name.
use docker_systemd.Base.{
  ◌≡◌, inl, inr, refl, ap, ◌∙◌, true, false, Bool-cases, List, [], ◌∷◌, ◌++◌, Bytes, none, some,
  ◌==◌,
}
use docker_systemd.Text.{codes, contains, split, has_prefix}
use docker_systemd.Commands.{
  Action, enabling, disabling, starting, stopping, restarting, reloading, masking, unmasking,
  Services, Session, found, goes, answers, nothing, response, usage, newline, find_daemons,
  daemons_of, on_d, each, execute_each, statements,
}
use docker_systemd.Commands.Handlers.{
  instances, instance_for, with_instances, execute_start, execute_enable, create_from, create_each,
  execute_create,
}
use docker_systemd.Commands.Dispatch.{cmd_create, ended, Parsed, runs, execute, is_help, command}
use docker_systemd.Commands.Served.{command_of, command-runs}

module _ {S D : Type 0} (services : Services S D) where
  instances-early :
      (args : List Bytes) (s : Session S)
      → services.booted s.sys ≡ false
      → instances services args false s ≡ goes false s
  unfolding instances instance_for find_daemons statements
  instances-early [] s early = refl
  instances-early (arg ∷ args) s early = elim (Bool-cases (contains arg (codes "@"))) [
    | inl is ↦ rw (is, early) (instances-early args s early)
    | inr other ↦ rw other (instances-early args s early)
  ]

  module _ (name : Bytes) (names : List Bytes) (s : Session S)
      (early : services.booted s.sys ≡ false) where
    execute-early :
        (a : Action) → execute services (command_of services a) (name ∷ names) s ≡ goes nothing s
    unfolding execute execute_each execute_start execute_enable with_instances daemons_of
        find_daemons each statements
    execute-early enabling = rw (instances-early (name ∷ names) s early, early) refl
    execute-early disabling = rw early refl
    execute-early starting = rw (instances-early (name ∷ names) s early, early) refl
    execute-early stopping = rw early refl
    execute-early restarting = rw early refl
    execute-early reloading = rw early refl
    execute-early masking = rw early refl
    execute-early unmasking = rw early refl

  execute-nameless :
      (a : Action) (s : Session S)
      → execute services (command_of services a) [] s ≡ answers (response usage true) s
  unfolding execute execute_each execute_start execute_enable with_instances instances daemons_of
      find_daemons statements
  execute-nameless enabling s = refl
  execute-nameless disabling s = refl
  execute-nameless starting s = refl
  execute-nameless stopping s = refl
  execute-nameless restarting s = refl
  execute-nameless reloading s = refl
  execute-nameless masking s = refl
  execute-nameless unmasking s = refl

  module _ (help : Bytes) (parse : List Bytes → Parsed) (args : List Bytes)
      (no_help : is_help args ≡ false) where
    -- While the services are being loaded, the commands enable without --now, disable, start, stop, restart,
    -- reload, mask and unmask on any names return 0, print nothing, and do nothing.
    command-early :
        (a : Action) (name : Bytes) (names : List Bytes) (s : Session S)
        → parse args ≡ runs (command_of services a) (name ∷ names)
        → services.booted s.sys ≡ false
        → command services help parse args s ≡ some (0, s)
    command-early a name names s is early =
        command-runs services help parse args (name ∷ names) (command_of services a) s no_help is
        ∙ ap (ended services) (execute-early name names s early a)

    -- The same commands without a name do nothing but print the usage, and return 1, loaded or not.
    command-nameless :
        (a : Action) (s : Session S)
        → parse args ≡ runs (command_of services a) []
        → command services help parse args s
          ≡ some (1, record s { out = s.out ++ (usage ++ newline) })
    command-nameless a s is =
        command-runs services help parse args [] (command_of services a) s no_help is
        ∙ ap (ended services) (execute-nameless a s)

split-plain : (arg : Bytes) → contains arg (codes "@") ≡ false → split arg b'@' ≡ arg ∷ []
unfolding split contains has_prefix
split-plain [] e = refl
split-plain (c ∷ arg) e = elim (Bool-cases (c == b'@')) [
  | inl is ↦ absurd (let e' = rw is at e in cc)
  | inr other ↦ rw (other, split-plain arg (rw other at e)) refl
]

module _ {S D : Type 0} (services : Services S D) where
  -- create-instance with a first name that has no `@`, and is the name of a template, ends the
  -- daemon with a panic.
  command-create_panics :
      (help : Bytes) (parse : List Bytes → Parsed) (args : List Bytes) (name : Bytes)
      (names : List Bytes) (s : Session S) (d : D) (t : S)
      → is_help args ≡ false
      → parse args ≡ runs cmd_create (name ∷ names)
      → services.booted s.sys ≡ true
      → contains name (codes "@") ≡ false
      → services.find (name ++ codes "@") s.sys ≡ (found d, t)
      → command services help parse args s ≡ none
  unfolding execute execute_create create_each create_from on_d statements
  command-create_panics help parse args name names s d t no_help is booted plain template =
      command-runs services help parse args (name ∷ names) cmd_create s no_help is
      ∙ rw (booted, split-plain name plain, template) refl
