-- ===== src/Commands/Served.antt =====
-- systemd/command.go: the commands on a list of services do what they are to do.
use docker_systemd.Base.{
  ℕ, ◌≡◌, refl, ap, ◌∙◌, true, false, List, [], ◌∷◌, ◌++◌, append_assoc, Bytes, Option, none, some,
  All,
}
use docker_systemd.Text.{codes, contains}
use docker_systemd.Commands.{
  Action, enabling, disabling, starting, stopping, restarting, reloading, masking, unmasking,
  Services, Session, Found, all, not_all, Reply, nothing, response, Turn, goes, answers, newline,
  find_each, find_daemons, daemons_of, each, execute_each, statements,
}
use docker_systemd.Commands.Handlers.{
  instances, instance_for, with_instances, execute_start, execute_enable,
}
use docker_systemd.Commands.Dispatch.{
  ended, Command, cmd_enable, cmd_disable, cmd_start, cmd_stop, cmd_restart, cmd_reload, cmd_mask,
  cmd_unmask, Parsed, runs, execute, is_help, command,
}
use docker_systemd.Commands.Spec.{Finds, Acts, Serves, unknown, served, stopped_at}
use docker_systemd.Commands.Loops.{session, each_end, find_each-Finds, each-Acts}

module _ {S D : Type 0} (services : Services S D) where
  -- The command of an action.
  abbrev pub command_of : Action → Command
  command_of enabling = cmd_enable false
  command_of disabling = cmd_disable
  command_of starting = cmd_start
  command_of stopping = cmd_stop
  command_of restarting = cmd_restart
  command_of reloading = cmd_reload
  command_of masking = cmd_mask
  command_of unmasking = cmd_unmask

  -- A name that is not that of an instance.
  abbrev pub IsPlain : Bytes → Type 0
  IsPlain name = contains name (codes "@") ≡ false

  with_instances-plain :
      (names : List Bytes) (s : Session S)
      → All IsPlain names
      → with_instances services names s ≡ goes tt s
  unfolding with_instances instances instance_for statements
  with_instances-plain [] s plain = refl
  with_instances-plain (name ∷ names) s plain = rw plain.0 (with_instances-plain names s plain.1)

  -- What a handler has done behind the loop over the daemons.
  abbrev reply_end : Option Bytes → Session S → Turn S Reply
  reply_end none s = goes nothing s
  reply_end (some e) s = answers (response e true) s

  module _ (name : Bytes) (names : List Bytes) (s u : S) (o : Bytes)
      (booted : services.booted s ≡ true) (plain : All IsPlain (name ∷ names)) where
    execute-not_all :
        (a : Action) (m : Bytes)
        → find_each services (name ∷ names) (session s o) ≡ goes (not_all m) (session u o)
        → execute services (command_of a) (name ∷ names) (session s o)
          ≡ answers (response m true) (session u o)
    unfolding execute execute_each execute_start execute_enable daemons_of find_daemons statements
    execute-not_all enabling m run =
        rw (with_instances-plain (name ∷ names) (session s o) plain, booted, run) refl
    execute-not_all disabling m run = rw (booted, run) refl
    execute-not_all starting m run =
        rw (with_instances-plain (name ∷ names) (session s o) plain, booted, run) refl
    execute-not_all stopping m run = rw (booted, run) refl
    execute-not_all restarting m run = rw (booted, run) refl
    execute-not_all reloading m run = rw (booted, run) refl
    execute-not_all masking m run = rw (booted, run) refl
    execute-not_all unmasking m run = rw (booted, run) refl

    execute-all :
        (a : Action) (ds : List D) (r : Option Bytes) (w : Session S)
        → find_each services (name ∷ names) (session s o) ≡ goes (all ds) (session u o)
        → each services a ds (session u o) ≡ each_end r w
        → execute services (command_of a) (name ∷ names) (session s o) ≡ reply_end r w
    unfolding execute execute_each execute_start execute_enable daemons_of find_daemons statements
    execute-all enabling ds none w run acts =
        rw (with_instances-plain (name ∷ names) (session s o) plain, booted, run, acts) refl
    execute-all enabling ds (some e) w run acts =
        rw (with_instances-plain (name ∷ names) (session s o) plain, booted, run, acts) refl
    execute-all disabling ds none w run acts = rw (booted, run, acts) refl
    execute-all disabling ds (some e) w run acts = rw (booted, run, acts) refl
    execute-all starting ds none w run acts =
        rw (with_instances-plain (name ∷ names) (session s o) plain, booted, run, acts) refl
    execute-all starting ds (some e) w run acts =
        rw (with_instances-plain (name ∷ names) (session s o) plain, booted, run, acts) refl
    execute-all stopping ds none w run acts = rw (booted, run, acts) refl
    execute-all stopping ds (some e) w run acts = rw (booted, run, acts) refl
    execute-all restarting ds none w run acts = rw (booted, run, acts) refl
    execute-all restarting ds (some e) w run acts = rw (booted, run, acts) refl
    execute-all reloading ds none w run acts = rw (booted, run, acts) refl
    execute-all reloading ds (some e) w run acts = rw (booted, run, acts) refl
    execute-all masking ds none w run acts = rw (booted, run, acts) refl
    execute-all masking ds (some e) w run acts = rw (booted, run, acts) refl
    execute-all unmasking ds none w run acts = rw (booted, run, acts) refl
    execute-all unmasking ds (some e) w run acts = rw (booted, run, acts) refl

  pub command-runs :
      (help : Bytes) (parse : List Bytes → Parsed) (args names : List Bytes) (c : Command)
      (s : Session S)
      → is_help args ≡ false
      → parse args ≡ runs c names
      → command services help parse args s ≡ ended services (execute services c names s)
  unfolding command
  command-runs help parse args names c s no_help is = rw (no_help, is) refl

  -- enable without --now, disable, start, stop, restart, reload, mask and unmask, on names of services of which
  -- none is that of an instance, once the services have been loaded. The command ends, and it does
  -- what `Serves` says: it looks all services up, then acts on one after the other up to the first
  -- that fails. What it prints is appended to the output, and it returns 0 exactly when all were
  -- found and none failed, else 1 behind a line with the error.
  pub command-Serves :
      (help : Bytes) (parse : List Bytes → Parsed) (args : List Bytes) (a : Action) (name : Bytes)
      (names : List Bytes) (s : S) (o : Bytes)
      → is_help args ≡ false
      → parse args ≡ runs (command_of a) (name ∷ names)
      → services.booted s ≡ true
      → All IsPlain (name ∷ names)
      → (u : S) × (text : Bytes) × (code : ℕ) × (command services help parse args (session s o)
          ≡ some (code, session u (o ++ text)))
        × Serves services a (name ∷ names) s u text code
  command-Serves help parse args a name names s o no_help is booted plain =
      let (f, u, run, spec) = find_each-Finds services (name ∷ names) s o in looked f u run spec
    where
      begins :
          command services help parse args (session s o)
          ≡ ended services (execute services (command_of a) (name ∷ names) (session s o))
      begins = command-runs help parse args (name ∷ names) (command_of a) (session s o) no_help is

      Result : Type 0
      Result =
          (u : S) × (text : Bytes) × (code : ℕ) × (command services help parse args (session s o)
            ≡ some (code, session u (o ++ text)))
          × Serves services a (name ∷ names) s u text code

      acted_on :
          (ds : List D) (u v : S) (text : Bytes) (r : Option Bytes)
          → find_each services (name ∷ names) (session s o) ≡ goes (all ds) (session u o)
          → Finds services (name ∷ names) s (all ds) u
          → each services a ds (session u o) ≡ each_end r (session v (o ++ text))
          → Acts services a ds u v text r
          → Result
      acted_on ds u v text none run spec run2 acts = (
        v,
        text,
        0,
        begins
            ∙ ap (ended services) (
                execute-all name names s u o booted plain a ds none (session v (o ++ text)) run
                  run2),
        served spec acts,
      )
      acted_on ds u v text (some e) run spec run2 acts = (
        v,
        text ++ (e ++ newline),
        1,
        begins
            ∙ ap (ended services) (
                execute-all name names s u o booted plain a ds (some e) (session v (o ++ text)) run
                  run2)
            ∙ ap (λ x. some (1, session v x)) (append_assoc o text (e ++ newline)),
        stopped_at spec acts,
      )

      looked :
          (f : Found D) (u : S)
          → find_each services (name ∷ names) (session s o) ≡ goes f (session u o)
          → Finds services (name ∷ names) s f u
          → Result
      looked (not_all m) u run spec = (
        u,
        m ++ newline,
        1,
        begins ∙ ap (ended services) (execute-not_all name names s u o booted plain a m run),
        unknown spec,
      )
      looked (all ds) u run spec =
          let (v, text, r, run2, acts) = each-Acts services a ds u o in
          acted_on ds u v text r run spec run2 acts
