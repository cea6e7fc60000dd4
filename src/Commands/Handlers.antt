-- ===== src/Commands/Handlers.antt =====
-- systemd/command.go: the other handlers, and `command`.
use docker_systemd.Base.{
  Bool, true, false, ◌||◌, List, [], ◌∷◌, ◌++◌, Bytes, Option, none, some, if◌then◌else◌,
}
use docker_systemd.Text.{codes, split, join, contains}
use docker_systemd.Commands.{
  enabling, starting, Lookup, found, missing, Services, Reply, nothing, response, failure, Handler,
  ◌>>=◌, ◌>>◌, pure, answer, panic, call, get, newline, Found, all, not_all, on_d, find_daemons,
  daemons_of, or_error, each, execute_each,
}

-- `strings.Split(arg, "@")`, and its parts `sp[0]` and `sp[1]`.
abbrev pub first_part : List Bytes → Bytes
first_part [] = []
first_part (part ∷ _) = part

abbrev pub second_part : {S : Type 0} → List Bytes → Handler S Bytes
second_part (_ ∷ part ∷ _) = pure part
second_part _ = panic

module _ {S D : Type 0} (services : Services S D) where
  -- `d.Find` with the return on an error.
  abbrev pub or_missing : Lookup D → Handler S D
  or_missing (found d) = pure d
  or_missing (missing e) = answer (response e true)

  -- Makes an instance of the service that the argument names in front of `@`.
  unfoldable pub create_from : Bytes → Handler S (Unit {0})
  create_from arg = do
    look ← on_d services (services.find (first_part (split arg b'@') ++ codes "@"))
    d ← or_missing look
    part ← second_part (split arg b'@')
    err ← call (services.create_instance part d)
    or_error services (services.name d ++ codes ": ") err

  -- `d.Reload()` with the return on an error.
  unfoldable pub reload_all : Handler S (Unit {0})
  reload_all = do err ← on_d services services.reload; or_error services (codes "Reload(): ") err

  unfoldable pub create_each : List Bytes → Handler S (Unit {0})
  create_each [] = pure tt
  create_each (arg ∷ args) = do create_from arg; create_each args

  unfoldable pub execute_create : List Bytes → Handler S Reply
  execute_create args = do
    create_each args
    reload_all
    pure (response (codes "Services Created") false)

  unfoldable pub delete_each : List Bytes → Handler S (Unit {0})
  delete_each [] = pure tt
  delete_each (arg ∷ args) = do
    look ← on_d services (services.find arg)
    d ← or_missing look
    err ← call (services.delete_service d)
    or_error services (services.name d ++ codes ": ") err
    delete_each args

  unfoldable pub execute_delete : List Bytes → Handler S Reply
  execute_delete args = do
    delete_each args
    reload_all
    pure (response (codes "Services Deleted") false)

  -- One round of the loop that makes the instances which are not there, in the handlers of enable
  -- and start, and whether it has made one.
  abbrev pub missing_instance : Bytes → Found D → Handler S Bool
  missing_instance arg (all _) = pure false
  missing_instance arg (not_all _) = do create_from arg; pure true

  unfoldable pub instance_for : Bytes → Handler S Bool
  instance_for arg =
      if contains arg (codes "@")
      then (find_daemons services (arg ∷ []) >>= missing_instance arg)
      else pure false

  -- The loop: `needReload` behind it.
  unfoldable pub instances : List Bytes → Bool → Handler S Bool
  instances [] need = pure need
  instances (arg ∷ args) need = do made ← instance_for arg; instances args (need || made)

  unfoldable pub with_instances : List Bytes → Handler S (Unit {0})
  with_instances args = do need ← instances args false; if need then reload_all else pure tt

  unfoldable pub execute_start : List Bytes → Handler S Reply
  execute_start args = do with_instances args; execute_each services starting args

  unfoldable pub execute_enable : Bool → List Bytes → Handler S Reply
  execute_enable now args = do
    with_instances args
    ds ← daemons_of services args
    each services enabling ds
    if now then each services starting ds else pure tt
    pure nothing

  -- The text of `Execute` of status: a line for each daemon.
  abbrev pub status_line : Bytes × Option Bytes → Bytes → Bytes
  status_line (ret, none) name = ret ++ (codes ": " ++ name)
  status_line (ret, some e) name = (ret ++ (codes ": " ++ name)) ++ (codes " ERROR: " ++ e)

  abbrev pub add_line : Bytes → Bytes → Bytes
  add_line [] line = line
  add_line text line = text ++ (newline ++ line)

  unfoldable pub statuses : List D → Bytes → Handler S Bytes
  statuses [] text = pure text
  statuses (d ∷ ds) text = do
    ret ← get (services.status d)
    statuses ds (add_line text (status_line ret (services.name d)))

  unfoldable pub execute_status : List Bytes → Handler S Reply
  execute_status [] = do
    names ← on_d services (λ s. (services.list s, s))
    ds ← daemons_of services names
    text ← statuses ds []
    pure (response text false)
  execute_status (arg ∷ args) = do
    ds ← daemons_of services (arg ∷ args)
    text ← statuses ds []
    pure (response text false)

  unfoldable pub details : List D → Bytes → Handler S Bytes
  details [] text = pure text
  details (d ∷ ds) text = do
    out ← get (services.detail d)
    details ds ((text ++ (codes "=== " ++ (services.name d ++ (codes " ===" ++ newline)))) ++ out)

  unfoldable pub execute_show : List Bytes → Handler S Reply
  execute_show args = do
    ds ← daemons_of services args
    text ← details ds []
    pure (response text false)

  abbrev pub listed : Bytes → Lookup D → S → Bytes
  listed name (missing _) s = name
  listed name (found d) s = if services.is_enabled d s then name ++ codes " (enabled)" else name

  unfoldable pub list_each : List Bytes → Handler S (List Bytes)
  list_each [] = pure []
  list_each (name ∷ names) = do
    look ← call (services.find name)
    line ← get (listed name look)
    lines ← list_each names
    pure (line ∷ lines)

  unfoldable pub execute_list : Handler S Reply
  execute_list = do
    names ← on_d services (λ s. (services.list s, s))
    lines ← list_each names
    pure (response (join lines 10) false)

  unfoldable pub execute_reload : Handler S Reply
  execute_reload = do
    err ← on_d services services.reload
    elim err [ none ↦ pure nothing | some e ↦ pure (failure e) ]

  unfoldable pub execute_poweroff : Handler S Reply
  execute_poweroff = do
    call (λ s. (tt, services.power_off s))
    pure (response (codes "Shutting down system...") false)

  -- The handler of the command `set-environment`.
  unfoldable pub set_environment : List Bytes → Handler S Reply
  set_environment [] = pure nothing
  set_environment (arg ∷ args) = do call (λ s. (tt, services.unset_env arg s)); set_environment args

  abbrev pub with_sign : Bytes → Bytes
  with_sign arg = if contains arg (codes "=") then arg else arg ++ codes "="

  abbrev pub key_of : List Bytes → Bytes
  key_of [] = []
  key_of (k ∷ _) = k

  abbrev pub value_of : List Bytes → Bytes
  value_of [] = []
  value_of (_ ∷ v) = join v b'='

  -- The handler of the command `unset-environment`.
  unfoldable pub unset_environment : List Bytes → Handler S Reply
  unset_environment [] = pure nothing
  unset_environment (arg ∷ args) = do
    call (λ s. (
      tt,
      services.set_env (key_of (split (with_sign arg) b'=')) (value_of (split (with_sign arg) b'='))
          s,
    ))
    unset_environment args
