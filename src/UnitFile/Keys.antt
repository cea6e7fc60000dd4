-- ===== src/UnitFile/Keys.antt =====
-- systemd/daemons/unit.go, `loadUnitFile`: the switches on the key in each section.
use docker_systemd.Base.{ℕ, Bool, List, [], ◌∷◌, ◌++◌, Bytes, Option, none, some, if◌then◌else◌}
use docker_systemd.Text.{codes, equal, contains, split, replace_all, to_lower}
use docker_systemd.Definition.{
  Relation, wants, wanted_by, requires, required_by, requisite, requisite_of, binds_to, bound_by,
  part_of, consists_of, upholds, upheld_by, conflicts, conflicted_by, before, after, on_failure,
  on_success, Limit, cpu, fsize, data_size, stack, core, rss, no_file, address_space, n_proc,
  mem_lock, locks, sig_pending, msg_queue, nice, rt_prio, rt_time, same_limit, Links, set_link,
  Duration, nanoseconds, Definition, with_deps,
}
use docker_systemd.Duration.{Parsed, parsed, parse_systemd_duration}

-- What a key of the Unit section sets.
pub data UnitKey : Type 0 where
  description stop_when_unneeded failure_action success_action : UnitKey
  relation : Relation → UnitKey

abbrev pub find_key : {K : Type 0} → Bytes → List (Bytes × K) → Option K
find_key name [] = none
find_key name ((n, k) ∷ keys) = if equal n name then some k else find_key name keys

abbrev unit_keys : List (Bytes × UnitKey)
unit_keys =
    (codes "DESCRIPTION", description)
    ∷ (codes "WANTS", relation wants)
    ∷ (codes "WANTEDBY", relation wanted_by)
    ∷ (codes "REQUIRES", relation requires)
    ∷ (codes "REQUIREDBY", relation required_by)
    ∷ (codes "REQUISITE", relation requisite)
    ∷ (codes "REQUISITEOF", relation requisite_of)
    ∷ (codes "BINDSTO", relation binds_to)
    ∷ (codes "BOUNDBY", relation bound_by)
    ∷ (codes "PARTOF", relation part_of)
    ∷ (codes "CONSISTSOF", relation consists_of)
    ∷ (codes "UPHOLDS", relation upholds)
    ∷ (codes "UPHELDBY", relation upheld_by)
    ∷ (codes "CONFLICTS", relation conflicts)
    ∷ (codes "CONFLICTEDBY", relation conflicted_by)
    ∷ (codes "BEFORE", relation before)
    ∷ (codes "AFTER", relation after)
    ∷ (codes "ONFAILURE", relation on_failure)
    ∷ (codes "ONSUCCESS", relation on_success)
    ∷ (codes "STOPWHENUNNEEDED", stop_when_unneeded)
    ∷ (codes "FAILUREACTION", failure_action)
    ∷ (codes "SUCCESSACTION", success_action)
    ∷ []

unfoldable pub unit_key : Bytes → Option UnitKey
unit_key name = find_key name unit_keys

-- Every name of a list is linked to nil.
unfoldable pub add_names : List Bytes → Links → Links
add_names [] links = links
add_names (n ∷ names) links = add_names names (set_link n none links)

-- An empty value empties the map; another adds the names that one space separates.
unfoldable pub assign_links : Bytes → Links → Links
assign_links [] links = []
assign_links (c ∷ value) links = add_names (split (c ∷ value) b' ') links

abbrev pub is_true : Bytes → Bool
is_true value = equal (to_lower value) (codes "true")

abbrev pub assign_relation : Relation → Bytes → Definition → Definition
assign_relation r value d = with_deps r (assign_links value (d.deps r)) d

abbrev pub set_unit : Option UnitKey → Bytes → Definition → Definition
set_unit (some (relation r)) value d = assign_relation r value d
set_unit (some description) value d = record d { description = value }
set_unit (some stop_when_unneeded) value d = record d { stop_when_unneeded = is_true value }
set_unit (some failure_action) value d = record d { failure_action = value }
set_unit (some success_action) value d = record d { success_action = value }
set_unit none value d = d

-- `case sectionUnit`
unfoldable pub assign_unit : Bytes → Bytes → Definition → Definition
assign_unit name = set_unit (unit_key name)

abbrev install_keys : List (Bytes × Relation)
install_keys =
    (codes "REQUIREDBY", required_by)
    ∷ (codes "WANTEDBY", wanted_by)
    ∷ (codes "UPHELDBY", upheld_by)
    ∷ []

unfoldable pub install_key : Bytes → Option Relation
install_key name = find_key name install_keys

abbrev pub set_install : Option Relation → Bytes → Definition → Definition
set_install none value d = d
set_install (some r) value d = assign_relation r value d

-- `case sectionInstall`
unfoldable pub assign_install : Bytes → Bytes → Definition → Definition
assign_install name = set_install (install_key name)

-- What a key of the Service section sets.
pub data ServiceKey : Type 0 where
  service_type remain_after_exit pid_file exec_start exec_stop exec_start_pre : ServiceKey
  exec_start_post exec_stop_pre exec_stop_post exec_condition exec_reload : ServiceKey
  restart_sec timeout_stop_sec restart working_directory user group : ServiceKey
  environment environment_file : ServiceKey
  limit : Limit → ServiceKey

abbrev service_keys : List (Bytes × ServiceKey)
service_keys =
    (codes "TYPE", service_type)
    ∷ (codes "REMAINAFTEREXIT", remain_after_exit)
    ∷ (codes "PIDFILE", pid_file)
    ∷ (codes "EXECSTART", exec_start)
    ∷ (codes "EXECSTOP", exec_stop)
    ∷ (codes "EXECSTARTPRE", exec_start_pre)
    ∷ (codes "EXECSTARTPOST", exec_start_post)
    ∷ (codes "EXECSTOPPRE", exec_stop_pre)
    ∷ (codes "EXECSTOPPOST", exec_stop_post)
    ∷ (codes "EXECCONDITION", exec_condition)
    ∷ (codes "EXECRELOAD", exec_reload)
    ∷ (codes "RESTARTSEC", restart_sec)
    ∷ (codes "TIMEOUTSEC", timeout_stop_sec)
    ∷ (codes "TIMEOUTSTOPSEC", timeout_stop_sec)
    ∷ (codes "RESTART", restart)
    ∷ (codes "WORKINGDIRECTORY", working_directory)
    ∷ (codes "USER", user)
    ∷ (codes "GROUP", group)
    ∷ (codes "LIMITCPU", limit cpu)
    ∷ (codes "LIMITFSIZE", limit fsize)
    ∷ (codes "LIMITDATA", limit data_size)
    ∷ (codes "LIMITSTACK", limit stack)
    ∷ (codes "LIMITCORE", limit core)
    ∷ (codes "LIMITRSS", limit rss)
    ∷ (codes "LIMITNOFILE", limit no_file)
    ∷ (codes "LIMITAS", limit address_space)
    ∷ (codes "LIMITNPROC", limit n_proc)
    ∷ (codes "LIMITMEMLOCK", limit mem_lock)
    ∷ (codes "LIMITLOCKS", limit locks)
    ∷ (codes "LIMITSIGPENDING", limit sig_pending)
    ∷ (codes "LIMITMSGQUEUE", limit msg_queue)
    ∷ (codes "LIMITNICE", limit nice)
    ∷ (codes "LIMITRTPRIO", limit rt_prio)
    ∷ (codes "LIMITRTTIME", limit rt_time)
    ∷ (codes "ENVIRONMENT", environment)
    ∷ (codes "ENVIRONMENTFILE", environment_file)
    ∷ []

unfoldable pub service_key : Bytes → Option ServiceKey
service_key name = find_key name service_keys

-- The piece of a service's name behind its first `@`.
abbrev second : List Bytes → Bytes
second [] = []
second (p ∷ []) = []
second (p ∷ q ∷ ps) = q

abbrev instance_of : Bytes → Bytes
instance_of name = second (split name b'@')

-- `%i` and `%I` of a command stand for the instance, in a service whose name has an `@`.
unfoldable pub expand : Bytes → Bytes → Bytes
expand name value =
    if contains name (codes "@")
    then replace_all (replace_all value (codes "%i") (instance_of name)) (codes "%I")
        (instance_of name)
    else value

-- The definition with the line's value, or as it stands where a duration is wrong.
pub data Assigned : Type 0 where
  assigned refused : Definition → Assigned

-- What stores a duration; on an error the field is left at 0.
abbrev pub set_duration :
    (Duration → Definition → Definition) → Option (Parsed Duration) → Definition → Assigned
set_duration set (some (parsed t)) d = assigned (set t d)
set_duration set _ d = refused (set (nanoseconds 0) d)

module _ (fraction : ℕ → ℕ → ℕ → ℕ) (name : Bytes) where
  abbrev pub set_service : Option ServiceKey → Bytes → Definition → Assigned
  set_service none v d = assigned d
  set_service (some service_type) v d = assigned (record d { service_type = v })
  set_service (some remain_after_exit) v d = assigned (record d { remain_after_exit = is_true v })
  set_service (some pid_file) v d = assigned (record d { pid_file = v })
  set_service (some exec_start) v d =
      assigned (record d { exec_start = d.exec_start ++ (expand name v ∷ []) })
  set_service (some exec_stop) v d =
      assigned (record d { exec_stop = d.exec_stop ++ (expand name v ∷ []) })
  set_service (some exec_start_pre) v d =
      assigned (record d { exec_start_pre = d.exec_start_pre ++ (expand name v ∷ []) })
  set_service (some exec_start_post) v d =
      assigned (record d { exec_start_post = d.exec_start_post ++ (expand name v ∷ []) })
  set_service (some exec_stop_pre) v d =
      assigned (record d { exec_stop_pre = d.exec_stop_pre ++ (expand name v ∷ []) })
  set_service (some exec_stop_post) v d =
      assigned (record d { exec_stop_post = d.exec_stop_post ++ (expand name v ∷ []) })
  set_service (some exec_condition) v d =
      assigned (record d { exec_condition = d.exec_condition ++ (expand name v ∷ []) })
  set_service (some exec_reload) v d = assigned (record d { exec_reload = expand name v })
  set_service (some restart_sec) v d =
      set_duration (λ t d. record d { restart_sleep = t }) (parse_systemd_duration fraction v) d
  set_service (some timeout_stop_sec) v d =
      set_duration (λ t d. record d { stop_timeout = t }) (parse_systemd_duration fraction v) d
  set_service (some restart) v d = assigned (record d { restart = v })
  set_service (some working_directory) v d = assigned (record d { working_directory = v })
  set_service (some user) v d = assigned (record d { user = v })
  set_service (some group) v d = assigned (record d { group = v })
  set_service (some environment) v d = assigned (record d { env = d.env ++ (v ∷ []) })
  set_service (some environment_file) v d =
      assigned (record d { env_file = d.env_file ++ (v ∷ []) })
  set_service (some (limit l)) v d =
      assigned (record d { limits = λ m. if same_limit l m then v else d.limits m })

  -- `case sectionService`
  unfoldable pub assign_service : Bytes → Bytes → Definition → Assigned
  assign_service key = set_service (service_key key)
