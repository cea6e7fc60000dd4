-- ===== src/Definition.antt =====
-- systemd/daemons/daemon.go, type `daemondef`: a service's definition. Its eighteen dependency
-- maps are one function on the relation, its sixteen limits one on the limit; a map is its list of
-- entries, and the pointer of an entry is the name of the service in `daemons.list`, or nil.
pub mod Relations
use docker_systemd.Base.{
  ℕ, Bool, false, List, [], ◌∷◌, Bytes, Option, none, some, ◌==◌, if◌then◌else◌,
}
use docker_systemd.Text.{equal}

pub data Relation : Type 0 where
  wants wanted_by requires required_by requisite requisite_of : Relation
  binds_to bound_by part_of consists_of upholds upheld_by : Relation
  conflicts conflicted_by before after on_failure on_success : Relation

abbrev pub relation_number : Relation → ℕ
relation_number wants = 0
relation_number wanted_by = 1
relation_number requires = 2
relation_number required_by = 3
relation_number requisite = 4
relation_number requisite_of = 5
relation_number binds_to = 6
relation_number bound_by = 7
relation_number part_of = 8
relation_number consists_of = 9
relation_number upholds = 10
relation_number upheld_by = 11
relation_number conflicts = 12
relation_number conflicted_by = 13
relation_number before = 14
relation_number after = 15
relation_number on_failure = 16
relation_number on_success = 17

-- Whether two relations are the same field of `daemondef`.
abbrev pub same_relation : Relation → Relation → Bool
same_relation r q = relation_number r == relation_number q

pub data Limit : Type 0 where
  cpu fsize data_size stack core rss no_file address_space n_proc mem_lock locks : Limit
  sig_pending msg_queue nice rt_prio rt_time : Limit

abbrev limit_number : Limit → ℕ
limit_number cpu = 0
limit_number fsize = 1
limit_number data_size = 2
limit_number stack = 3
limit_number core = 4
limit_number rss = 5
limit_number no_file = 6
limit_number address_space = 7
limit_number n_proc = 8
limit_number mem_lock = 9
limit_number locks = 10
limit_number sig_pending = 11
limit_number msg_queue = 12
limit_number nice = 13
limit_number rt_prio = 14
limit_number rt_time = 15

abbrev pub same_limit : Limit → Limit → Bool
same_limit l m = limit_number l == limit_number m

-- A map from names to daemons; a name stands in it once.
abbrev pub Links : Type 0
Links = List (Bytes × Option Bytes)

-- `item[name] = target`
unfoldable pub set_link : Bytes → Option Bytes → Links → Links
set_link name target [] = (name, target) ∷ []
set_link name target ((n, t) ∷ links) =
    if equal n name then (name, target) ∷ links else (n, t) ∷ set_link name target links

-- `item[name]`, where a missing name reads nil.
unfoldable pub link : Bytes → Links → Option (Option Bytes)
link name [] = none
link name ((n, t) ∷ links) = if equal n name then some t else link name links

-- Durations are in nanoseconds; `negative` marks one below zero, by its size.
pub data Duration : Type 0 where
  nanoseconds : ℕ → Duration
  negative : ℕ → Duration

pub record Definition : Type 0 where
  pub description : Bytes
  pub deps : Relation → Links
  pub stop_when_unneeded : Bool
  pub failure_action : Bytes
  pub success_action : Bytes
  pub service_type : Bytes
  pub remain_after_exit : Bool
  pub pid_file : Bytes
  pub exec_start : List Bytes
  pub exec_stop : List Bytes
  pub exec_start_pre : List Bytes
  pub exec_start_post : List Bytes
  pub exec_stop_pre : List Bytes
  pub exec_stop_post : List Bytes
  pub exec_condition : List Bytes
  pub exec_reload : Bytes
  pub restart_sleep : Duration
  pub stop_timeout : Duration
  pub restart : Bytes
  pub working_directory : Bytes
  pub user : Bytes
  pub group : Bytes
  pub env : List Bytes
  pub env_file : List Bytes
  pub limits : Limit → Bytes

-- The definition that `loadUnitFile` makes before it reads a service's first file.
abbrev pub empty : Definition
empty = record {
  description = [];
  deps = λ _. [];
  stop_when_unneeded = false;
  failure_action = [];
  success_action = [];
  service_type = [];
  remain_after_exit = false;
  pid_file = [];
  exec_start = [];
  exec_stop = [];
  exec_start_pre = [];
  exec_start_post = [];
  exec_stop_pre = [];
  exec_stop_post = [];
  exec_condition = [];
  exec_reload = [];
  restart_sleep = nanoseconds 0;
  stop_timeout = nanoseconds 0;
  restart = [];
  working_directory = [];
  user = [];
  group = [];
  env = [];
  env_file = [];
  limits = λ _. [];
}

-- `d.def.R` with another map for the relation `r`.
abbrev pub with_deps : Relation → Links → Definition → Definition
with_deps r links d = record d { deps = λ q. if same_relation r q then links else d.deps q }
