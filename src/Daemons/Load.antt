-- ===== src/Daemons/Load.antt =====
-- systemd/daemons/daemons.go, `Reload` up to the links: the directories of unit files are read into
-- definitions. The files, path.Join and inslice.HasString are parameters.
pub mod Runs
pub mod Keeps
pub mod Tidy
pub mod Links
mod Tests
use docker_systemd.Base.{
  ℕ, Bool, true, false, not, ◌&&◌, List, [], ◌∷◌, ◌++◌, Bytes, Option, none, some, if◌then◌else◌,
}
use docker_systemd.Text.{codes, equal, has_suffix, trim_suffix}
use docker_systemd.Definition.{Definition}
use docker_systemd.UnitFile.{Loaded, loaded, not_loaded, load_unit_file}
use docker_systemd.Daemon.State.{DaemonState, stopped, Daemon, System, find, update}
use docker_systemd.Daemon.Flow.{M, pure, next, get, ◌>>=◌, ◌>>◌}
use docker_systemd.Daemons.Link.{link_all}

-- What the code reads: whether a path is a link, the entries of a directory with whether
-- each is one itself (`none` where the directory cannot be read), the target of a path that is a
-- link, and the content of a file that can be opened.
pub record Source : Type 0 where
  pub is_link : Bytes → Bool
  pub entries : Bytes → Option (List (Bytes × Bool))
  pub read_link : Bytes → Option Bytes
  pub open_file : Bytes → Option Bytes
  pub join : Bytes → Bytes → Bytes
  pub has_string : List Bytes → Bytes → Bool
  pub fraction : ℕ → ℕ → ℕ → ℕ

abbrev pub with_usr_lib : List Bytes
with_usr_lib = codes "/etc/systemd/system" ∷ codes "/usr/lib/systemd/system" ∷ []

abbrev pub with_lib : List Bytes
with_lib = codes "/etc/systemd/system" ∷ codes "/lib/systemd/system" ∷ []

-- common/common.go `GetSystemdPaths`
unfoldable pub get_systemd_paths : (Bytes → Bool) → List Bytes
get_systemd_paths is_link =
    if is_link (codes "/lib/systemd/system")
    then with_usr_lib
    else if is_link (codes "/usr/lib/systemd/system")
    then with_lib
    else if is_link (codes "/lib/systemd")
    then with_usr_lib
    else if is_link (codes "/usr/lib/systemd")
    then with_lib
    else if is_link (codes "/lib")
    then with_usr_lib
    else if is_link (codes "/usr/lib")
    then with_lib
    else codes "/etc/systemd/system"
      ∷ codes "/usr/lib/systemd/system"
      ∷ codes "/lib/systemd/system"
      ∷ []

-- `ds.list`, `failedloads` and `processedFiles`.
pub record Loading : Type 0 where
  pub list : List (Bytes × Daemon)
  pub failed : List Bytes
  pub processed : List Bytes

-- The first loop: `d.olddef = d.def; d.def = nil`.
abbrev pub set_aside : Daemon → Daemon
set_aside d = record d { old_def = d.def; def = none }

unfoldable pub set_aside_all : List (Bytes × Daemon) → List (Bytes × Daemon)
set_aside_all [] = []
set_aside_all ((n, d) ∷ list) = (n, set_aside d) ∷ set_aside_all list

-- A service that is not in the list yet.
abbrev pub new_daemon : Bytes → Daemon
new_daemon path = record {
  state = stopped;
  state_error = none;
  def = none;
  old_def = none;
  paths = path ∷ [];
  masked = false;
  is_manual = false;
  cmds = [];
  pids = [];
  held = false;
}

-- `ds.list[fn] = d`
unfoldable pub store_daemon : Bytes → Daemon → List (Bytes × Daemon) → List (Bytes × Daemon)
store_daemon fn d [] = (fn, d) ∷ []
store_daemon fn d ((n, e) ∷ list) =
    if equal n fn then (n, d) ∷ list else (n, e) ∷ store_daemon fn d list

-- A file that failed to load: `d.def = d.olddef; d.olddef = nil`.
abbrev pub give_back : Daemon → Daemon
give_back d = record d { def = d.old_def; old_def = none }

-- The last loop: services that are gone and stopped are deleted.
abbrev pub is_gone : Option Definition → DaemonState → Bool
is_gone none stopped = true
is_gone _ _ = false

unfoldable pub clean_up : List (Bytes × Daemon) → List (Bytes × Daemon)
clean_up [] = []
clean_up ((n, d) ∷ list) =
    let rest = clean_up list in
    if is_gone d.def d.state then rest else (n, record d { old_def = none }) ∷ rest

module _ (src : Source) where
  abbrev pub add_path : Bytes → Daemon → Daemon
  add_path path d =
      if src.has_string d.paths path then d else record d { paths = d.paths ++ (path ∷ []) }

  -- The daemon of a file, before its mask is looked at.
  abbrev pub daemon_of : Bytes → Option Daemon → Daemon
  daemon_of path none = new_daemon path
  daemon_of path (some d) = add_path path d

  -- The file that counts as processed, and whether it masks the service.
  abbrev pub real_file : Bytes → Option Bytes → Bytes
  real_file path none = path
  real_file path (some target) = target

  abbrev pub masks : Option Bytes → Bool
  masks none = false
  masks (some target) = equal target (codes "/dev/null")

  -- A daemon that is changed where the list has it already, and not put there.
  abbrev pub changed : Bytes → Daemon → Loading → Loading
  changed fn d l = record l { list = update fn (λ _. d) l.list }

  abbrev pub stored : Bytes → Daemon → Loading → Loading
  stored fn d l = record l { list = store_daemon fn d l.list }

  -- What `loadUnitFile` leaves.
  abbrev pub take_loaded : Bytes → Daemon → Loaded → Loading → Loading
  take_loaded fn d (loaded def) l = stored fn (record d { def = some def }) l
  take_loaded fn d (not_loaded def) l =
      changed fn (give_back d) (record l { failed = l.failed ++ (fn ∷ []) })

  abbrev pub open_and_load : Bytes → Daemon → Option Bytes → Loading → Loading
  open_and_load fn d none l = changed fn d l
  open_and_load fn d (some content) l =
      take_loaded fn d (load_unit_file src.fraction fn d.def content) l

  abbrev pub load_new : Bytes → Bytes → Bytes → Daemon → Loading → Loading
  load_new fn path file d l =
      if not d.masked && not (src.has_string l.processed file)
      then open_and_load fn d (src.open_file path)
          (record l { processed = l.processed ++ (file ∷ []) })
      else stored fn d l

  -- A unit file: the round of the loop over the entries.
  abbrev pub load_unit : Bytes → Bytes → Option Bytes → Loading → Loading
  load_unit fn path link l =
      load_new fn path (real_file path link)
        (record (daemon_of path (find fn l.list)) { masked = masks link }) l

  abbrev pub load_entry : Bytes → Bytes × Bool → Loading → Loading
  load_entry dir (name, true) l = l
  load_entry dir (name, false) l =
      if has_suffix (src.join dir name) (codes ".service")
      then load_unit (trim_suffix name (codes ".service")) (src.join dir name)
          (src.read_link (src.join dir name)) l
      else l

  -- A loop over the entries of a directory, if it can be read.
  unfoldable pub over : (Bytes × Bool → Loading → Loading) → List (Bytes × Bool) → Loading → Loading
  over step [] l = l
  over step (entry ∷ entries) l = over step entries (step entry l)

  abbrev pub over_dir :
      (Bytes × Bool → Loading → Loading) → Option (List (Bytes × Bool)) → Loading → Loading
  over_dir step none l = l
  over_dir step (some entries) l = over step entries l

  unfoldable pub over_dirs :
      (Bytes → Bytes × Bool → Loading → Loading) → List Bytes → Loading → Loading
  over_dirs step [] l = l
  over_dirs step (dir ∷ dirs) l = over_dirs step dirs (over_dir (step dir) (src.entries dir) l)

  -- A file of a drop-in directory.
  abbrev pub load_conf : Bytes → Bytes → Bytes → Option Daemon → Loading → Loading
  load_conf fn path file none l = l
  load_conf fn path file (some d) l =
      if src.has_string l.processed file
      then changed fn (add_path path d) l
      else open_and_load fn (add_path path d) (src.open_file path)
          (record l { processed = l.processed ++ (file ∷ []) })

  abbrev pub conf_entry : Bytes → Bytes → Bytes × Bool → Loading → Loading
  conf_entry fn dir (name, true) l = l
  conf_entry fn dir (name, false) l =
      if has_suffix name (codes ".conf")
      then load_conf fn (src.join dir name)
          (real_file (src.join dir name) (src.read_link (src.join dir name))) (find fn l.list) l
      else l

  abbrev pub load_drop_ins : Bytes → Bytes → Option Daemon → Loading → Loading
  load_drop_ins fn path none l = l
  load_drop_ins fn path (some _) l =
      if src.has_string l.failed fn then l else over_dir (conf_entry fn path) (src.entries path) l

  abbrev pub drop_in_entry : Bytes → Bytes × Bool → Loading → Loading
  drop_in_entry dir (name, false) l = l
  drop_in_entry dir (name, true) l =
      if has_suffix (src.join dir name) (codes ".service.d")
      then load_drop_ins (trim_suffix name (codes ".service.d")) (src.join dir name)
          (find (trim_suffix name (codes ".service.d")) l.list) l
      else l

  -- `Reload` up to the links.
  unfoldable pub load : List (Bytes × Daemon) → List (Bytes × Daemon)
  load list =
      clean_up
        (over_dirs drop_in_entry (get_systemd_paths src.is_link) (
          over_dirs load_entry (get_systemd_paths src.is_link)
            (record { list = set_aside_all list; failed = []; processed = [] }))).list

  abbrev pub put_list : List (Bytes × Daemon) → M (Unit {0})
  put_list list s = next tt (record s { list = list })

  -- `Reload`
  unfoldable pub reload_daemons : M (Unit {0})
  reload_daemons = do list ← get (λ s. s.list); put_list (load list); link_all

  abbrev pub name_if : Bytes → Option Daemon → Option Bytes
  name_if name none = none
  name_if name (some _) = some name

  -- `Find` behind its first look; `none` is `ErrNotFound`.
  abbrev pub or_reload : Bytes → Option Daemon → M (Option Bytes)
  or_reload name (some _) = pure (some name)
  or_reload name none = do
    reload_daemons
    found ← get (λ s. find name s.list)
    pure (name_if name found)

  -- `Find`
  unfoldable pub find_daemon : Bytes → M (Option Bytes)
  find_daemon name = do found ← get (λ s. find name s.list); or_reload name found
