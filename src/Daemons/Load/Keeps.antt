-- ===== src/Daemons/Load/Keeps.antt =====
-- systemd/daemons/daemons.go, `Reload` up to the links: it keeps what runs.
use docker_systemd.Base.{
  ◌≡◌, ◌≢◌, refl, sym, ap, ◌∙◌, subst, Bool, true, false, not, ◌&&◌, List, [], ◌∷◌, ◌++◌, Bytes,
  Option, none, some, if◌then◌else◌,
}
use mathlib.Core.Option
use docker_systemd.Text.{codes, equal, has_suffix, trim_suffix}
use docker_systemd.Text.Laws.{equal_iff}
use docker_systemd.UnitFile.{Loaded, loaded, not_loaded, load_unit_file}
use docker_systemd.Daemon.State.{stopped, Daemon, find, update}
use docker_systemd.Daemons.Load.{
  Source, get_systemd_paths, Loading, set_aside_all, store_daemon, give_back, add_path, daemon_of,
  real_file, masks, changed, stored, take_loaded, open_and_load, load_unit, load_entry, over,
  over_dir, over_dirs, load_conf, conf_entry, load_drop_ins, drop_in_entry, load,
}
use docker_systemd.Daemons.Load.Runs.{
  IsSame, IsKept, find-store_daemon, IsKept-put, changed-found, IsKept-aside, IsKept-clean_up,
}

module _ (src : Source) (n : Bytes) (d : Daemon) where
  abbrev Holds : Loading → Type 0
  Holds l = IsKept n d l.list

  -- A daemon under the name `fn` that goes on with the run of the one in question, if it is that.
  abbrev Continues : Bytes → Daemon → Type 0
  Continues fn e = equal fn n ≡ true → IsSame d e

  stored-Holds :
      (fn : Bytes) (e : Daemon) (l : Loading) → Continues fn e → Holds l → Holds (stored src fn e l)
  stored-Holds fn e l same h =
      IsKept-put n d fn e l.list (store_daemon fn e l.list) (find-store_daemon n fn e l.list) same h

  changed-Holds :
      (fn : Bytes) (e : Daemon) (l : Loading)
      → Continues fn e
      → Holds l
      → Holds (changed src fn e l)
  changed-Holds fn e l same h =
      IsKept-put n d fn e l.list (update fn (λ _. e) l.list) (changed-found n d fn e l.list h) same
        h

  take_loaded-Holds :
      (fn : Bytes) (e : Daemon) (r : Loaded) (l : Loading)
      → Continues fn e
      → Holds l
      → Holds (take_loaded src fn e r l)
  take_loaded-Holds fn e (loaded def) l same h =
      stored-Holds fn (record e { def = some def }) l same h
  take_loaded-Holds fn e (not_loaded def) l same h =
      changed-Holds fn (give_back e) (record l { failed = l.failed ++ (fn ∷ []) }) same h

  open_and_load-Holds :
      (fn : Bytes) (e : Daemon) (content : Option Bytes) (l : Loading)
      → Continues fn e
      → Holds l
      → Holds (open_and_load src fn e content l)
  open_and_load-Holds fn e none l same h = changed-Holds fn e l same h
  open_and_load-Holds fn e (some content) l same h =
      take_loaded-Holds fn e (load_unit_file src.fraction fn e.def content) l same h

  IsSame-add_path : (path : Bytes) (e : Daemon) → IsSame d e → IsSame d (add_path src path e)
  IsSame-add_path path e same = by_test (src.has_string e.paths path)
    where
      by_test : (b : Bool) → IsSame d (if b then e else record e { paths = e.paths ++ (path ∷ []) })
      by_test true = same
      by_test false = same

  -- What the list has under a name goes on with the run.
  found-Continues :
      (fn : Bytes) (o : Option Daemon) (l : Loading) (path : Bytes)
      → find fn l.list ≡ o
      → Holds l
      → Continues fn (daemon_of src path o)
  found-Continues fn o l path e (old, found, same) is =
      by_found o (sym found ∙ sym (ap (λ m. find m l.list) ((equal_iff fn n).0 is)) ∙ e)
    where
      by_found : (o : Option Daemon) → some old ≡ o → IsSame d (daemon_of src path o)
      by_found none e = absurd (cc)
      by_found (some e') e =
          IsSame-add_path path e' (subst (IsSame d) (Option.some-injective _ _ e) same)

  load_unit-Holds :
      (fn path : Bytes) (link : Option Bytes) (l : Loading)
      → Holds l
      → Holds (load_unit src fn path link l)
  load_unit-Holds fn path link l h =
      by_test (not e.masked && not (src.has_string l.processed (real_file src path link)))
    where
      e : Daemon
      e = record (daemon_of src path (find fn l.list)) { masked = masks src link }

      same : Continues fn e
      same is = found-Continues fn (find fn l.list) l path refl h is

      read : Loading
      read = record l { processed = l.processed ++ (real_file src path link ∷ []) }

      by_test :
          (b : Bool)
          → Holds
              (if b then open_and_load src fn e (src.open_file path) read else stored src fn e l)
      by_test true = open_and_load-Holds fn e (src.open_file path) read same h
      by_test false = stored-Holds fn e l same h

  -- A step that keeps the service, under a test.
  if-Holds : (b : Bool) (l l' : Loading) → Holds l → Holds l' → Holds (if b then l' else l)
  if-Holds true l l' h h' = h'
  if-Holds false l l' h h' = h

  load_entry-Holds :
      (dir : Bytes) (entry : Bytes × Bool) (l : Loading)
      → Holds l
      → Holds (load_entry src dir entry l)
  load_entry-Holds dir (name, true) l h = h
  load_entry-Holds dir (name, false) l h =
      if-Holds (has_suffix (src.join dir name) (codes ".service")) l _ h (
        load_unit-Holds (trim_suffix name (codes ".service")) (src.join dir name)
          (src.read_link (src.join dir name)) l h)

  over-Holds :
      (step : Bytes × Bool → Loading → Loading)
      → ((entry : Bytes × Bool) (l : Loading) → Holds l → Holds (step entry l))
      → (entries : List (Bytes × Bool)) (l : Loading) → Holds l
      → Holds (over src step entries l)
  unfolding over
  over-Holds step keeps [] l h = h
  over-Holds step keeps (entry ∷ entries) l h =
      over-Holds step keeps entries (step entry l) (keeps entry l h)

  over_dir-Holds :
      (step : Bytes × Bool → Loading → Loading)
      → ((entry : Bytes × Bool) (l : Loading) → Holds l → Holds (step entry l))
      → (entries : Option (List (Bytes × Bool))) (l : Loading) → Holds l
      → Holds (over_dir src step entries l)
  over_dir-Holds step keeps none l h = h
  over_dir-Holds step keeps (some entries) l h = over-Holds step keeps entries l h

  over_dirs-Holds :
      (step : Bytes → Bytes × Bool → Loading → Loading)
      → ((dir : Bytes) (entry : Bytes × Bool) (l : Loading) → Holds l → Holds (step dir entry l))
      → (dirs : List Bytes) (l : Loading) → Holds l
      → Holds (over_dirs src step dirs l)
  unfolding over_dirs
  over_dirs-Holds step keeps [] l h = h
  over_dirs-Holds step keeps (dir ∷ dirs) l h =
      over_dirs-Holds step keeps dirs (over_dir src (step dir) (src.entries dir) l)
        (over_dir-Holds (step dir) (keeps dir) (src.entries dir) l h)

  load_conf-Holds :
      (fn path file : Bytes) (o : Option Daemon) (l : Loading)
      → find fn l.list ≡ o
      → Holds l
      → Holds (load_conf src fn path file o l)
  load_conf-Holds fn path file none l e h = h
  load_conf-Holds fn path file (some e') l e h = by_test (src.has_string l.processed file)
    where
      same : Continues fn (add_path src path e')
      same is = found-Continues fn (some e') l path e h is

      read : Loading
      read = record l { processed = l.processed ++ (file ∷ []) }

      by_test :
          (b : Bool)
          → Holds (
              if b
              then changed src fn (add_path src path e') l
              else open_and_load src fn (add_path src path e') (src.open_file path) read)
      by_test true = changed-Holds fn (add_path src path e') l same h
      by_test false = open_and_load-Holds fn (add_path src path e') (src.open_file path) read same h

  conf_entry-Holds :
      (fn dir : Bytes) (entry : Bytes × Bool) (l : Loading)
      → Holds l
      → Holds (conf_entry src fn dir entry l)
  conf_entry-Holds fn dir (name, true) l h = h
  conf_entry-Holds fn dir (name, false) l h = if-Holds (has_suffix name (codes ".conf")) l _ h (
      load_conf-Holds fn (src.join dir name)
        (real_file src (src.join dir name) (src.read_link (src.join dir name))) (find fn l.list) l
        refl h)

  load_drop_ins-Holds :
      (fn path : Bytes) (o : Option Daemon) (l : Loading)
      → Holds l
      → Holds (load_drop_ins src fn path o l)
  load_drop_ins-Holds fn path none l h = h
  load_drop_ins-Holds fn path (some e) l h = by_test (src.has_string l.failed fn)
    where
      by_test :
          (b : Bool)
          → Holds (if b then l else over_dir src (conf_entry src fn path) (src.entries path) l)
      by_test true = h
      by_test false =
          over_dir-Holds (conf_entry src fn path) (conf_entry-Holds fn path) (src.entries path) l h

  drop_in_entry-Holds :
      (dir : Bytes) (entry : Bytes × Bool) (l : Loading)
      → Holds l
      → Holds (drop_in_entry src dir entry l)
  drop_in_entry-Holds dir (name, false) l h = h
  drop_in_entry-Holds dir (name, true) l h =
      if-Holds (has_suffix (src.join dir name) (codes ".service.d")) l _ h (
        load_drop_ins-Holds (trim_suffix name (codes ".service.d")) (src.join dir name)
          (find (trim_suffix name (codes ".service.d")) l.list) l h)

  -- The loading, which is Reload up to the links, keeps every service that is not stopped, whatever has
  -- become of its files: it stays in the list, with its state, its last error and its processes.
  pub load-IsKept :
      (list : List (Bytes × Daemon))
      → find n list ≡ some d
      → d.state ≢ stopped
      → IsKept n d (load src list)
  unfolding load
  load-IsKept list found active =
      let start : Loading = record { list = set_aside_all list; failed = []; processed = [] } in
      let units : Loading = over_dirs src (load_entry src) (get_systemd_paths src.is_link) start in
      IsKept-clean_up n d
        (over_dirs src (drop_in_entry src) (get_systemd_paths src.is_link) units).list active
        (over_dirs-Holds (drop_in_entry src) drop_in_entry-Holds (get_systemd_paths src.is_link)
          units
          (over_dirs-Holds (load_entry src) load_entry-Holds (get_systemd_paths src.is_link) start
            (IsKept-aside n d list found)))
