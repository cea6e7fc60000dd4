-- ===== src/Daemons/Load/Tests.antt =====
-- A Reload with one unit file, and the theorems at it.
use docker_systemd.Base.{
  ◌≡◌, ◌≢◌, refl, Bool, true, if◌then◌else◌, false, [], ◌∷◌, ◌++◌, Bytes, none, some,
}
use docker_systemd.Text.{codes, equal, split, has_suffix, trim_suffix}
use docker_systemd.UnitFile.{scan, load_unit_file, read_lines}
use docker_systemd.Definition.{empty}
use docker_systemd.Daemon.State.{Daemon, running, stopped, System}
use docker_systemd.Daemons.Load.{
  over, store_daemon, Source, load, reload_daemons, get_systemd_paths, set_aside_all, clean_up,
  over_dirs,
}
use docker_systemd.Daemons.Load.Runs.{IsKept}
use docker_systemd.Daemons.Load.Links.{reload_daemons-IsKept}
use docker_systemd.Daemons.Link.Rules.{Leads}
use docker_systemd.Daemons.Link.{
  write, link_name, link_names, link_row, link_rows, link_service, link_services, link_all,
}
use docker_systemd.Daemon.Flow.{Flow, next, statements}
use docker_systemd.Daemons.Load.Tidy.{load-tidy}

abbrev app : Bytes
app = codes "app"

-- A running service whose unit file is gone.
abbrev orphan : Daemon
orphan = record {
  state = running;
  state_error = none;
  def = some empty;
  old_def = none;
  paths = [];
  masked = false;
  is_manual = false;
  cmds = [];
  pids = 7 ∷ [];
  held = false;
}

-- No directory can be read.
abbrev bare : Source
bare = record {
  is_link = λ p. false;
  entries = λ dir. none;
  read_link = λ p. none;
  open_file = λ p. none;
  join = λ a b. a ++ (codes "/" ++ b);
  has_string = λ list s. false;
  fraction = λ a b c. 0;
}

-- The unit file of `app` is there, and is empty.
abbrev one_file : Source
one_file = record bare {
  entries = λ dir.
      if equal dir (codes "/etc/systemd/system")
      then some ((codes "app.service", false) ∷ [])
      else none;
  open_file = λ p. some [];
}

abbrev before : System
before = record {
  list = (app, orphan) ∷ [];
  shutdown = false;
  log_to_file = false;
  clock = 0;
  slept = 0;
  trace = [];
}

reload_daemons-IsKept_example :
    Leads (λ t. IsKept app orphan t.list) (reload_daemons one_file before)
unfolding equal
reload_daemons-IsKept_example =
    reload_daemons-IsKept app orphan one_file before refl (λ e. absurd (cc))

goes_on_with_one : Flow (Unit {0}) → Bool
goes_on_with_one (next r s) = elim s.list [ [] ↦ false | d ∷ list ↦ true ]
goes_on_with_one _ = false

-- This Reload ends.
reload-one_file : goes_on_with_one (reload_daemons one_file before) ≡ true
unfolding reload_daemons load link_all link_services link_service link_rows link_row link_names
    link_name write statements equal set_aside_all clean_up over over_dirs store_daemon
    get_systemd_paths goes_on_with_one has_suffix trim_suffix load_unit_file read_lines split scan
reload-one_file = refl

-- What is left of it.
abbrev left : Daemon
left = record orphan { def = none }

load-tidy_example : (left.def ≡ none → left.state ≢ stopped) × (left.old_def ≡ none)
unfolding load equal set_aside_all clean_up over_dirs get_systemd_paths
load-tidy_example = load-tidy bare ((app, orphan) ∷ []) app left refl
