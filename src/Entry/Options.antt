-- ===== src/Entry/Options.antt =====
-- systemd/main.go, `Main`: the options of the daemon.
use docker_systemd.Base.{Bool, true, false, List, [], ◌∷◌, Bytes, Option, none, some, if◌then◌else◌}
use docker_systemd.Text.{codes, equal}

-- `daemons.LogToStderr`, `daemons.LogToFile`, `ldPreload` and `procwait.Debug`.
pub record Options : Type 0 where
  pub log_to_stderr : Bool
  pub log_to_file : Bool
  pub ld_preload : Bool
  pub debug : Bool

abbrev pub defaults : Options
defaults = record { log_to_stderr = false; log_to_file = true; ld_preload = true; debug = false }

-- One argument; an unknown one is none.
unfoldable pub set_option : Bytes → Options → Option Options
set_option item o =
    if equal item (codes "--log-to-stderr")
    then some (record o { log_to_stderr = true })
    else if equal item (codes "--no-logfile")
    then some (record o { log_to_file = false })
    else if equal item (codes "--no-pidtrack")
    then some (record o { ld_preload = false })
    else if equal item (codes "--debug-reaper")
    then some (record o { debug = true })
    else none

abbrev pub and_more : (Options → Option Options) → Option Options → Option Options
and_more rest none = none
and_more rest (some o) = rest o

-- The loop over the arguments, or `log.Fatalf`.
unfoldable pub read_options : List Bytes → Options → Option Options
read_options [] o = some o
read_options (item ∷ args) o = and_more (read_options args) (set_option item o)
