-- ===== src/UnitFile/Tests.antt =====
-- Runs of `loadUnitFile`, and the theorems at concrete lines and files.
use docker_systemd.Base.{ℕ, ◌≡◌, refl, List, [], ◌∷◌, Bytes, Option, none, some}
use docker_systemd.Text.{
  codes, equal, has_prefix, has_suffix, trim_prefix, trim_suffix, is_in, trim_left, trim_right,
  trim, split, join, to_upper, to_lower, contains, replace_from,
}
use docker_systemd.Definition.{empty, nanoseconds, Duration}
use docker_systemd.Duration
use docker_systemd.UnitFile.{
  none_yet, Reader, load_unit_file, Loaded, loaded, not_loaded, or_empty, read_lines, read_line,
  statement, header, assign, scan,
}
use docker_systemd.UnitFile.Keys.{
  unit_key, service_key, install_key, assign_unit, assign_install, assign_service, assign_links,
  add_names, expand,
}
use docker_systemd.UnitFile.Line.{unquote, parse_unit_line}
use docker_systemd.UnitFile.Grows.{load_unit_file-Extends, Extends, loaded_def}

abbrev exact : ℕ → ℕ → ℕ → ℕ
exact f unit digits = f

abbrev file : Bytes
file = codes "[Unit]\nWants=a b\n# note\n[Service]\nExecStart=run \\\n  %i\nTimeoutSec=5\n"

abbrev start_of : Loaded → List Bytes
start_of (loaded d) = d.exec_start
start_of (not_loaded d) = []

abbrev timeout_of : Loaded → Option Duration
timeout_of (loaded d) = some d.stop_timeout
timeout_of (not_loaded d) = none

abbrev reader : Reader
reader = record { def = empty; section = none_yet; concat = [] }

program : Unit {0}
unfolding Duration.program load_unit_file read_lines read_line statement header assign scan unit_key
    service_key install_key assign_unit assign_install assign_service assign_links add_names expand
    unquote parse_unit_line equal has_prefix has_suffix trim_prefix trim_suffix is_in trim_left
    trim_right trim split join to_upper to_lower contains replace_from
program = tt

reads_commands :
    (start_of (load_unit_file exact (codes "web@one") none file) ≡ codes "run    one" ∷ [])
    × (timeout_of (load_unit_file exact (codes "web@one") none file)
        ≡ some (nanoseconds 5000000000))
unfolding program
reads_commands = (refl, refl)

load_unit_file-Extends_example :
    Extends
      (or_empty (some empty))
      (loaded_def (load_unit_file exact (codes "web@one") (some empty) file))
load_unit_file-Extends_example = load_unit_file-Extends exact (codes "web@one") (some empty) file
