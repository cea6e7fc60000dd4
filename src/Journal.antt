-- ===== src/Journal.antt =====
-- journalctl/main.go. The package go-flags, the package time and the files are parameters. The pager
-- is never used, as `Main` sets NoPager.
pub mod Printed
pub mod Range
pub mod Written
pub mod Limits
mod Tests
use docker_systemd.Base.{
  ℕ, ◌==◌, Bool, true, false, not, ◌&&◌, ◌||◌, List, [], ◌∷◌, ◌++◌, Bytes, length, take, ltb,
  Option, none, some, if◌then◌else◌,
}
use docker_systemd.Text.{codes, equal, split}
use docker_systemd.UnitFile.{scan}
use docker_systemd.Logs.{get_log_path, get_unit_log_path}

-- `time.Time` and `time.Parse` with the two layouts; a time that cannot be parsed is the zero time.
pub record Clock (T : Type 0) : Type 0 where
  pub zero_time : T
  pub is_zero : T → Bool
  pub before : T → T → Bool
  pub date_time : Bytes → Option T
  pub rfc3339 : Bytes → Option T

-- The option `--lines`, which may be negative.
pub data Lines : Type 0 where
  lines : ℕ → Lines
  negative : ℕ → Lines

-- The options, as the user gives them.
pub record Opts : Type 0 where
  pub since : Bytes
  pub until : Bytes
  pub boot : Bool
  pub unit : Bytes
  pub max_lines : Lines
  pub follow : Bool
  pub help : Bool

-- Why `Main` ends with `log.Fatal`.
pub data Reason : Type 0 where
  bad_options unit_required no_log_file wrong_since wrong_until cannot_open : Reason

-- What the program does: it ends with an error, prints the help, runs `tail -n … -f` on the file,
-- runs `tail -n …` on its own standard input, or prints lines.
pub data Outcome : Type 0 where
  fatal : Reason → Outcome
  helps : Outcome
  follows : Lines → Bytes → Outcome
  tails : Lines → Outcome
  prints : List Bytes → Outcome

-- The files: their contents where they can be read, and path.Join.
pub record Files : Type 0 where
  pub exists : Bytes → Bool
  pub content : Bytes → Option Bytes
  pub join : Bytes → Bytes → Bytes

abbrev pub ten_if_zero : Lines → Lines
ten_if_zero (lines n) = if n == 0 then lines 10 else lines n
ten_if_zero (negative n) = negative n

abbrev pub is_positive : Lines → Bool
is_positive (lines n) = not (n == 0)
is_positive (negative n) = false

module _ {T : Type 0} (clock : Clock T) where
  abbrev pub or_zero : Option T → T
  or_zero none = clock.zero_time
  or_zero (some t) = t

  -- The time of a line, from its first 19 bytes.
  abbrev pub stamp : Bytes → T
  stamp line = or_zero (clock.date_time (take 19 line))

  -- The loop over the lines.
  unfoldable pub show : T → T → List Bytes → List Bytes
  show since until [] = []
  show since until (line ∷ more) =
      let rest = show since until more in
      if not (clock.is_zero since) && not (clock.is_zero until)
      then (if ltb (length line) 19
          then rest
          else if clock.before (stamp line) since
          then rest
          else if clock.before until (stamp line)
          then []
          else line ∷ rest)
      else line ∷ rest

  -- `opt.Since` and `opt.Until`: an empty one is the zero time.
  abbrev pub parse_bound : Bytes → Option T
  parse_bound [] = some clock.zero_time
  parse_bound (c ∷ text) = clock.date_time (c ∷ text)

  abbrev pub later_boot : T → Option T → T
  later_boot since none = since
  later_boot since (some boot_time) =
      if not (clock.is_zero boot_time) && (clock.is_zero since || clock.before since boot_time)
      then boot_time
      else since

  abbrev pub rfc3339_of : Option Bytes → Option T
  rfc3339_of none = none
  rfc3339_of (some text) = clock.rfc3339 text

  module _ (files : Files) where
    -- The option `--boot`.
    abbrev pub since_boot : Bool → T → T
    since_boot false since = since
    since_boot true since = later_boot since (rfc3339_of (files.content (codes "/etc/boot-time")))

    -- The path of the log file.
    abbrev pub log_file : Bytes → Bytes
    log_file unit = files.join get_log_path (get_unit_log_path unit)

    abbrev pub show_file : T → T → Option Bytes → Outcome
    show_file since until none = fatal cannot_open
    show_file since until (some content) = prints (show since until (scan (split content b'\n')))

    abbrev pub with_bounds : Opts → T → T → Outcome
    with_bounds opt since until =
        if opt.follow
        then follows (ten_if_zero opt.max_lines) (log_file opt.unit)
        else if is_positive opt.max_lines
        then tails opt.max_lines
        else show_file (since_boot opt.boot since) until (files.content (log_file opt.unit))

    abbrev pub with_until : Opts → T → Option T → Outcome
    with_until opt since none = fatal wrong_until
    with_until opt since (some until) = with_bounds opt since until

    abbrev pub with_since : Opts → Option T → Outcome
    with_since opt none = fatal wrong_since
    with_since opt (some since) = with_until opt since (parse_bound opt.until)

    abbrev pub on_options : Option Opts → Outcome
    on_options none = fatal bad_options
    on_options (some opt) =
        if opt.help
        then helps
        else if equal opt.unit []
        then fatal unit_required
        else if files.exists (log_file opt.unit)
        then with_since opt (parse_bound opt.since)
        else fatal no_log_file

    -- `Main`, with the options that go-flags reads, or none where it fails.
    unfoldable pub journal : Option Opts → Outcome
    journal options = on_options options
