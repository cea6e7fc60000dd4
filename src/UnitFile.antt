-- ===== src/UnitFile.antt =====
-- systemd/daemons/unit.go: `parseUnitLine`, and `loadUnitFile` as a fold over the lines.
pub mod Keys
pub mod Line
pub mod Grows
pub mod Comments
mod Tests
use docker_systemd.Base.{
  ℕ, Bool, true, false, ◌&&◌, ◌||◌, List, [], ◌∷◌, ◌++◌, Bytes, Option, none, some, length, leb,
  if◌then◌else◌,
}
use docker_systemd.Text.{
  codes, equal, has_prefix, has_suffix, trim, trim_left, trim_right, trim_suffix, split, to_upper,
}
use docker_systemd.Definition.{Definition, empty}
use docker_systemd.UnitFile.Keys.{
  assign_unit, assign_install, assign_service, Assigned, assigned, refused,
}
use docker_systemd.UnitFile.Line.{blanks, parse_unit_line}

-- The constants `sectionNone` … `sectionUnknown`.
pub data Section : Type 0 where
  none_yet unit service install unknown : Section

-- The header that a line is: its section, if the line is one.
unfoldable pub header : Bytes → Option Section
header trimmed =
    let name = to_upper trimmed in
    if equal name (codes "[UNIT]")
    then some unit
    else if equal name (codes "[SERVICE]")
    then some service
    else if equal name (codes "[INSTALL]")
    then some install
    else if has_prefix trimmed (codes "[") && has_suffix trimmed (codes "]")
    then some unknown
    else none

-- What the loop carries from line to line.
pub record Reader : Type 0 where
  pub def : Definition
  pub section : Section
  pub concat : Bytes

-- The loop goes on, or `loadUnitFile` returns the error of a duration.
pub data Read : Type 0 where
  reading : Reader → Read
  failed : Definition → Read

-- A line without its trailing blanks and its last backslash.
abbrev pub unescaped : Bytes → Bytes
unescaped line = trim_suffix (trim_right line blanks) (codes "\\")

module _ (fraction : ℕ → ℕ → ℕ → ℕ) (service_name : Bytes) where
  unfoldable pub assign : Section → Bytes → Bytes → Definition → Assigned
  assign unit name value def = assigned (assign_unit name value def)
  assign install name value def = assigned (assign_install name value def)
  assign service name value def = assign_service fraction service_name name value def
  assign _ name value def = assigned def

  abbrev pub store : Reader → Assigned → Read
  store r (assigned def) = reading (record r { def = def })
  store r (refused def) = failed def

  -- A whole line, with its continuations joined: a header, or a key and its value.
  unfoldable pub statement : Reader → Bytes → Read
  statement r line = elim (header (trim line blanks)) [
    | some s ↦ reading (record r { section = s })
    | none ↦ let (name, value) = parse_unit_line line in store r (assign r.section name value r.def)
  ]

  abbrev pub is_comment : Bytes → Bool
  is_comment trimmed = has_prefix trimmed (codes ";") || has_prefix trimmed (codes "#")

  -- The line that is read, behind the lines that continue in it.
  abbrev pub joined : Bytes → Bytes → Bytes
  joined [] line = line
  joined (c ∷ concat) line = (c ∷ concat) ++ unescaped line

  -- One round of the loop.
  unfoldable pub read_line : Reader → Bytes → Read
  read_line r line =
      let trimmed = trim line blanks in
      if is_comment trimmed
      then reading r
      else if has_suffix trimmed (codes "\\")
      then reading (record r { concat = r.concat ++ (unescaped line ++ codes " ") })
      else statement (record r { concat = [] }) (joined r.concat line)

  unfoldable pub read_lines : Reader → List Bytes → Read
  read_lines r [] = reading r
  read_lines r (line ∷ lines) = elim (read_line r line) [
    | reading r' ↦ read_lines r' lines
    | failed def ↦ failed def
  ]

-- `bufio.Scanner`: the lines without a trailing carriage return; the scan ends in silence at a line
-- that does not fit its buffer of 65536 bytes. What stands behind the last newline is a line unless
-- it is empty.
unfoldable pub scan : List Bytes → List Bytes
scan [] = []
scan ([] ∷ []) = []
scan ((c ∷ last) ∷ []) =
    if leb 65536 (length (c ∷ last)) then [] else trim_suffix (c ∷ last) (codes "\r") ∷ []
scan (line ∷ next ∷ more) =
    let rest = scan (next ∷ more) in
    if leb 65536 (length line) then [] else trim_suffix line (codes "\r") ∷ rest

-- `if d.def == nil { d.def = … }`
abbrev pub or_empty : Option Definition → Definition
or_empty none = empty
or_empty (some def) = def

-- The outcome of `loadUnitFile`, with `d.def` as it leaves it.
pub data Loaded : Type 0 where
  loaded : Definition → Loaded
  not_loaded : Definition → Loaded

abbrev pub outcome : Read → Loaded
outcome (reading r) = loaded r.def
outcome (failed def) = not_loaded def

unfoldable pub load_unit_file : (ℕ → ℕ → ℕ → ℕ) → Bytes → Option Definition → Bytes → Loaded
load_unit_file fraction service_name def content = outcome (
    read_lines fraction service_name
      (record { def = or_empty def; section = none_yet; concat = [] }) (scan (split content b'\n')))
