-- ===== src/Logs.antt =====
-- Where the output of a service goes: `GetLogPath` and `GetUnitLogPath` (common/common.go), and
-- `Logger` (systemd/daemons/logger.go).
pub mod Laws
use docker_systemd.Base.{
  Bool, true, false, List, [], ◌∷◌, ◌++◌, Bytes, Option, none, some, if◌then◌else◌,
}
use docker_systemd.Text.{codes, trim, trim_right, trim_suffix, split}

abbrev pub get_log_path : Bytes
get_log_path = codes "/var/log/services"

unfoldable pub get_unit_log_path : Bytes → Bytes
get_unit_log_path unit = trim (trim_suffix unit (codes ".service")) (codes ".") ++ codes ".log"

-- `Logger`: whether lines go to the standard error output, and what the log file has so far, if
-- there is one.
pub record Logger : Type 0 where
  pub to_stderr : Bool
  pub file : Option Bytes

-- The loop of `Write` over the lines: what is printed.
unfoldable pub printed_lines : List Bytes → List Bytes
printed_lines [] = []
printed_lines ([] ∷ lines) = printed_lines lines
printed_lines ((c ∷ line) ∷ lines) = trim_right (c ∷ line) (codes "\r\n") ∷ printed_lines lines

abbrev pub append_to : Bytes → Option Bytes → Option Bytes
append_to p none = none
append_to p (some content) = some (content ++ p)

-- `Write`: the lines for the standard error output, and the logger with its file. A write to the file
-- succeeds.
unfoldable pub write_log : Logger → Bytes → List Bytes × Logger
write_log l p = (
  if l.to_stderr then printed_lines (split p b'\n') else [],
  record l { file = append_to p l.file },
)

-- Several writes, such as those of a process on its two outputs.
unfoldable pub write_logs : Logger → List Bytes → List Bytes × Logger
write_logs l [] = ([], l)
write_logs l (p ∷ ps) =
    let rest = write_logs (write_log l p).1 ps in ((write_log l p).0 ++ rest.0, rest.1)
