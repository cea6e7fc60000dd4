-- ===== src/Entry.antt =====
-- main.go, `main`: the program that runs under the name with which it was called.
pub mod Install
pub mod Names
pub mod Options
pub mod Shutdown
mod Tests
use docker_systemd.Base.{ℕ, ◌==◌, List, [], ◌∷◌, Bytes, if◌then◌else◌}
use docker_systemd.Text.{codes, equal, split, trim}

-- What runs: `Main` of journalctl, `Main` of systemctl with its arguments, `install` and then `Main`
-- of systemd; or the version is printed.
pub data Program : Type 0 where
  runs_journalctl : Program
  prints_version : Bytes → Program
  runs_systemctl : List Bytes → Program
  boots : Program

unfoldable pub last_of : Bytes → List Bytes → Bytes
last_of piece [] = piece
last_of piece (next ∷ pieces) = last_of next pieces

-- The second result of `path.Split`: what stands behind the last slash.
unfoldable pub base_name : Bytes → Bytes
base_name path = last_of [] (split path b'/')

abbrev pub systemctl_or_version : Bytes → Bytes → List Bytes → Program
systemctl_or_version version argv0 (arg ∷ []) =
    if equal arg (codes "version")
    then prints_version (trim version (codes "\r\n\t "))
    else runs_systemctl (argv0 ∷ arg ∷ [])
systemctl_or_version version argv0 args = runs_systemctl (argv0 ∷ args)

-- `service NAME VERB` with the two swapped.
abbrev pub swapped : List Bytes → List Bytes
swapped (prev ∷ arg ∷ args) = arg ∷ prev ∷ args
swapped args = args

abbrev pub by_name : Bytes → Bytes → List Bytes → Bytes → Program
by_name version argv0 args name =
    if equal name (codes "journalctl")
    then runs_journalctl
    else if equal name (codes "systemctl")
    then systemctl_or_version version argv0 args
    else if equal name (codes "poweroff")
    then runs_systemctl (argv0 ∷ codes "poweroff" ∷ [])
    else if equal name (codes "shutdown")
    then runs_systemctl (argv0 ∷ codes "poweroff" ∷ [])
    else if equal name (codes "service")
    then runs_systemctl (argv0 ∷ swapped args)
    else boots

-- `main`, with `os.Getpid()`, the version of the file VERSION, and `os.Args`.
unfoldable pub main : ℕ → Bytes → Bytes → List Bytes → Program
main pid version argv0 args =
    if pid == 1 then boots else by_name version argv0 args (base_name argv0)
