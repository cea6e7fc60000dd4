-- ===== src/Daemon/Enable.antt =====
-- systemd/daemons/daemon.go: `Enable`, `Disable`, `IsEnabled`, `Mask`, `Unmask`, `CreateInstance` and
-- `DeleteService`. The files are a parameter.
pub mod Files
pub mod Answers
mod Tests
use docker_systemd.Base.{
  Bool, true, false, not, ◌&&◌, List, [], ◌∷◌, ◌++◌, Bytes, Option, none, some, if◌then◌else◌,
}
use docker_systemd.Text.{codes, equal, contains, trim_suffix}
use docker_systemd.Definition.{Definition}
use docker_systemd.Daemon.State.{Daemon}

-- What the code calls of the packages os and path, on files in the state `S`. A call that changes
-- the files also says whether it succeeded.
pub record Disk (S : Type 0) : Type 0 where
  pub join : Bytes → Bytes → Bytes
  pub split : Bytes → Bytes × Bytes
  pub stat : Bytes → S → Bool
  pub is_link : Bytes → S → Bool
  pub read_link : Bytes → S → Option Bytes
  pub mkdir_all : Bytes → S → S
  pub write_file : Bytes → Bytes → S → Bool × S
  pub remove : Bytes → S → Bool × S
  pub remove_all : Bytes → S → S
  pub symlink : (to name : Bytes) → S → Bool × S
  pub link : (old name : Bytes) → S → Bool × S

pub data FileFault : Type 0 where
  is_removed has_no_path not_an_instance : FileFault
  file_exists not_written not_removed not_linked : Bytes → FileFault

-- `/etc/systemd/system/multi-user.target.wants`
abbrev pub wants_dir : Bytes
wants_dir = codes "/etc/systemd/system/multi-user.target.wants"

abbrev pub null_device : Bytes
null_device = codes "/dev/null"

abbrev pub done_or : FileFault → Bool → Option FileFault
done_or e ok = if ok then none else some e

abbrev pub clear_mask : Bool → Daemon → Daemon
clear_mask ok d = if ok then record d { masked = false } else d

module _ {S : Type 0} (disk : Disk S) where
  abbrev pub wanted_file : Bytes → Bytes
  wanted_file name = disk.join wants_dir (name ++ codes ".service")

  abbrev pub unit_file : Bytes → Bytes
  unit_file name = disk.join (codes "/etc/systemd/system/") (name ++ codes ".service")

  abbrev pub is_some : Option Definition → Bool
  is_some none = false
  is_some (some _) = true

  -- `IsEnabled`
  unfoldable pub is_enabled : Bytes → Daemon → S → Bool
  is_enabled name d s = is_some d.def && disk.stat (wanted_file name) s

  abbrev pub make_wants_dir : S → S
  make_wants_dir s = if disk.stat wants_dir s then s else disk.mkdir_all wants_dir s

  abbrev pub reported : FileFault → Bool × S → Option FileFault × S
  reported e r = (done_or e r.0, r.1)

  abbrev pub write_wanted : Bytes → S → Option FileFault × S
  write_wanted name s =
      if disk.stat (wanted_file name) s
      then (none, s)
      else reported (not_written (wanted_file name))
          (disk.write_file (wanted_file name) (codes "OK") s)

  abbrev pub enable_with : Bytes → Option Definition → List Bytes → S → Option FileFault × S
  enable_with name none paths s = (some is_removed, s)
  enable_with name (some def) [] s = (some has_no_path, s)
  enable_with name (some def) (_ ∷ _) s = write_wanted name s

  -- `Enable`
  unfoldable pub enable : Bytes → Daemon → S → Option FileFault × S
  enable name d s = enable_with name d.def d.paths (make_wants_dir s)

  -- `Disable`
  unfoldable pub disable : Bytes → S → Option FileFault × S
  disable name s =
      if disk.stat (wanted_file name) s
      then reported (not_removed (wanted_file name)) (disk.remove (wanted_file name) s)
      else (none, s)

  abbrev pub mask_with : Daemon → Bool × S → Option FileFault × Daemon × S
  mask_with d (true, s) = (none, record d { masked = true }, s)
  mask_with d (false, s) = (some (not_linked (codes "target")), d, s)

  -- `Mask`
  unfoldable pub mask : Bytes → Daemon → S → Option FileFault × Daemon × S
  mask name d s =
      if disk.stat (unit_file name) s
      then (some (file_exists (unit_file name)), d, s)
      else mask_with d (disk.symlink null_device (codes "target") s)

  abbrev pub points_to_null : Option Bytes → Bool
  points_to_null none = false
  points_to_null (some t) = equal t null_device

  abbrev pub unmask_with : Bytes → Daemon → Bool × S → Option FileFault × Daemon × S
  unmask_with name d r = (done_or (not_removed (unit_file name)) r.0, clear_mask r.0 d, r.1)

  -- `Unmask`
  unfoldable pub unmask : Bytes → Daemon → S → Option FileFault × Daemon × S
  unmask name d s =
      if disk.is_link (unit_file name) s && points_to_null (disk.read_link (unit_file name) s)
      then unmask_with name d (disk.remove (unit_file name) s)
      else (none, record d { masked = false }, s)

  -- The first loop of `CreateInstance`.
  unfoldable pub all_templates : List Bytes → Bool
  all_templates [] = true
  all_templates (p ∷ paths) = contains p (codes "@") && all_templates paths

  abbrev pub instance_path : Bytes → Bytes → Bytes
  instance_path name p =
      disk.join (disk.split p).0
        (trim_suffix (disk.split p).1 (codes ".service") ++ (name ++ codes ".service"))

  abbrev pub linked_then : Bytes → Bool × S → (S → Option FileFault × S) → Option FileFault × S
  linked_then dest (true, s) more = more s
  linked_then dest (false, s) more = (some (not_linked dest), s)

  unfoldable pub link_paths : Bytes → List Bytes → S → Option FileFault × S
  link_paths name [] s = (none, s)
  link_paths name (p ∷ paths) s =
      linked_then (instance_path name p) (disk.link p (instance_path name p) s)
        (link_paths name paths)

  -- `CreateInstance`
  unfoldable pub create_instance : Bytes → Daemon → S → Option FileFault × S
  create_instance name d s =
      if all_templates d.paths then link_paths name d.paths s else (some not_an_instance, s)

  unfoldable pub remove_paths : List Bytes → S → S
  remove_paths [] s = s
  remove_paths (p ∷ paths) s = remove_paths paths (disk.remove_all p s)

  -- `DeleteService`
  unfoldable pub delete_service : Daemon → S → S
  delete_service d s = remove_paths d.paths s
