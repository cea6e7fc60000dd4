-- ===== src/Entry/Install.antt =====
-- main.go, `install`. The files, os.Executable, filepath.SplitList and inslice.HasString are
-- parameters.
pub mod Linked
use docker_systemd.Base.{
  Bool, true, false, List, [], ◌∷◌, ◌++◌, map, Bytes, Option, none, some, if◌then◌else◌,
}
use docker_systemd.Text.{codes, equal, trim_right}

-- What the code calls of the package os, on files in the state `S`: `lstat` says whether a path that
-- is there is a link. The error of `rename` is ignored.
pub record Files (S : Type 0) : Type 0 where
  pub lstat : Bytes → S → Option Bool
  pub read_link : Bytes → S → Option Bytes
  pub rename : (old new : Bytes) → S → S
  pub symlink : (to name : Bytes) → S → Bool × S

abbrev pub suitable_paths : List Bytes
suitable_paths =
    codes "/usr/local/sbin"
    ∷ codes "/usr/local/bin"
    ∷ codes "/usr/bin"
    ∷ codes "/bin"
    ∷ codes "/usr/sbin"
    ∷ codes "/sbin"
    ∷ []

-- The loop over PATH.
unfoldable pub base_path : (List Bytes → Bytes → Bool) → List Bytes → Bytes
base_path has_string [] = codes "/usr/sbin"
base_path has_string (item ∷ fp) =
    let rest = base_path has_string fp in
    if has_string suitable_paths item then trim_right item (codes "/") else rest

abbrev pub programs : List Bytes
programs =
    codes "/journalctl"
    ∷ codes "/systemctl"
    ∷ codes "/systemd"
    ∷ codes "/init"
    ∷ codes "/poweroff"
    ∷ codes "/shutdown"
    ∷ codes "/service"
    ∷ []

module _ {S : Type 0} (files : Files S) (me : Bytes) where
  -- The end of `install` by `log.Fatalf` is none.
  abbrev pub linked : Bool × S → Option S
  linked (true, t) = some t
  linked (false, t) = none

  abbrev pub link_again : Bytes → S → Option S
  link_again f s = linked (files.symlink me f (files.rename f (f ++ codes ".old") s))

  abbrev pub is_me : Option Bytes → Bool
  is_me none = false
  is_me (some dest) = equal dest me

  abbrev pub link_found : Bytes → S → Option Bool → Option S
  link_found f s (some true) = if is_me (files.read_link f s) then some s else link_again f s
  link_found f s _ = link_again f s

  -- A round of the loop.
  unfoldable pub install_one : Bytes → S → Option S
  install_one f s = if equal me f then some s else link_found f s (files.lstat f s)

  abbrev pub and_rest : (S → Option S) → Option S → Option S
  and_rest rest none = none
  and_rest rest (some s) = rest s

  unfoldable pub install_each : List Bytes → S → Option S
  install_each [] s = some s
  install_each (f ∷ fs) s = and_rest (install_each fs) (install_one f s)

  -- `install`, with the directories of PATH.
  unfoldable pub install : (List Bytes → Bytes → Bool) → List Bytes → S → Option S
  install has_string fp s = install_each (map (λ f. base_path has_string fp ++ f) programs) s
