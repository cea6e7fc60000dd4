-- ===== src/Daemon/Enable/Answers.antt =====
-- systemd/daemons/daemon.go: what enabling, disabling, masking and unmasking leave behind.
use docker_systemd.Base.{
  ◌≡◌, ◌≢◌, refl, ap, ◌∙◌, arith, Bool, true, false, ◌&&◌, List, [], ◌∷◌, Bytes, Option, none, some,
  if◌then◌else◌,
}
use docker_systemd.Text.{codes}
use docker_systemd.Definition.{Definition}
use docker_systemd.Daemon.State.{Daemon}
use docker_systemd.Daemon.Enable.{
  Disk, FileFault, file_exists, not_written, not_removed, wanted_file, unit_file, is_some,
  is_enabled, make_wants_dir, write_wanted, enable_with, enable, disable, mask_with, mask,
  points_to_null, unmask_with, unmask, null_device, reported,
}
use docker_systemd.Daemon.Enable.Files.{IsDisk}

reported-none :
    {S : Type 0} (e : FileFault) (r : Bool × S) → (if r.0 then none else some e) ≡ none → r.0 ≡ true
reported-none e (true, s) h = refl
reported-none e (false, s) h = absurd (cc)

module _ {S : Type 0} (disk : Disk S) (ok : IsDisk disk) where
  write_wanted-stat :
      (name : Bytes) (s : S)
      → (write_wanted disk name s).0 ≡ none
      → disk.stat (wanted_file disk name) (write_wanted disk name s).1 ≡ true
  write_wanted-stat name s = by_test (disk.stat (wanted_file disk name) s) refl
    where
      by_test :
          (b : Bool)
          → disk.stat (wanted_file disk name) s ≡ b
          → (if b
              then (none, s)
              else reported disk
                  (not_written (wanted_file disk name))
                  (disk.write_file (wanted_file disk name) (codes "OK") s)).0
            ≡ none
          → disk.stat
              (wanted_file disk name)
              (if b
                then (none, s)
                else reported disk
                    (not_written (wanted_file disk name))
                    (disk.write_file (wanted_file disk name) (codes "OK") s)).1
            ≡ true
      by_test true there h = there
      by_test false absent h =
          ok.stat-write (wanted_file disk name) (codes "OK") s
            (reported-none _ (disk.write_file (wanted_file disk name) (codes "OK") s) h)

  -- An Enable without an error leaves the service enabled; without a definition or a path there is
  -- an error.
  pub is_enabled-enable :
      (name : Bytes) (d : Daemon) (s : S)
      → (enable disk name d s).0 ≡ none
      → is_enabled disk name d (enable disk name d s).1 ≡ true
  unfolding enable is_enabled
  is_enabled-enable name d s = by_def d.def d.paths
    where
      by_def :
          (o : Option Definition) (paths : List Bytes)
          → (enable_with disk name o paths (make_wants_dir disk s)).0 ≡ none
          → (is_some disk o
              && disk.stat
                  (wanted_file disk name)
                  (enable_with disk name o paths (make_wants_dir disk s)).1)
            ≡ true
      by_def none paths h = absurd (cc)
      by_def (some def) [] h = absurd (cc)
      by_def (some def) (p ∷ paths) h = write_wanted-stat name (make_wants_dir disk s) h

  -- A Disable without an error leaves the service disabled.
  is_enabled-disable :
      (name : Bytes) (d : Daemon) (s : S)
      → (disable disk name s).0 ≡ none
      → is_enabled disk name d (disable disk name s).1 ≡ false
  unfolding disable is_enabled
  is_enabled-disable name d s h =
      off (is_some disk d.def) (by_test (disk.stat (wanted_file disk name) s) refl h)
    where
      off : {b : Bool} (a : Bool) → b ≡ false → (a && b) ≡ false
      off true e = e
      off false e = refl

      by_test :
          (b : Bool)
          → disk.stat (wanted_file disk name) s ≡ b
          → (if b
              then reported disk
                  (not_removed (wanted_file disk name))
                  (disk.remove (wanted_file disk name) s)
              else (none, s)).0
            ≡ none
          → disk.stat
              (wanted_file disk name)
              (if b
                then reported disk
                    (not_removed (wanted_file disk name))
                    (disk.remove (wanted_file disk name) s)
                else (none, s)).1
            ≡ false
      by_test true there h =
          ok.stat-remove (wanted_file disk name) s
            (reported-none _ (disk.remove (wanted_file disk name) s) h)
      by_test false absent h = absent

  mask-made :
      (name : Bytes) (d : Daemon) (s : S)
      → (mask disk name d s).0 ≡ none
      → ((disk.symlink null_device (codes "target") s).0 ≡ true)
        × ((mask disk name d s).2 ≡ (disk.symlink null_device (codes "target") s).1)
  unfolding mask
  mask-made name d s = by_test (disk.stat (unit_file disk name) s)
    where
      by_link :
          (r : Bool × S)
          → (mask_with disk d r).0 ≡ none
          → (r.0 ≡ true) × ((mask_with disk d r).2 ≡ r.1)
      by_link (true, t) h = (refl, refl)
      by_link (false, t) h = absurd (cc)

      masked : Bool → Option FileFault × Daemon × S
      masked b =
          if b
          then (some (file_exists (unit_file disk name)), d, s)
          else mask_with disk d (disk.symlink null_device (codes "target") s)

      by_test :
          (b : Bool)
          → (masked b).0 ≡ none
          → ((disk.symlink null_device (codes "target") s).0 ≡ true)
            × ((masked b).2 ≡ (disk.symlink null_device (codes "target") s).1)
      by_test true h = absurd (cc)
      by_test false h = by_link (disk.symlink null_device (codes "target") s) h

  -- A Mask without an error does not make the unit file of the service a link to /dev/null: whether
  -- any name but `target` is a link stays as it was.
  is_link-mask :
      (name : Bytes) (d : Daemon) (s : S) (q : Bytes)
      → (mask disk name d s).0 ≡ none
      → q ≢ codes "target"
      → disk.is_link q (mask disk name d s).2 ≡ disk.is_link q s
  is_link-mask name d s q h other =
      ap (disk.is_link q) (mask-made name d s h).1
      ∙ ok.is_link-other null_device (codes "target") q s other

  -- Behind a Mask without an error, no service can be masked.
  mask-mask :
      (name name' : Bytes) (d d' : Daemon) (s : S)
      → (mask disk name d s).0 ≡ none
      → (mask disk name' d' (mask disk name d s).2).0 ≢ none
  mask-mask name name' d d' s h h' =
      let first = mask-made name d s h in
      let there =
        ap (disk.is_link (codes "target")) first.1
        ∙ ok.is_link-symlink null_device (codes "target") s first.0 in
      let again = mask-made name' d' (mask disk name d s).2 h' in
      let taken = ok.symlink-exists null_device (codes "target") (mask disk name d s).2 there in
      absurd (ground arith)

  -- An Unmask without an error leaves the service not masked, and its unit file is then no link to
  -- /dev/null.
  pub unmask-unmasked :
      (name : Bytes) (d : Daemon) (s : S)
      → (unmask disk name d s).0 ≡ none
      → ((unmask disk name d s).1.masked ≡ false)
        × ((disk.is_link (unit_file disk name) (unmask disk name d s).2
              && points_to_null disk
                  (disk.read_link (unit_file disk name) (unmask disk name d s).2))
            ≡ false)
  unfolding unmask
  unmask-unmasked name d s = by_test (is_null s) refl
    where
      is_null : S → Bool
      is_null t =
          disk.is_link (unit_file disk name) t
          && points_to_null disk (disk.read_link (unit_file disk name) t)

      removed : Bool × S
      removed = disk.remove (unit_file disk name) s

      outcome : Bool → Option FileFault × Daemon × S
      outcome b =
          if b then unmask_with disk name d removed else (none, record d { masked = false }, s)

      no_link : {a : Bool} (b : Bool) → a ≡ false → (a && b) ≡ false
      no_link b e = rw e refl

      by_test :
          (b : Bool)
          → is_null s ≡ b
          → (outcome b).0 ≡ none
          → ((outcome b).1.masked ≡ false) × (is_null (outcome b).2 ≡ false)
      by_test false e h = (refl, e)
      by_test true e h =
          let gone = reported-none _ removed h in
          (
            rw gone refl,
            no_link (points_to_null disk (disk.read_link (unit_file disk name) removed.1))
                (ok.is_link-remove (unit_file disk name) s gone),
          )
