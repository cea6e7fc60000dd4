-- ===== src/Daemon/Enable/Files.antt =====
-- What systemd/daemons/daemon.go relies on of the files.
use docker_systemd.Base.{◌≡◌, ◌≢◌, true, false, Bytes}
use docker_systemd.Daemon.Enable.{Disk}

module _ {S : Type 0} (disk : Disk S) where
  -- A file that has been written is there, and one that has been removed is not. A link is made only
  -- where nothing is, and then it is there with its target; it makes no link of another name.
  pub record IsDisk : Type 0 where
    pub stat-write :
        (p content : Bytes) (s : S)
        → (disk.write_file p content s).0 ≡ true
        → disk.stat p (disk.write_file p content s).1 ≡ true
    pub stat-remove :
        (p : Bytes) (s : S) → (disk.remove p s).0 ≡ true → disk.stat p (disk.remove p s).1 ≡ false
    pub is_link-remove :
        (p : Bytes) (s : S)
        → (disk.remove p s).0 ≡ true
        → disk.is_link p (disk.remove p s).1 ≡ false
    pub is_link-symlink :
        (to name : Bytes) (s : S)
        → (disk.symlink to name s).0 ≡ true
        → disk.is_link name (disk.symlink to name s).1 ≡ true
    pub is_link-other :
        (to name q : Bytes) (s : S)
        → q ≢ name
        → disk.is_link q (disk.symlink to name s).1 ≡ disk.is_link q s
    pub symlink-exists :
        (to name : Bytes) (s : S) → disk.is_link name s ≡ true → (disk.symlink to name s).0 ≡ false
