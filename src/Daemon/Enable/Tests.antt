-- ===== src/Daemon/Enable/Tests.antt =====
-- A small file system, and the theorems on enabling and masking at it.
use docker_systemd.Base.{
  ◌≡◌, refl, inl, inr, arith, Bool, true, false, ◌&&◌, Bool-cases, List, [], ◌∷◌, ◌++◌, Bytes,
  Option, none, some, if◌then◌else◌,
}
use docker_systemd.Text.{codes, equal}
use docker_systemd.Text.Laws.{equal_iff, equal_self}
use docker_systemd.Definition.{empty}
use docker_systemd.Daemon.State.{Daemon, stopped}
use docker_systemd.Daemon.Enable.{
  Disk, wanted_file, unit_file, points_to_null, is_enabled, enable, unmask,
}
use docker_systemd.Daemon.Enable.Files.{IsDisk}
use docker_systemd.Daemon.Enable.Answers.{is_enabled-enable, unmask-unmasked}

-- The paths, each with what it is: `none` for a file, or the target of a link.
abbrev Paths : Type 0
Paths = List (Bytes × Option Bytes)

abbrev what : Bytes → Paths → Option (Option Bytes)
what p [] = none
what p ((q, kind) ∷ s) = if equal q p then some kind else what p s

abbrev without : Bytes → Paths → Paths
without p [] = []
without p ((q, kind) ∷ s) = let rest = without p s in if equal q p then rest else (q, kind) ∷ rest

abbrev is_file : Option (Option Bytes) → Bool
is_file (some none) = true
is_file _ = false

abbrev link_of : Option (Option Bytes) → Option Bytes
link_of (some t) = t
link_of none = none

abbrev has : {A : Type 0} → Option A → Bool
has none = false
has (some _) = true

abbrev put_new : Bytes → Option Bytes → Paths → Bool × Paths
put_new p kind s = if has (what p s) then (false, s) else (true, (p, kind) ∷ s)

abbrev written : Bytes → Paths → Bool × Paths
written p s = if is_file (what p s) then (true, s) else put_new p none s

abbrev small : Disk Paths
small = record {
  join = λ a b. a ++ (codes "/" ++ b);
  split = λ p. ([], p);
  stat = λ p s. is_file (what p s);
  is_link = λ p s. has (link_of (what p s));
  read_link = λ p s. link_of (what p s);
  mkdir_all = λ p s. s;
  write_file = λ p content s. written p s;
  remove = λ p s. (true, without p s);
  remove_all = without;
  symlink = λ to name s. put_new name (some to) s;
  link = λ old name s. put_new name none s;
}

what-without : (p : Bytes) (s : Paths) → what p (without p s) ≡ none
what-without p [] = refl
what-without p ((q, kind) ∷ s) = elim (Bool-cases (equal q p)) [
  | inl same ↦ rw same (what-without p s)
  | inr other ↦ rw (other, other) (what-without p s)
]

small-IsDisk : IsDisk small
small-IsDisk = record {
  stat-write = λ p content s h. ground (arith, equal_self p);
  stat-remove = λ p s h. rw (what-without p s) refl;
  is_link-remove = λ p s h. rw (what-without p s) refl;
  is_link-symlink = λ to name s h. ground (arith, equal_self name);
  is_link-other = λ to name q s other. ground (arith, equal_iff name q);
  symlink-exists = λ to name s h. ground arith;
}

abbrev web : Daemon
web = record {
  state = stopped;
  state_error = none;
  def = some empty;
  old_def = none;
  paths = codes "/lib/systemd/system/web.service" ∷ [];
  masked = false;
  is_manual = false;
  cmds = [];
  pids = [];
  held = false;
}

abbrev w : Bytes
w = codes "w"

is_enabled-enable_example : is_enabled small w web (enable small w web []).1 ≡ true
unfolding enable equal
is_enabled-enable_example = is_enabled-enable small small-IsDisk w web [] refl

abbrev enabled : Paths
enabled = (wanted_file small w, none) ∷ []

abbrev masked_web : Daemon
masked_web = record web { masked = true }

abbrev masked_paths : Paths
masked_paths = (unit_file small w, some (codes "/dev/null")) ∷ []

unmask-unmasked_example :
    ((unmask small w masked_web masked_paths).1.masked ≡ false)
    × ((small.is_link (unit_file small w) (unmask small w masked_web masked_paths).2
          && points_to_null small
              (small.read_link (unit_file small w) (unmask small w masked_web masked_paths).2))
        ≡ false)
unfolding unmask equal
unmask-unmasked_example = unmask-unmasked small small-IsDisk w masked_web masked_paths refl
