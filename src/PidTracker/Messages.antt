-- ===== src/PidTracker/Messages.antt =====
-- systemd/main.go, `pidtrack`: a message of a process that has forked (forkpreload/preload.c), as it
-- changes the relations. `strconv.Atoi` is a parameter; it gives no number for what is not one, and
-- the number -1 is `none`, as everywhere in the tracker.
pub mod Forks
use docker_systemd.Base.{ℕ, List, [], ◌∷◌, Bytes, Option, none, some, take}
use docker_systemd.Text.{split}
use docker_systemd.PidTracker.{Relations, add}

-- The parent, the child and the infant.
abbrev pub Report : Type 0
Report = Option ℕ × Option ℕ × Option ℕ

module _ (atoi : Bytes → Option (Option ℕ)) where
  abbrev pub with_parent : Option ℕ → Option ℕ → Option (Option ℕ) → Option Report
  with_parent child infant none = none
  with_parent child infant (some parent) = some (parent, child, infant)

  abbrev pub with_child : Bytes → Option ℕ → Option (Option ℕ) → Option Report
  with_child parent infant none = none
  with_child parent infant (some child) = with_parent child infant (atoi parent)

  abbrev pub with_infant : Bytes → Bytes → Option (Option ℕ) → Option Report
  with_infant parent child none = none
  with_infant parent child (some infant) = with_child parent infant (atoi child)

  -- The switch on the number of the fields; a malformed message is none.
  abbrev pub report_of : List Bytes → Option Report
  report_of (parent ∷ child ∷ []) = with_child parent none (atoi child)
  report_of (parent ∷ child ∷ infant ∷ []) = with_infant parent child (atoi infant)
  report_of _ = none

  abbrev pub add_report : Option Report → Relations → Relations
  add_report none rel = rel
  add_report (some (parent, child, infant)) rel = add parent child infant rel

  -- One `conn.Read` into the buffer of 65536 bytes, and what is done with it.
  unfoldable pub track_message : Bytes → Relations → Relations
  track_message message rel = add_report (report_of (split (take 65536 message) b':')) rel
