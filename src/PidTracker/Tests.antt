-- ===== src/PidTracker/Tests.antt =====
-- Runs of the process tracker, and the theorems at concrete processes.
use docker_systemd.Base.{
  ℕ, ◌≡◌, ◌↔◌, refl, arith, Bool, false, ◌||◌, List, [], ◌∷◌, none, some, ◌==◌, if◌then◌else◌,
}
use docker_systemd.PidTracker.{
  Relations, children_of, append_child, add, add_all, collect, scan, adopted, find,
}
use docker_systemd.PidTracker.Members.{Has, IsDistinct, IsHas}
use docker_systemd.PidTracker.Gathers.{Descendant, IsRanked}
use docker_systemd.Base.{◌+◌, ◌-◌, ◌*◌, ◌++◌, ◌⊎◌, Bytes, Option}
use docker_systemd.Text.{codes, split}
use docker_systemd.PidTracker.Gathers.{Child}
use docker_systemd.PidTracker.Added.{Reported}
use docker_systemd.PidTracker.Messages.{track_message}
use docker_systemd.PidTracker.Messages.Forks.{track_message-Child}
use docker_systemd.PidTracker.Descendants.{find-Descendants}

abbrev has_int : List ℕ → ℕ → Bool
has_int [] a = false
has_int (x ∷ xs) a = a == x || has_int xs a

has_int-IsHas : IsHas has_int
has_int-IsHas [] a = (λ e. cc, λ e. absurd e)
has_int-IsHas (x ∷ xs) a = let ih = has_int-IsHas xs a in ((λ e. ground arith), λ h. ground arith)

-- 10 forked 20, which forked 30; 20 has ended, so that 30 belongs to 1.
abbrev forked : Relations
forked = add (some 1) (some 30) none (add (some 10) (some 20) (some 30) [])

abbrev rank : ℕ → ℕ
rank pid = if pid == 30 then 0 else if pid == 20 then 1 else 2

find_10 : find has_int 3 forked 10 ≡ some (30 ∷ [])
unfolding add append_child find scan collect add_all adopted
find_10 = refl

forked-IsRanked : IsRanked rank forked
unfolding add append_child
forked-IsRanked pid c h = ground arith

find-Descendants_example :
    (list : List ℕ) × (find has_int 3 forked 10 ≡ some list)
    × ((d : ℕ) → Has d list ↔ (Descendant forked 10 d × Has d (children_of 1 forked)))
    × IsDistinct list
find-Descendants_example =
    find-Descendants has_int forked rank 3 10 has_int-IsHas forked-IsRanked (omega arith)

abbrev digits : ℕ → Bytes → ℕ
digits x [] = x
digits x (c ∷ s) = digits (x * 10 + c - 48) s

-- `strconv.Atoi` on digits and on -1.
abbrev atoi : Bytes → Option (Option ℕ)
atoi [] = none
atoi (c ∷ s) = if c == b'-' then some none else some (some (digits 0 (c ∷ s)))

track_message-Child_example :
    Child (track_message atoi (codes "10" ++ (b':' ∷ (codes "20" ++ (b':' ∷ codes "30")))) []) 20 30
    ↔ (Child [] 20 30 ⊎ (Reported (some 10) (some 20) 20 30 ⊎ Reported (some 20) (some 30) 20 30))
track_message-Child_example =
    track_message-Child atoi (codes "10") (codes "20") (codes "30") (some 10) (some 20) (some 30) []
      20 30 (refl, (refl, tt)) (refl, (refl, tt)) (refl, (refl, tt)) (omega arith) refl refl refl

-- A message of one field changes nothing.
track_malformed : track_message atoi (codes "10") forked ≡ forked
unfolding track_message split
track_malformed = refl
