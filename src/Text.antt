-- ===== src/Text.antt =====
-- The functions of Go's package `strings` that the program calls, over bytes. Letters are those
-- of ASCII: `ToUpper` and `ToLower` keep the other bytes.
pub mod Laws
use Prim.Native.Char.{code}
use Prim.Native.String.{String}
use docker_systemd.Base.{
  ℕ, zero, suc, ◌+◌, ◌-◌, Bool, true, false, ◌&&◌, ◌||◌, List, [], ◌∷◌, ◌++◌, map, Bytes, length,
  take, drop, leb, ◌==◌, if◌then◌else◌,
}

-- The bytes of a literal; every literal of the development is ASCII.
abbrev pub codes : String → Bytes
codes String.[] = []
codes (String.◌∷◌ c s) = code c ∷ codes s

unfoldable pub equal : Bytes → Bytes → Bool
equal [] [] = true
equal (c ∷ text) (d ∷ other) = c == d && equal text other
equal _ _ = false

unfoldable pub has_prefix : Bytes → Bytes → Bool
has_prefix s [] = true
has_prefix [] (p ∷ ps) = false
has_prefix (x ∷ s) (p ∷ ps) = x == p && has_prefix s ps

unfoldable pub has_suffix : Bytes → Bytes → Bool
unfolding equal
has_suffix s suffix =
    leb (length suffix) (length s) && equal (drop (length s - length suffix) s) suffix

unfoldable pub trim_prefix : Bytes → Bytes → Bytes
unfolding has_prefix
trim_prefix s p = if has_prefix s p then drop (length p) s else s

unfoldable pub trim_suffix : Bytes → Bytes → Bytes
unfolding has_suffix
trim_suffix s p = if has_suffix s p then take (length s - length p) s else s

-- Whether a byte is in a cut set.
unfoldable pub is_in : Bytes → ℕ → Bool
is_in [] c = false
is_in (x ∷ set) c = x == c || is_in set c

unfoldable pub trim_left : Bytes → Bytes → Bytes
unfolding is_in
trim_left [] set = []
trim_left (c ∷ s) set = let rest = trim_left s set in if is_in set c then rest else c ∷ s

-- The bytes up to the last one that is not in the cut set.
unfoldable pub trim_right : Bytes → Bytes → Bytes
unfolding is_in
trim_right [] set = []
trim_right (c ∷ s) set = elim (trim_right s set) [
  | [] ↦ if is_in set c then [] else c ∷ []
  | x ∷ r ↦ c ∷ x ∷ r
]

unfoldable pub trim : Bytes → Bytes → Bytes
unfolding trim_left trim_right
trim s set = trim_right (trim_left s set) set

-- A byte in front of the first piece.
abbrev pub onto_first : ℕ → List Bytes → List Bytes
onto_first c [] = (c ∷ []) ∷ []
onto_first c (piece ∷ pieces) = (c ∷ piece) ∷ pieces

-- `Split` by one byte.
unfoldable pub split : Bytes → ℕ → List Bytes
split [] sep = [] ∷ []
split (c ∷ s) sep = let rest = split s sep in if c == sep then [] ∷ rest else onto_first c rest

-- `Join` by one byte.
unfoldable pub join : List Bytes → ℕ → Bytes
join [] sep = []
join (p ∷ []) sep = p
join (p ∷ q ∷ ps) sep = p ++ (sep ∷ join (q ∷ ps) sep)

abbrev pub upper : ℕ → ℕ
upper c = if leb b'a' c && leb c b'z' then c - 32 else c

abbrev pub lower : ℕ → ℕ
lower c = if leb b'A' c && leb c b'Z' then c + 32 else c

unfoldable pub to_upper : Bytes → Bytes
to_upper s = map upper s

unfoldable pub to_lower : Bytes → Bytes
to_lower s = map lower s

unfoldable pub contains : Bytes → Bytes → Bool
unfolding has_prefix
contains [] p = has_prefix [] p
contains (c ∷ s) p = has_prefix (c ∷ s) p || contains s p

-- `ReplaceAll` for a text that is not empty: the count is of bytes still to skip, which belong to
-- the occurrence that was replaced.
unfoldable pub replace_from : ℕ → Bytes → Bytes → Bytes → Bytes
unfolding has_prefix
replace_from skip [] old new = []
replace_from (suc skip) (c ∷ s) old new = replace_from skip s old new
replace_from zero (c ∷ s) old new =
    let found = new ++ replace_from (length old - 1) s old new in
    let kept = c ∷ replace_from zero s old new in if has_prefix (c ∷ s) old then found else kept

abbrev pub replace_all : Bytes → Bytes → Bytes → Bytes
replace_all s old new = replace_from zero s old new
