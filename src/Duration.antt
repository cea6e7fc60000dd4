-- ===== src/Duration.antt =====
-- systemd/daemons/unit.go: `parseSystemdDuration`, `leadingInt`, `leadingFraction`, `unitMap`.
-- Texts are bytes. The texts of errors (`quote`) are left out. The product of floats that scales a
-- fraction is a parameter, on the fraction's digits as a number, the unit and the count of digits.
pub mod Number
pub mod Total
pub mod Units
mod Tests
use docker_systemd.Base.{
  ℕ, zero, suc, ◌+◌, ◌-◌, ◌*◌, ◌/◌, ◌%◌, Bool, true, false, not, ◌&&◌, ◌||◌, List, [], ◌∷◌, Bytes,
  Option, none, some, length, ltb, leb, ◌==◌, if◌then◌else◌,
}
use docker_systemd.Text.{codes, equal, has_prefix, replace_from, replace_all}
use docker_systemd.Definition.{Duration, nanoseconds, negative}

-- 1<<63 and 1<<64
abbrev pub two_63 : ℕ
two_63 = 0x8000000000000000

abbrev pub two_64 : ℕ
two_64 = 0x10000000000000000

abbrev pub is_digit : ℕ → Bool
is_digit c = leb b'0' c && leb c b'9'

-- `leadingInt`, with the number so far: the number and the rest, or an overflow.
unfoldable pub leading_int : ℕ → Bytes → Option (ℕ × Bytes)
leading_int x [] = some (x, [])
leading_int x (c ∷ s) =
    let y = x * 10 + c - b'0' in
    let rest = leading_int y s in
    if not (is_digit c)
    then some (x, c ∷ s)
    else if ltb (two_63 / 10) x
    then none
    else if ltb two_63 y
    then none
    else rest

-- `leadingFraction`: the number, the count of its digits (`scale` is that power of ten), the rest.
unfoldable pub leading_fraction : Bool → ℕ → ℕ → Bytes → ℕ × ℕ × Bytes
leading_fraction overflow x digits [] = (x, digits, [])
leading_fraction overflow x digits (c ∷ s) =
    let y = x * 10 + c - b'0' in
    let skip = leading_fraction true x digits s in
    let rest = leading_fraction false y (digits + 1) s in
    if not (is_digit c)
    then (x, digits, c ∷ s)
    else if overflow || ltb ((two_63 - 1) / 10) x || ltb two_63 y
    then skip
    else rest

-- `(\\.[0-9]*)?` behind the digits: the digits behind the point, how many there are, whether any.
unfoldable pub fraction_part : Bytes → ℕ × ℕ × Bool × Bytes
fraction_part [] = (0, 0, false, [])
fraction_part (c ∷ s) =
    let (f, digits, rest) = leading_fraction false 0 0 s in
    if c == b'.' then (f, digits, not (length s == length rest), rest) else (0, 0, false, c ∷ s)

-- The unit is what stands in front of the next digit or point.
unfoldable pub take_unit : Bytes → Bytes × Bytes
take_unit [] = ([], [])
take_unit (c ∷ s) =
    let (u, rest) = take_unit s in if c == b'.' || is_digit c then ([], c ∷ s) else (c ∷ u, rest)

-- `unitMap`, in nanoseconds; the second and third `us` begin with U+00B5 and U+03BC in UTF-8.
abbrev unit_map : List (Bytes × ℕ)
unit_map =
    (codes "ns", 1)
    ∷ (codes "us", 1000)
    ∷ (0xC2 ∷ 0xB5 ∷ b's' ∷ [], 1000)
    ∷ (0xCE ∷ 0xBC ∷ b's' ∷ [], 1000)
    ∷ (codes "ms", 1000000)
    ∷ (codes "s", 1000000000)
    ∷ (codes "m", 60000000000)
    ∷ (codes "h", 3600000000000)
    ∷ (codes "d", 86400000000000)
    ∷ (codes "w", 604800000000000)
    ∷ (codes "M", 2630016000000000)
    ∷ (codes "y", 31557600000000000)
    ∷ []

abbrev pub find_unit : Bytes → List (Bytes × ℕ) → Option ℕ
find_unit u [] = none
find_unit u ((k, n) ∷ units) = if equal k u then some n else find_unit u units

unfoldable pub unit_of : Bytes → Option ℕ
unit_of u = find_unit u unit_map

pub data Parsed (A : Type 0) : Type 0 where
  parsed : A → Parsed A
  invalid missing_unit unknown_unit : Parsed A

infixl 5 ◌>>=◌
abbrev pub ◌>>=◌ : {A B : Type 0} → Parsed A → (A → Parsed B) → Parsed B
parsed a >>= f = f a
invalid >>= f = invalid
missing_unit >>= f = missing_unit
unknown_unit >>= f = unknown_unit

abbrev pub checked : {A : Type 0} → Bool → A → Parsed A
checked ok a = if ok then parsed a else invalid

-- `v` after its unit, with the fraction: every product and sum is one of `uint64`.
module _ (fraction : ℕ → ℕ → ℕ → ℕ) where
  unfoldable pub scaled : (v f digits unit : ℕ) → Parsed ℕ
  scaled v f digits unit =
      let w = v * unit % two_64 in
      let x = (w + fraction f unit digits) % two_64 in
      if ltb (two_63 / unit) v
      then invalid
      else if ltb 0 f
      then checked (leb x two_63) x
      else parsed w

  -- Behind the digits: the unit, its size, and the sum with what came before.
  unfoldable pub add_unit : (d v f digits : ℕ) → Bytes → Parsed (ℕ × Bytes)
  add_unit d v f digits s =
      let (u, rest) = take_unit s in
      elim u [
        | [] ↦ missing_unit
        | c ∷ cs ↦ elim (unit_of (c ∷ cs)) [
          | none ↦ unknown_unit
          | some unit ↦ scaled v f digits unit >>= λ x.
              let sum = (d + x) % two_64 in checked (leb sum two_63) (sum, rest)
        ]
      ]

  -- One round of the loop, on a text that is not empty.
  unfoldable pub round : ℕ → Bytes → Parsed (ℕ × Bytes)
  round d [] = invalid
  round d (c ∷ s) =
      let n = length (c ∷ s) in
      let read = leading_int 0 (c ∷ s) in
      let ended : Parsed (ℕ × Bytes) = elim read [
        | none ↦ invalid
        | some (v, s1) ↦
            let (f, digits, post, s2) = fraction_part s1 in
            if not (n == length s1) || post then add_unit d v f digits s2 else invalid
      ] in
      if c == b'.' || is_digit c then ended else invalid

  -- The loop; each round takes at least one byte, so the length of the text is fuel enough.
  unfoldable pub rounds : ℕ → ℕ → Bytes → Option (Parsed ℕ)
  rounds fuel d [] = some (parsed d)
  rounds zero d (c ∷ s) = none
  rounds (suc fuel) d (c ∷ s) = elim (round d (c ∷ s)) [
    | parsed (d', rest) ↦ rounds fuel d' rest
    | invalid ↦ some invalid
    | missing_unit ↦ some missing_unit
    | unknown_unit ↦ some unknown_unit
  ]

-- The replacements, in the order in which they are made.
abbrev pub replaces : List (Bytes × Bytes)
replaces =
    (0xCE ∷ 0xBC ∷ b's' ∷ [], codes "us")
    ∷ (codes "usec", codes "us")
    ∷ (codes "msec", codes "ms")
    ∷ (codes "seconds", codes "s")
    ∷ (codes "second", codes "s")
    ∷ (codes "sec", codes "s")
    ∷ (codes "minutes", codes "m")
    ∷ (codes "minute", codes "m")
    ∷ (codes "min", codes "m")
    ∷ (codes "hours", codes "h")
    ∷ (codes "hour", codes "h")
    ∷ (codes "hr", codes "h")
    ∷ (codes "days", codes "d")
    ∷ (codes "day", codes "d")
    ∷ (codes "weeks", codes "w")
    ∷ (codes "week", codes "w")
    ∷ (codes "months", codes "M")
    ∷ (codes "month", codes "M")
    ∷ (codes "years", codes "y")
    ∷ (codes "year", codes "y")
    ∷ []

abbrev pub replace_each : List (Bytes × Bytes) → Bytes → Bytes
replace_each [] s = s
replace_each ((old, new) ∷ pairs) s = replace_each pairs (replace_all s old new)

-- Without its spaces, and with the short name of every unit.
unfoldable pub short_units : Bytes → Bytes
short_units s = replace_each replaces (replace_all s (b' ' ∷ []) [])

-- Whether the text is digits only.
unfoldable pub all_digits : Bytes → Bool
all_digits [] = true
all_digits (c ∷ s) = is_digit c && all_digits s

-- The number that digits stand for.
unfoldable pub decimal : ℕ → Bytes → ℕ
decimal x [] = x
decimal x (c ∷ s) = decimal (x * 10 + c - b'0') s

-- `strconv.Atoi` of digits, with its error dropped: 0 for no digit, the largest `int` past it.
abbrev pub atoi : Bytes → ℕ
atoi s = let n = decimal 0 s in if leb two_63 n then two_63 - 1 else n

-- A product of `int64`, which wraps round.
unfoldable pub signed : ℕ → Duration
signed n = let m = n % two_64 in if ltb m two_63 then nanoseconds m else negative (two_64 - m)

-- `-time.Duration(d)` for a `d` of at most 1<<63.
abbrev pub negated : ℕ → Duration
negated d = if d == 0 then nanoseconds 0 else negative d

-- The sign, which is `-` or `+` or none: whether it is `-`, and the rest.
unfoldable pub sign : Bytes → Bool × Bytes
sign [] = (false, [])
sign (c ∷ s) = if c == b'-' || c == b'+' then (c == b'-', s) else (false, c ∷ s)

abbrev pub finish : Bool → ℕ → Parsed Duration
finish neg d =
    if neg
    then parsed (negated d)
    else if ltb (two_63 - 1) d
    then invalid
    else parsed (nanoseconds d)

module _ (fraction : ℕ → ℕ → ℕ → ℕ) where
  -- A duration with units, behind its sign. Without fuel the loop would not have ended.
  unfoldable pub parse_units : Bool → Bytes → Option (Parsed Duration)
  parse_units neg [] = some invalid
  parse_units neg (c ∷ s) =
      let total = rounds fraction (length (c ∷ s)) 0 (c ∷ s) in
      let summed : Option (Parsed Duration) = elim total [
        | none ↦ none
        | some d ↦ some (d >>= finish neg)
      ] in
      if equal (c ∷ s) (codes "0") then some (parsed (nanoseconds 0)) else summed

  -- `parseSystemdDuration`
  unfoldable pub parse_systemd_duration : Bytes → Option (Parsed Duration)
  parse_systemd_duration s =
      let (neg, rest) = sign (short_units s) in
      let units = parse_units neg rest in
      if all_digits s then some (parsed (signed (1000000000 * atoi s))) else units

-- All that a run computes with.
unfoldable pub program : Unit {0}
unfolding equal has_prefix replace_from leading_int leading_fraction fraction_part take_unit unit_of
    scaled add_unit round rounds short_units all_digits decimal signed sign parse_units
    parse_systemd_duration
program = tt
