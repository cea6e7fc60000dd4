-- ===== src/Duration/Units.antt =====
-- systemd/daemons/unit.go, `parseSystemdDuration`: numbers with a unit and without.
use docker_systemd.Base.{
  ℕ, zero, suc, ◌+◌, ◌-◌, ◌*◌, ◌/◌, ◌%◌, ◌≤◌, ◌<◌, ◌≡◌, inl, inr, refl, ap, ◌∙◌, arith, true, false,
  List, [], ◌∷◌, ◌++◌, Bytes, some, length, ltb, leb, ◌==◌, All, Bool-cases, length-append,
}
use docker_systemd.Text.{codes, equal, has_prefix, replace_from, replace_all}
use docker_systemd.Text.Laws.{equal_iff}
use docker_systemd.Definition.{nanoseconds, negative}
use docker_systemd.Duration.{
  two_63, two_64, is_digit, leading_int, fraction_part, take_unit, unit_of, parsed, scaled,
  add_unit, round, rounds, all_digits, decimal, sign, replaces, replace_each, short_units,
  parse_units, parse_systemd_duration, signed,
}
use docker_systemd.Duration.Number.{IsDigit, leading_int-decimal}

-- A text to replace begins with no digit.
abbrev IsWord : Bytes × Bytes → Type 0
IsWord ([], new) = ⊥
IsWord (o ∷ os, new) = is_digit o ≡ false

replace_all-digits :
    (ds t old new : Bytes)
    → IsWord (old, new)
    → All IsDigit ds
    → replace_all (ds ++ t) old new ≡ ds ++ replace_all t old new
unfolding replace_from has_prefix
replace_all-digits [] t old new w h = refl
replace_all-digits (c ∷ ds) t [] new w h = absurd w
replace_all-digits (c ∷ ds) t (o ∷ os) new w h =
    let digit = h.0 in
    let differs : (c == o) ≡ false = ground arith in
    rw (differs, replace_from, has_prefix) (ap (◌∷◌ c) (replace_all-digits ds t (o ∷ os) new w h.1))

replace_each-digits :
    (pairs : List (Bytes × Bytes)) (ds t : Bytes)
    → All IsWord pairs
    → All IsDigit ds
    → replace_each pairs (ds ++ t) ≡ ds ++ replace_each pairs t
replace_each-digits [] ds t w h = refl
replace_each-digits ((old, new) ∷ pairs) ds t w h =
    ap (replace_each pairs) (replace_all-digits ds t old new w.0 h)
    ∙ replace_each-digits pairs ds (replace_all t old new) w.1 h

short_units-digits : (ds t : Bytes) → All IsDigit ds → short_units (ds ++ t) ≡ ds ++ short_units t
unfolding short_units
short_units-digits ds t h =
    ap (replace_each replaces) (replace_all-digits ds t (b' ' ∷ []) [] refl h)
    ∙ replace_each-digits replaces ds (replace_all t (b' ' ∷ []) []) words h
  where
    words : All IsWord replaces
    words = ground arith

-- A text of one unit: neither a digit nor a point stands in it.
abbrev pub IsUnitByte : ℕ → Type 0
IsUnitByte c = (is_digit c ≡ false) × ((c == b'.') ≡ false)

take_unit-All : (u : Bytes) → All IsUnitByte u → take_unit u ≡ (u, [])
unfolding take_unit
take_unit-All [] h = refl
take_unit-All (c ∷ u) h = ground (arith, take_unit-All u h.1)

fraction_part_none : (u : Bytes) → All IsUnitByte u → fraction_part u ≡ (0, 0, false, u)
unfolding fraction_part
fraction_part_none [] h = refl
fraction_part_none (c ∷ u) h = ground arith

module _ (fraction : ℕ → ℕ → ℕ → ℕ) (v k : ℕ) (small : v * k < two_63) (pos : 0 < k) where
  scaled_exact : scaled fraction v 0 0 k ≡ parsed (v * k)
  unfolding scaled
  scaled_exact =
      let fits : v ≤ two_63 / k = grind arith in
      let same : v * k % two_64 ≡ v * k = omega arith in ground arith

  add_unit_exact :
      (c : ℕ) (u : Bytes)
      → All IsUnitByte (c ∷ u)
      → unit_of (c ∷ u) ≡ some k
      → add_unit fraction 0 v 0 0 (c ∷ u) ≡ parsed (v * k, [])
  unfolding add_unit
  add_unit_exact c u h e =
      let same : (0 + v * k) % two_64 ≡ v * k = omega arith in
      let rest : (take_unit (c ∷ u)).1 ≡ [] =
        ap (λ (p : Bytes × Bytes). p.1) (take_unit-All (c ∷ u) h) in
      rw (take_unit-All (c ∷ u) h, add_unit) (rw (e, scaled_exact) (ground arith))

-- The loop on a number with a unit takes one round.
module _ (fraction : ℕ → ℕ → ℕ → ℕ) (d : ℕ) (ds : Bytes) (k c : ℕ) (u : Bytes)
    (digits : All IsDigit (d ∷ ds)) (small : decimal 0 (d ∷ ds) * k < two_63) (pos : 0 < k)
    (unit : All IsUnitByte (c ∷ u)) (known : unit_of (c ∷ u) ≡ some k) where
  abbrev number : ℕ
  number = decimal 0 (d ∷ ds)

  number_small : number ≤ two_63
  number_small = grind arith

  read : leading_int 0 (d ∷ (ds ++ (c ∷ u))) ≡ some (number, c ∷ u)
  read =
      leading_int-decimal 0 (d ∷ ds) (c ∷ u) (omega arith) digits unit.0.0
      ∙ ground (arith, number_small)

  round_exact : round fraction 0 (d ∷ (ds ++ (c ∷ u))) ≡ parsed (number * k, [])
  unfolding round
  round_exact =
      let size = length-append ds (c ∷ u) in
      let digit = digits.0 in
      ground (
        arith,
        read,
        fraction_part_none (c ∷ u) unit,
        add_unit_exact fraction number k small pos c u unit known,
      )

  rounds_exact :
      rounds fraction (length (d ∷ (ds ++ (c ∷ u)))) 0 (d ∷ (ds ++ (c ∷ u)))
      ≡ some (parsed (number * k))
  unfolding rounds
  rounds_exact = rw (round_exact, rounds) (all_read (length (ds ++ (c ∷ u))) (number * k))
    where
      all_read : (fuel x : ℕ) → rounds fraction fuel x [] ≡ some (parsed x)
      all_read zero x = refl
      all_read (suc fuel) x = refl

  not_zero : equal (d ∷ (ds ++ (c ∷ u))) (codes "0") ≡ false
  not_zero = elim (Bool-cases (equal (d ∷ (ds ++ (c ∷ u))) (codes "0"))) [
    | inr other ↦ other
    | inl same ↦
        let e = ap length ((equal_iff (d ∷ (ds ++ (c ∷ u))) (codes "0")).0 same) in
        absurd (omega (arith, e, length-append ds (c ∷ u)))
  ]

  parse_units_exact :
      parse_units fraction false (d ∷ (ds ++ (c ∷ u))) ≡ some (parsed (nanoseconds (number * k)))
  unfolding parse_units
  parse_units_exact =
      let fits : ltb (two_63 - 1) (number * k) ≡ false = ground arith in
      rw (not_zero, rounds_exact) (rw fits)

-- Text behind digits, which does not begin with a digit.
all_digits-text :
    (ds : Bytes) (a : ℕ) (t : Bytes) → is_digit a ≡ false → all_digits (ds ++ (a ∷ t)) ≡ false
unfolding all_digits
all_digits-text [] a t h = ground arith
all_digits-text (d ∷ ds) a t h = ground (arith, all_digits-text ds a t h)

sign_digit : (d : ℕ) (s : Bytes) → is_digit d ≡ true → sign (d ∷ s) ≡ (false, d ∷ s)
unfolding sign
sign_digit d s h = ground arith

-- Digits followed by a name of a unit, in any of its spellings and with any spaces, are that many
-- units, in nanoseconds, where the product is below 1<<63. `short_units` gives the unit's short
-- name, which holds no digit and no point.
pub parse_systemd_duration-units :
    (fraction : ℕ → ℕ → ℕ → ℕ) (d : ℕ) (ds : Bytes) (a : ℕ) (t : Bytes) (c : ℕ) (u : Bytes) (k : ℕ)
    → All IsDigit (d ∷ ds)
    → is_digit a ≡ false
    → short_units (a ∷ t) ≡ c ∷ u
    → All IsUnitByte (c ∷ u)
    → unit_of (c ∷ u) ≡ some k
    → 0 < k
    → decimal 0 (d ∷ ds) * k < two_63
    → parse_systemd_duration fraction (d ∷ (ds ++ (a ∷ t)))
      ≡ some (parsed (nanoseconds (decimal 0 (d ∷ ds) * k)))
unfolding parse_systemd_duration
parse_systemd_duration-units fraction d ds a t c u k digits text short unit known pos small =
    rw (all_digits-text (d ∷ ds) a t text) (
      rw (short_units-digits (d ∷ ds) (a ∷ t) digits) (
        rw short (
          rw (sign_digit d (ds ++ (c ∷ u)) digits.0)
            (parse_units_exact fraction d ds k c u digits small pos unit known))))

-- Digits alone are seconds, and `int64` wraps round: from 9223372037 seconds up to 18446744073 the
-- duration is below zero.
parse_systemd_duration_wraps :
    (fraction : ℕ → ℕ → ℕ → ℕ) (ds : Bytes)
    → all_digits ds ≡ true
    → 9223372037 ≤ decimal 0 ds
    → decimal 0 ds ≤ 18446744073
    → parse_systemd_duration fraction ds
      ≡ some (parsed (negative (two_64 - 1000000000 * decimal 0 ds)))
unfolding parse_systemd_duration signed
parse_systemd_duration_wraps fraction ds h low high =
    let n = decimal 0 ds in
    let no_error : leb two_63 n ≡ false = ground arith in
    let m : 1000000000 * n % two_64 ≡ 1000000000 * n = omega arith in
    let over : ltb (1000000000 * n) two_63 ≡ false = ground arith in rw (h, no_error, m, over)
