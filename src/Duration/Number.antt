-- ===== src/Duration/Number.antt =====
-- systemd/daemons/unit.go, `leadingInt`, and the decimal number that digits stand for.
use docker_systemd.Base.{
  ℕ, ◌+◌, ◌-◌, ◌*◌, ◌/◌, ◌≤◌, ◌<◌, ◌≡◌, inl, inr, arith, true, false, ◌||◌, [], ◌∷◌, ◌++◌, Bytes,
  none, some, ltb, leb, if◌then◌else◌, All, Bool-cases,
}
use docker_systemd.Duration.{two_63, is_digit, leading_int, decimal}

abbrev pub IsDigit : ℕ → Type 0
IsDigit c = is_digit c ≡ true

-- No digit stands in front.
abbrev pub NoDigitFirst : Bytes → Type 0
NoDigitFirst [] = Unit
NoDigitFirst (c ∷ s) = is_digit c ≡ false

pub decimal-ge : (x : ℕ) (ds : Bytes) → All IsDigit ds → x ≤ decimal x ds
unfolding decimal
decimal-ge x [] h = omega arith
decimal-ge x (c ∷ ds) h =
    let low : b'0' ≤ c = let e = h.0 in ground arith in
    omega (arith, decimal-ge (x * 10 + c - b'0') ds h.1)

-- From a number so far of at most 1<<63, and up to a byte that is no digit or the end, `leadingInt`
-- reads all the digits and gives their number, and reports an overflow exactly when
-- that number is above 1<<63, however many digits there are.
pub leading_int-decimal :
    (x : ℕ) (ds rest : Bytes)
    → x ≤ two_63
    → All IsDigit ds
    → NoDigitFirst rest
    → leading_int x (ds ++ rest)
      ≡ (if leb (decimal x ds) two_63 then some (decimal x ds, rest) else none)
unfolding leading_int decimal
leading_int-decimal x [] [] small h stop = ground arith
leading_int-decimal x [] (c ∷ rest) small h stop = ground arith
leading_int-decimal x (c ∷ ds) rest small h stop =
    let y = x * 10 + c - b'0' in
    let digit = h.0 in
    elim (Bool-cases (ltb (two_63 / 10) x || ltb two_63 y)) [
      | inl over ↦ let big : two_63 < y = ground arith in ground (arith, decimal-ge y ds h.1)
      | inr fits ↦
          let small' : y ≤ two_63 = ground arith in
          ground (arith, leading_int-decimal y ds rest small' h.1 stop)
    ]
