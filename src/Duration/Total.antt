-- ===== src/Duration/Total.antt =====
-- systemd/daemons/unit.go, `parseSystemdDuration`: the length of what each round leaves, and the range
-- of its sums.
use docker_systemd.Base.{
  ℕ, zero, suc, ◌+◌, ◌-◌, ◌*◌, ◌%◌, ◌≤◌, ◌<◌, ◌≡◌, inl, inr, refl, arith, Bool, true, false, [],
  ◌∷◌, Bytes, Option, some, length, ltb, ◌==◌, if◌then◌else◌, Bool-cases, Option-cases,
}
use docker_systemd.Text.{codes, equal}
use docker_systemd.Definition.{Duration, nanoseconds, negative}
use docker_systemd.Duration.{
  two_63, two_64, leading_int, leading_fraction, take_unit, Parsed, parsed, invalid, missing_unit,
  unknown_unit, add_unit, fraction_part, round, rounds, signed, atoi, sign, short_units,
  parse_units, parse_systemd_duration, finish, ◌>>=◌,
}

length-leading_int :
    (x : ℕ) (s : Bytes) (v : ℕ) (r : Bytes) → leading_int x s ≡ some (v, r) → length r ≤ length s
unfolding leading_int
length-leading_int x [] v r e = ground arith
length-leading_int x (c ∷ s) v r e = ground (arith, length-leading_int (x * 10 + c - b'0') s v r)

length-leading_fraction :
    (o : Bool) (x digits : ℕ) (s : Bytes) → length (leading_fraction o x digits s).2 ≤ length s
unfolding leading_fraction
length-leading_fraction o x digits [] = omega arith
length-leading_fraction o x digits (c ∷ s) = ground (
  arith,
  length-leading_fraction true x digits s,
  length-leading_fraction false (x * 10 + c - b'0') (digits + 1) s,
)

length-fraction_part : (s : Bytes) → length (fraction_part s).3 ≤ length s
unfolding fraction_part
length-fraction_part [] = omega arith
length-fraction_part (c ∷ s) = ground (arith, length-leading_fraction false 0 0 s)

length-take_unit : (s : Bytes) → length (take_unit s).0 + length (take_unit s).1 ≡ length s
unfolding take_unit
length-take_unit [] = refl
length-take_unit (c ∷ s) = ground (arith, length-take_unit s)

-- The sums stay within 1<<63.
abbrev InBound : Parsed ℕ → Type 0
InBound (parsed d) = d ≤ two_63
InBound _ = Unit

module _ (fraction : ℕ → ℕ → ℕ → ℕ) where
  length-add_unit :
      (d v f digits : ℕ) (s : Bytes) (d' : ℕ) (r : Bytes)
      → add_unit fraction d v f digits s ≡ parsed (d', r)
      → (length r < length s) × (d' ≤ two_63)
  unfolding add_unit
  length-add_unit d v f digits s d' r e = ground (arith, length-take_unit s)

  length-round :
      (d : ℕ) (s : Bytes) (d' : ℕ) (r : Bytes)
      → round fraction d s ≡ parsed (d', r)
      → (length r < length s) × (d' ≤ two_63)
  unfolding round
  length-round d [] d' r e = cc
  length-round d (c ∷ s) d' r e = elim (Option-cases (leading_int 0 (c ∷ s))) [
    | inl none' ↦ ground arith
    | inr ((v, s1), read) ↦
        let (f, digits, post, s2) = fraction_part s1 in
        ground (
          arith,
          length-leading_int 0 (c ∷ s) v s1 read,
          length-fraction_part s1,
          length-add_unit d v f digits s2 d' r,
        )
  ]

  rounds_total :
      (fuel d : ℕ) (s : Bytes)
      → length s ≤ fuel
      → d ≤ two_63
      → (p : Parsed ℕ) × (rounds fraction fuel d s ≡ some p) × InBound p
  unfolding rounds
  rounds_total fuel d [] h b = (parsed d, refl, b)
  rounds_total zero d (c ∷ s) h b = elim h [ ]
  rounds_total (suc fuel) d (c ∷ s) h b =
      go (round fraction d (c ∷ s)) refl
        (λ d' rest shorter bound. rounds_total fuel d' rest shorter bound)
    where
      go :
          (r : Parsed (ℕ × Bytes))
          → round fraction d (c ∷ s) ≡ r
          → ((d' : ℕ) (rest : Bytes)
              → length rest ≤ fuel
              → d' ≤ two_63
              → (p : Parsed ℕ) × (rounds fraction fuel d' rest ≡ some p) × InBound p)
          → (p : Parsed ℕ) × (rounds fraction (suc fuel) d (c ∷ s) ≡ some p) × InBound p
      go (parsed (d', rest)) e ih =
          let (shorter, bound) = length-round d (c ∷ s) d' rest e in
          let (p, ends, ok) = ih d' rest (omega arith) bound in (p, rw (e, rounds) ends, ok)
      go invalid e ih = (invalid, rw (e, rounds), tt)
      go missing_unit e ih = (missing_unit, rw (e, rounds), tt)
      go unknown_unit e ih = (unknown_unit, rw (e, rounds), tt)

-- A duration fits a `time.Duration`.
abbrev pub InRange : Parsed Duration → Type 0
InRange (parsed (nanoseconds n)) = n < two_63
InRange (parsed (negative n)) = n ≤ two_63
InRange _ = Unit

signed-InRange : (n : ℕ) → InRange (parsed (signed n))
unfolding signed
signed-InRange n = elim (Bool-cases (ltb (n % two_64) two_63)) [
  | inl fits ↦ rw fits (ground arith)
  | inr over ↦ rw over (ground arith)
]

finish-InRange : (neg : Bool) (d : ℕ) → d ≤ two_63 → InRange (finish neg d)
finish-InRange true d h = elim (Bool-cases (d == 0)) [
  | inl zero' ↦ rw zero' (omega arith)
  | inr other ↦ rw other h
]
finish-InRange false d h = elim (Bool-cases (ltb (two_63 - 1) d)) [
  | inl over ↦ rw over tt
  | inr fits ↦ rw fits (ground arith)
]

abbrev Gives : Option (Parsed Duration) → Type 0
Gives o = (p : Parsed Duration) × (o ≡ some p) × InRange p

Gives-if :
    (b : Bool) (x y : Option (Parsed Duration)) → Gives x → Gives y → Gives (if b then x else y)
Gives-if true x y gx gy = gx
Gives-if false x y gx gy = gy

finish_total : (neg : Bool) (p : Parsed ℕ) → InBound p → InRange (p >>= finish neg)
finish_total neg (parsed d) h = finish-InRange neg d h
finish_total neg invalid h = tt
finish_total neg missing_unit h = tt
finish_total neg unknown_unit h = tt

module _ (fraction : ℕ → ℕ → ℕ → ℕ) where
  parse_units_total : (neg : Bool) (s : Bytes) → Gives (parse_units fraction neg s)
  unfolding parse_units
  parse_units_total neg [] = (invalid, refl, tt)
  parse_units_total neg (c ∷ s) =
      let (p, ends, ok) =
        rounds_total fraction (length (c ∷ s)) 0 (c ∷ s) (omega arith) (omega arith) in
      elim (Bool-cases (equal (c ∷ s) (codes "0"))) [
        | inl zero' ↦ (parsed (nanoseconds 0), rw zero', omega arith)
        | inr other ↦ (p >>= finish neg, rw (other, ends), finish_total neg p ok)
      ]

-- `parseSystemdDuration` ends on every text, and a duration that it gives fits 64 bits with a sign,
-- whatever the fractions of units come to.
pub parse_systemd_duration_total :
    (fraction : ℕ → ℕ → ℕ → ℕ) (s : Bytes)
    → (p : Parsed Duration) × (parse_systemd_duration fraction s ≡ some p) × InRange p
unfolding parse_systemd_duration
parse_systemd_duration_total fraction s =
    let (neg, rest) = sign (short_units s) in
    Gives-if _ _ _ (parsed (signed (1000000000 * atoi s)), refl, signed-InRange _)
      (parse_units_total fraction neg rest)
