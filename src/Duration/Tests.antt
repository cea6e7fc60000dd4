-- ===== src/Duration/Tests.antt =====
-- Runs of `parseSystemdDuration`, and the theorems at concrete texts.
use docker_systemd.Base.{ℕ, ◌≡◌, ◌*◌, refl, arith, [], some}
use docker_systemd.Text.{codes}
use docker_systemd.Definition.{Duration, nanoseconds, negative}
use docker_systemd.Duration.{
  program, Parsed, parsed, invalid, missing_unit, decimal, leading_int, parse_systemd_duration,
}
use docker_systemd.Duration.Number.{leading_int-decimal}
use docker_systemd.Duration.Total.{parse_systemd_duration_total, InRange}
use docker_systemd.Duration.Units.{parse_systemd_duration-units}

-- Fractions of units, rounded down.
abbrev exact : ℕ → ℕ → ℕ → ℕ
exact f unit digits = f

runs :
    (parse_systemd_duration exact (codes "5min 20s") ≡ some (parsed (nanoseconds 320000000000)))
    × (parse_systemd_duration exact (codes "90") ≡ some (parsed (nanoseconds 90000000000)))
    × (parse_systemd_duration exact (codes "-2ms") ≡ some (parsed (negative 2000000)))
    × (parse_systemd_duration exact (codes "infinity") ≡ some invalid)
    × (parse_systemd_duration exact (codes "5 ") ≡ some missing_unit)
unfolding program
runs = (refl, refl, refl, refl, refl)

-- The sum of two terms of 1<<63 wraps round to 0.
sum_wraps :
    parse_systemd_duration exact (codes "9223372036854775808ns9223372036854775808ns")
    ≡ some (parsed (nanoseconds 0))
unfolding program
sum_wraps = refl

leading_int-decimal_example : leading_int 0 (codes "12s") ≡ some (12, codes "s")
unfolding program
leading_int-decimal_example =
    leading_int-decimal 0 (codes "12") (codes "s") (omega arith) (refl, (refl, tt)) refl

parse_systemd_duration_total_example :
    (p : Parsed Duration) × (parse_systemd_duration exact (codes "1h") ≡ some p) × InRange p
parse_systemd_duration_total_example = parse_systemd_duration_total exact (codes "1h")

parse_systemd_duration-units_example :
    parse_systemd_duration exact (codes "12 minutes")
    ≡ some (parsed (nanoseconds (decimal 0 (codes "12") * 60000000000)))
unfolding program
parse_systemd_duration-units_example =
    parse_systemd_duration-units exact b'1' (codes "2") b' ' (codes "minutes") b'm' [] 60000000000
      (refl, (refl, tt)) refl refl ((refl, refl), tt) refl (omega arith) (omega arith)
