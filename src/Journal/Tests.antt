-- ===== src/Journal/Tests.antt =====
-- The theorems on the journal, on a clock whose times are the first digit.
use docker_systemd.Base.{
  ℕ, ◌-◌, ◌≡◌, refl, inr, arith, true, false, ◌&&◌, ◌==◌, ltb, leb, List, All, [], ◌∷◌, ◌++◌, Bytes,
  Option, none, some, if◌then◌else◌,
}
use docker_systemd.Text.{codes, equal, split, trim_suffix, trim_right}
use docker_systemd.UnitFile.{scan}
use docker_systemd.Logs.{Logger, get_unit_log_path, write_log, write_logs, printed_lines}
use docker_systemd.Journal.{
  Clock, Opts, lines, prints, follows, tails, fatal, unit_required, wrong_since, Files, journal,
}
use docker_systemd.Journal.Range.{keep, journal-keep}
use docker_systemd.Journal.Written.{journal-write_logs}
use docker_systemd.Journal.Limits.{IsStamped, journal-IsStamped, journal-unbounded}

abbrev digit : ℕ → Option ℕ
digit c = if leb 48 c && leb c 57 then some (c - 47) else none

abbrev first_digit : Bytes → Option ℕ
first_digit [] = none
first_digit (c ∷ text) = digit c

abbrev clock : Clock ℕ
clock = record {
  zero_time = 0;
  is_zero = λ t. t == 0;
  before = ltb;
  date_time = first_digit;
  rfc3339 = first_digit;
}

abbrev newline : Bytes
newline = 10 ∷ []

abbrev log : Bytes
log =
    codes "1 starting the program"
    ++ newline
    ++ (codes "3 the program is ready" ++ newline)
    ++ (codes "5 the program has ended" ++ newline)

-- A line without a time between two that have one.
abbrev mixed : Bytes
mixed =
    codes "3 the program is ready"
    ++ newline
    ++ (codes "the line has no time at all" ++ newline)
    ++ (codes "4 the program has ended" ++ newline)

-- One log file, and a boot at the time 2.
abbrev files_of : Bytes → Files
files_of content = record {
  exists = λ path. true;
  content = λ path. if equal path (codes "/etc/boot-time") then some (codes "1") else some content;
  join = λ dir name. dir ++ (codes "/" ++ name);
}

abbrev options : Opts
options = record {
  since = codes "2";
  until = codes "4";
  boot = false;
  unit = codes "app.service";
  max_lines = lines 0;
  follow = false;
  help = false;
}

journal-keep_example :
    journal clock (files_of log) (some options) ≡ prints (codes "3 the program is ready" ∷ [])
unfolding get_unit_log_path equal split scan trim_suffix keep
journal-keep_example =
    journal-keep clock (λ a b c. grind arith) (files_of log) options log 3 5
      (record { no_help = refl; named = refl; no_follow = refl; no_count = refl }) (refl, refl) refl
      refl refl refl (inr (inr refl, (inr refl, tt)), (inr (inr refl, tt), (inr tt, tt)))

journal-IsStamped_example :
    (shown : List Bytes) × (journal clock (files_of mixed) (some options) ≡ prints shown)
    × All (IsStamped clock) shown
unfolding get_unit_log_path equal split scan trim_suffix
journal-IsStamped_example =
    journal-IsStamped clock (files_of mixed) options mixed 3 5
      (record { no_help = refl; named = refl; no_follow = refl; no_count = refl }) (refl, refl) refl
      refl refl refl refl

journal-unbounded_example :
    journal clock (files_of log) (some (record options { until = []; boot = true }))
    ≡ prints (
        codes "1 starting the program"
        ∷ codes "3 the program is ready"
        ∷ codes "5 the program has ended"
        ∷ [])
unfolding get_unit_log_path equal split scan trim_suffix
journal-unbounded_example =
    journal-unbounded clock (files_of log) (record options { until = []; boot = true }) log 3 refl
      (record { no_help = refl; named = refl; no_follow = refl; no_count = refl }) (refl, refl) refl
      refl

-- `--lines` alone runs `tail` without the name of the log file.
lines_only :
    journal clock (files_of log) (some (record options { max_lines = lines 5 })) ≡ tails (lines 5)
unfolding journal equal get_unit_log_path
lines_only = refl

-- With `--follow`, 10 lines are the default.
follow_lines :
    journal clock (files_of log) (some (record options { follow = true }))
    ≡ follows (lines 10) (codes "/var/log/services/app.log")
unfolding journal equal get_unit_log_path trim_suffix docker_systemd.Text.trim
follow_lines = refl

no_unit : journal clock (files_of log) (some (record options { unit = [] })) ≡ fatal unit_required
unfolding journal equal
no_unit = refl

bad_since :
    journal clock (files_of log) (some (record options { since = codes "x" })) ≡ fatal wrong_since
unfolding journal equal
bad_since = refl

-- What a service writes gets no time in its log file.
write_plain :
    write_log (record { to_stderr = true; file = some [] }) (codes "ready" ++ newline)
    ≡ (codes "ready" ∷ [], record { to_stderr = true; file = some (codes "ready" ++ newline) })
unfolding write_log printed_lines split trim_right
write_plain = refl

-- A logger whose file has one line, and two writes of which the first ends in a line.
abbrev logger : Logger
logger = record { to_stderr = false; file = some (codes "started" ++ newline) }

abbrev writes : List Bytes
writes = (codes "ready" ++ newline ++ codes "do") ∷ (codes "ne" ++ newline) ∷ []

abbrev written : Bytes
written = codes "started" ++ newline ++ (codes "ready" ++ newline) ++ (codes "done" ++ newline)

journal-write_logs_example :
    journal clock (files_of written) (some (record options { since = []; until = [] }))
    ≡ prints (codes "started" ∷ codes "ready" ∷ codes "done" ∷ [])
unfolding get_unit_log_path equal split scan trim_suffix write_logs write_log
journal-write_logs_example =
    journal-write_logs clock (files_of written) (record options { since = []; until = [] })
      (codes "app") logger (codes "started" ++ newline) writes
      (codes "started" ∷ codes "ready" ∷ codes "done" ∷ []) refl
      (record { no_help = refl; named = refl; no_follow = refl; no_count = refl }) refl refl refl
      refl refl refl refl refl refl
      (
        (record {
          whole = ((refl, (refl, (refl, (refl, (refl, (refl, (refl, tt))))))));
          no_return = refl;
          fits = refl;
        }),
        (
          (record {
            whole = ((refl, (refl, (refl, (refl, (refl, tt))))));
            no_return = refl;
            fits = refl;
          }),
          (
            (record {
              whole = ((refl, (refl, (refl, (refl, tt)))));
              no_return = refl;
              fits = refl;
            }),
            tt,
          ),
        ),
      )
