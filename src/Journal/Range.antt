-- ===== src/Journal/Range.antt =====
-- journalctl/main.go: the lines between two times.
use docker_systemd.Base.{
  ◌≡◌, ◌⊎◌, inl, inr, refl, ap, ◌∙◌, arith, Bool, true, false, not, ◌&&◌, Bool-cases, List, [], ◌∷◌,
  Bytes, All, some, length, ltb, if◌then◌else◌,
}
use docker_systemd.Text.{split}
use docker_systemd.UnitFile.{scan}
use docker_systemd.Journal.{
  Clock, Opts, prints, Files, stamp, show, parse_bound, since_boot, journal,
}
use docker_systemd.Journal.Printed.{IsPlain, IsLogged, journal-show}

-- The elements that pass a test.
unfoldable pub keep : (Bytes → Bool) → List Bytes → List Bytes
keep test [] = []
keep test (x ∷ xs) = if test x then x ∷ keep test xs else keep test xs

module _ {T : Type 0} (clock : Clock T) where
  -- A time before another is before every time that is not before that one.
  abbrev pub IsOrdered : Type 0
  IsOrdered =
      (a b c : T) → clock.before a b ≡ true → clock.before c b ≡ false → clock.before a c ≡ true

  abbrev pub is_short : Bytes → Bool
  is_short line = ltb (length line) 19

  -- The line has a time from `since` to `until`.
  abbrev pub is_between : T → T → Bytes → Bool
  is_between since until line =
      not (is_short line)
      && (not (clock.before (stamp clock line) since)
          && not (clock.before until (stamp clock line)))

  -- The lines with a time are in the order of their times.
  abbrev pub IsSorted : List Bytes → Type 0
  IsSorted [] = Unit
  IsSorted (line ∷ more) =
      ((is_short line ≡ true)
        ⊎ All (λ l. (is_short l ≡ true) ⊎ (clock.before (stamp clock l) (stamp clock line) ≡ false))
            more)
      × IsSorted more

  module _ (ordered : IsOrdered) (since until : T) (bounded : clock.is_zero since ≡ false)
      (bounded' : clock.is_zero until ≡ false) where
    -- Nothing is between the two times behind a line that is later.
    keep-later :
        (line : Bytes) (more : List Bytes)
        → clock.before until (stamp clock line) ≡ true
        → All
            (λ l. (is_short l ≡ true) ⊎ (clock.before (stamp clock l) (stamp clock line) ≡ false))
            more
        → keep (is_between since until) more ≡ []
    unfolding keep
    keep-later line [] late later = refl
    keep-later line (l ∷ more) late (inl short, later) = rw short (keep-later line more late later)
    keep-later line (l ∷ more) late (inr after, later) =
        let late' = ordered until (stamp clock line) (stamp clock l) late after in
        ground (arith, keep-later line more late later)

    show-keep :
        (log : List Bytes)
        → IsSorted log
        → show clock since until log ≡ keep (is_between since until) log
    unfolding show keep
    show-keep [] sorted = refl
    show-keep (line ∷ more) (inl short, sorted) =
        rw (bounded, bounded', short) (show-keep more sorted)
    show-keep (line ∷ more) (inr later, sorted) =
        elim (Bool-cases (clock.before until (stamp clock line))) [
          | inl late ↦
              rw bounded (
                rw bounded'
                  (ground (arith, keep-later line more late later, show-keep more sorted)))
          | inr in_time ↦ ground (arith, show-keep more sorted)
        ]

  -- For a log whose lines with a time are in the order of their times, and two bounds, `since` being
  -- the later one of `--since` and the time of the boot when `--boot` is given: exactly the lines
  -- between the two bounds are printed, in their order, although the loop ends at the first line that
  -- is later. The order of the times is the only property of the clock that this needs.
  pub journal-keep :
      IsOrdered
      → (files : Files) (opt : Opts) (content : Bytes) (since until : T) → IsPlain opt
      → IsLogged clock files opt content
      → parse_bound clock opt.since ≡ some since
      → parse_bound clock opt.until ≡ some until
      → clock.is_zero (since_boot clock files opt.boot since) ≡ false
      → clock.is_zero until ≡ false
      → IsSorted (scan (split content b'\n'))
      → journal clock files (some opt)
        ≡ prints (
            keep
              (is_between (since_boot clock files opt.boot since) until)
              (scan (split content b'\n')))
  journal-keep ordered files opt content since until plain logged from to bounded bounded' sorted =
      journal-show clock files opt content since until plain logged from to
      ∙ ap prints (
          show-keep ordered (since_boot clock files opt.boot since) until bounded bounded'
            (scan (split content b'\n')) sorted)
