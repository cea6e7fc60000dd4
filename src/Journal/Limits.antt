-- ===== src/Journal/Limits.antt =====
-- journalctl/main.go: what `--since` and `--boot` do by themselves, and lines without a time.
use docker_systemd.Base.{
  ◌≡◌, ◌≢◌, refl, ap, ◌∙◌, inl, inr, Bool-cases, arith, ltb, length, if◌then◌else◌, Option, true,
  false, List, [], ◌∷◌, Bytes, All, none, some, take,
}
use docker_systemd.Text.{split}
use docker_systemd.UnitFile.{scan}
use docker_systemd.Journal.{
  Clock, or_zero, Opts, prints, Files, show, parse_bound, since_boot, journal,
}
use docker_systemd.Journal.Printed.{IsPlain, IsLogged, journal-show}

module _ {T : Type 0} (clock : Clock T) where
  show-unbounded :
      (since until : T) (log : List Bytes)
      → clock.is_zero until ≡ true
      → show clock since until log ≡ log
  unfolding show
  show-unbounded since until [] zero = refl
  show-unbounded since until (line ∷ more) zero =
      let rest = show-unbounded since until more zero in rw zero (ground (arith, rest))

  -- The line begins with a time.
  abbrev pub IsStamped : Bytes → Type 0
  IsStamped line = clock.date_time (take 19 line) ≢ none

  show-IsStamped :
      (since until : T) (log : List Bytes)
      → clock.is_zero since ≡ false
      → clock.is_zero until ≡ false
      → clock.before clock.zero_time since ≡ true
      → All IsStamped (show clock since until log)
  unfolding show
  show-IsStamped since until [] from to old = tt
  show-IsStamped since until (line ∷ more) from to old =
      let rest = show-IsStamped since until more from to old in
      let by_stamp = stamped (clock.date_time (take 19 line)) refl rest in
      rw (from, to)
        (elim (Bool-cases (ltb (length line) 19)) [
          | inl short ↦ rw short rest
          | inr long ↦ rw long by_stamp
        ])
    where
      kept : Option T → List Bytes
      kept o =
          if clock.before (or_zero clock o) since
          then show clock since until more
          else if clock.before until (or_zero clock o)
          then []
          else line ∷ show clock since until more

      stamped :
          (o : Option T)
          → clock.date_time (take 19 line) ≡ o
          → All IsStamped (show clock since until more)
          → All IsStamped (kept o)
      stamped none is rest = rw old rest
      stamped (some at) is rest = elim (Bool-cases (clock.before at since)) [
        | inl early ↦ rw early rest
        | inr in_time ↦ rw in_time (elim (Bool-cases (clock.before until at)) [
          | inl late ↦ rw late tt
          | inr shown ↦ rw shown ((λ e. absurd (let e' = rw is at e in cc)), rest)
        ])
      ]

  module _ (files : Files) where
    -- Without `--until`, every line that the scanner reads from the log is printed, whatever bound
    -- `--since` and `--boot` give.
    pub journal-unbounded :
        (opt : Opts) (content : Bytes) (since : T)
        → clock.is_zero clock.zero_time ≡ true
        → IsPlain opt
        → IsLogged clock files opt content
        → parse_bound clock opt.since ≡ some since
        → opt.until ≡ []
        → journal clock files (some opt) ≡ prints (scan (split content b'\n'))
    journal-unbounded opt content since zero plain logged from no_until =
        journal-show clock files opt content since clock.zero_time plain logged from
          (rw no_until refl)
        ∙ ap prints (
            show-unbounded (since_boot clock files opt.boot since) clock.zero_time
              (scan (split content b'\n')) zero)

    -- With `--until` given, and a lower bound from `--since` or `--boot` that is behind the zero time,
    -- every line of the log that is printed begins with a time: no other line is printed, whatever
    -- lines stand before it and behind it.
    pub journal-IsStamped :
        (opt : Opts) (content : Bytes) (since until : T)
        → IsPlain opt
        → IsLogged clock files opt content
        → parse_bound clock opt.since ≡ some since
        → parse_bound clock opt.until ≡ some until
        → clock.is_zero (since_boot clock files opt.boot since) ≡ false
        → clock.is_zero until ≡ false
        → clock.before clock.zero_time (since_boot clock files opt.boot since) ≡ true
        → (shown : List Bytes) × (journal clock files (some opt) ≡ prints shown)
          × All IsStamped shown
    journal-IsStamped opt content since until plain logged from to bounded bounded' old = (
      show clock (since_boot clock files opt.boot since) until (scan (split content b'\n')),
      journal-show clock files opt content since until plain logged from to,
      show-IsStamped (since_boot clock files opt.boot since) until (scan (split content b'\n'))
          bounded bounded' old,
    )
