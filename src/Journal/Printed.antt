-- ===== src/Journal/Printed.antt =====
-- journalctl/main.go: a log that is printed.
use docker_systemd.Base.{◌≡◌, refl, true, false, [], Bytes, some}
use docker_systemd.Text.{equal, split}
use docker_systemd.UnitFile.{scan}
use docker_systemd.Journal.{
  Clock, Opts, prints, Files, is_positive, show, parse_bound, since_boot, log_file, journal,
}

-- No option asks for the help or for `tail`.
pub record IsPlain (opt : Opts) : Type 0 where
  pub no_help : opt.help ≡ false
  pub named : equal opt.unit [] ≡ false
  pub no_follow : opt.follow ≡ false
  pub no_count : is_positive opt.max_lines ≡ false

module _ {T : Type 0} (clock : Clock T) (files : Files) where
  -- The log file of the unit is there, with these contents.
  abbrev pub IsLogged : Opts → Bytes → Type 0
  IsLogged opt content =
      (files.exists (log_file clock files opt.unit) ≡ true)
      × (files.content (log_file clock files opt.unit) ≡ some content)

  pub journal-show :
      (opt : Opts) (content : Bytes) (since until : T)
      → IsPlain opt
      → IsLogged opt content
      → parse_bound clock opt.since ≡ some since
      → parse_bound clock opt.until ≡ some until
      → journal clock files (some opt)
        ≡ prints
            (show clock (since_boot clock files opt.boot since) until (scan (split content b'\n')))
  unfolding journal
  journal-show opt content since until plain (there, readable) from to =
      rw (plain.no_help, plain.named, there, from, to, plain.no_follow, plain.no_count, readable)
        refl
