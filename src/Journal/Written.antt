-- ===== src/Journal/Written.antt =====
-- systemd/daemons/logger.go and journalctl/main.go: what a service writes is what the journal prints.
use docker_systemd.Base.{
  ◌≡◌, ◌≢◌, refl, ap, ◌∙◌, true, false, List, All, [], ◌∷◌, ◌++◌, Bytes, some, ◌==◌, leb, length,
}
use docker_systemd.Text.{codes, split, has_suffix, trim_suffix}
use docker_systemd.Text.Laws.{split-ne-nil, split_piece}
use docker_systemd.UnitFile.{scan}
use docker_systemd.Wire.Reply.{concat}
use docker_systemd.Logs.{get_log_path, get_unit_log_path, Logger, append_to, write_logs}
use docker_systemd.Logs.Laws.{get_unit_log_path-append, file-write_logs}
use docker_systemd.Journal.{Clock, Opts, Files, prints, log_file, journal}
use docker_systemd.Journal.Printed.{IsPlain}
use docker_systemd.Journal.Limits.{journal-unbounded}

-- Text of lines, each with its newline.
abbrev pub unlines : List Bytes → Bytes
unlines [] = []
unlines (line ∷ lines) = line ++ b'\n' ∷ unlines lines

-- A line that a scanner gives back as it is.
pub record IsLine (line : Bytes) : Type 0 where
  pub whole : All (λ c. (c == b'\n') ≡ false) line
  pub no_return : has_suffix line (codes "\r") ≡ false
  pub fits : leb 65536 (length line) ≡ false

scan-line :
    (line : Bytes) (rest : List Bytes)
    → rest ≢ []
    → IsLine line
    → scan (line ∷ rest) ≡ line ∷ scan rest
unfolding scan trim_suffix
scan-line line [] some_left h = absurd (some_left refl)
scan-line line (next ∷ more) some_left h = rw (h.fits, h.no_return) refl

scan-unlines : (lines : List Bytes) → All IsLine lines → scan (split (unlines lines) b'\n') ≡ lines
unfolding scan split
scan-unlines [] h = refl
scan-unlines (line ∷ lines) (is_line, more) =
    ap scan (split_piece line (unlines lines) b'\n' is_line.whole)
    ∙ scan-line line (split (unlines lines) b'\n') (split-ne-nil (unlines lines) b'\n') is_line
    ∙ ap (λ rest. line ∷ rest) (scan-unlines lines more)

-- For a service whose log had `old` and has since got some writes that make it a text of lines, each
-- with its newline, shorter than 65536 bytes and without a carriage return at its end: the journal of
-- the service, asked for with `.service` behind its name and without `--since`, `--until`, `--boot`
-- and the options for `tail`, prints all these lines in order, also where a line was written in
-- pieces.
pub journal-write_logs :
    {T : Type 0} (clock : Clock T) (files : Files) (opt : Opts) (name : Bytes) (l : Logger)
    (old : Bytes) (ps lines : List Bytes)
    → clock.is_zero clock.zero_time ≡ true
    → IsPlain opt
    → opt.since ≡ []
    → opt.until ≡ []
    → opt.boot ≡ false
    → opt.unit ≡ name ++ codes ".service"
    → has_suffix name (codes ".service") ≡ false
    → l.file ≡ some old
    → files.exists (files.join get_log_path (get_unit_log_path name)) ≡ true
    → files.content (files.join get_log_path (get_unit_log_path name)) ≡ (write_logs l ps).1.file
    → old ++ concat ps ≡ unlines lines
    → All IsLine lines
    → journal clock files (some opt) ≡ prints lines
journal-write_logs clock files opt name l old ps lines zero plain no_since no_until no_boot unit
      bare had there now text each =
    let path : log_file clock files opt.unit ≡ files.join get_log_path (get_unit_log_path name) =
      ap (log_file clock files) unit
      ∙ ap (files.join get_log_path) (get_unit_log_path-append name bare) in
    let content : files.content (log_file clock files opt.unit) ≡ some (old ++ concat ps) =
      ap files.content path ∙ now ∙ file-write_logs l ps ∙ ap (append_to (concat ps)) had in
    journal-unbounded clock files opt (old ++ concat ps) clock.zero_time zero plain
      (ap files.exists path ∙ there, content) (rw no_since refl) no_until
    ∙ ap (λ t. prints (scan (split t b'\n'))) text
    ∙ ap prints (scan-unlines lines each)
