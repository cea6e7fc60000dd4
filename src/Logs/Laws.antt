-- ===== src/Logs/Laws.antt =====
-- systemd/daemons/logger.go and common/common.go: the name of a log file, and what it gets.
use docker_systemd.Base.{
  ◌≡◌, refl, ap, ◌∙◌, sym, false, List, [], ◌∷◌, ◌++◌, Bytes, Option, none, some, append_assoc,
  append-nil,
}
use docker_systemd.Text.{codes, has_suffix, trim, trim_suffix}
use docker_systemd.Text.Laws.{trim_suffix-append}
use docker_systemd.Wire.Reply.{concat}
use docker_systemd.Logs.{get_unit_log_path, Logger, append_to, write_log, write_logs}

trim_suffix_without : (s p : Bytes) → has_suffix s p ≡ false → trim_suffix s p ≡ s
unfolding trim_suffix
trim_suffix_without s p without = rw without refl

-- A service has one log file, with `.service` behind its name or without.
pub get_unit_log_path-append :
    (name : Bytes)
    → has_suffix name (codes ".service") ≡ false
    → get_unit_log_path (name ++ codes ".service") ≡ get_unit_log_path name
unfolding get_unit_log_path
get_unit_log_path-append name plain =
    ap (λ unit. trim unit (codes ".") ++ codes ".log")
      (trim_suffix-append name (codes ".service")
        ∙ sym (trim_suffix_without name (codes ".service") plain))

append_to-append :
    (p q : Bytes) (o : Option Bytes) → append_to q (append_to p o) ≡ append_to (p ++ q) o
append_to-append p q none = refl
append_to-append p q (some content) = ap some (append_assoc content p q)

append_to-nil : (o : Option Bytes) → append_to [] o ≡ o
append_to-nil none = refl
append_to-nil (some content) = ap some (append-nil content)

-- The log file gets all that is written, in its order.
pub file-write_logs :
    (l : Logger) (ps : List Bytes) → (write_logs l ps).1.file ≡ append_to (concat ps) l.file
unfolding write_logs write_log
file-write_logs l [] = sym (append_to-nil l.file)
file-write_logs l (p ∷ ps) =
    file-write_logs (write_log l p).1 ps ∙ append_to-append p (concat ps) l.file
