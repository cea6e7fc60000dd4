-- ===== src/Entry/Tests.antt =====
-- The names under which the program is called, and an installation.
use docker_systemd.Base.{
  ◌≡◌, refl, Bool, true, List, [], ◌∷◌, ◌++◌, map, Bytes, All, Option, none, some, if◌then◌else◌,
}
use mathlib.Core.Option
use docker_systemd.Base.{false}
use docker_systemd.Text.{codes, equal, split, trim, trim_left, trim_right, is_in}
use docker_systemd.Text.Laws.{equal_self}
use docker_systemd.Entry.{main, runs_systemctl, prints_version, boots, base_name, last_of}
use docker_systemd.Entry.Names.{message, main-service}
use docker_systemd.Entry.Options.{defaults, set_option, read_options}
use docker_systemd.Entry.Install.{Files, base_path, programs, install, install_each, install_one}
use docker_systemd.Entry.Install.Linked.{IsFiles, IsInstalled, install-IsInstalled}

same_message :
    message (main 7 [] (codes "/usr/sbin" ++ codes "/service") (codes "app" ∷ codes "stop" ∷ []))
    ≡ message (main 7 [] (codes "/bin" ++ codes "/systemctl") (codes "stop" ∷ codes "app" ∷ []))
same_message =
    main-service 7 [] (codes "/usr/sbin") (codes "/bin") (codes "app") (codes "stop") [] refl

main_version :
    main 7 (codes "1.0\n") (codes "systemctl") (codes "version" ∷ []) ≡ prints_version (codes "1.0")
unfolding main base_name split last_of equal trim trim_left trim_right is_in
main_version = refl

-- Process 1 is the daemon under every name.
main_first : main 1 [] (codes "/bin/journalctl") [] ≡ boots
unfolding main
main_first = refl

main_power :
    main 7 [] (codes "/sbin/shutdown") (codes "now" ∷ [])
    ≡ runs_systemctl (codes "/sbin/shutdown" ∷ codes "poweroff" ∷ [])
unfolding main base_name split last_of equal
main_power = refl

-- Files that are all links, as a function from names to targets.
abbrev LinkTable : Type 0
LinkTable = Bytes → Option Bytes

abbrev put : Bytes → Option Bytes → LinkTable → LinkTable
put name target s = λ q. if equal q name then target else s q

abbrev links : Files LinkTable
links = record {
  lstat = λ p s. Option.map (λ target. true) (s p);
  read_link = λ p s. s p;
  rename = λ old new s. put new (s old) (put old none s);
  symlink = λ to name s. (true, put name (some to) s);
}

links-IsFiles : IsFiles links
links-IsFiles = record {
  read_link-symlink = λ to name s made. rw (equal_self name) refl;
  read_link-other = λ to name q s apart. rw apart refl;
  read_link-rename = λ old new q s apart apart'. rw (apart', apart) refl;
}

abbrev me : Bytes
me = codes "/app"

-- `/bin/systemctl` is a link to the program already, and `/bin/init` one to another.
abbrev before : LinkTable
before =
    put (codes "/bin/systemctl") (some me)
      (put (codes "/bin/init") (some (codes "/sbin/systemd")) (λ q. none))

abbrev in_bin : List Bytes → Bytes → Bool
in_bin list item = equal item (codes "/bin")

abbrev path : List Bytes
path = codes "/opt" ∷ codes "/bin" ∷ []

abbrev behind : Option LinkTable → LinkTable
behind none = before
behind (some t) = t

-- The files behind the installation.
abbrev after : LinkTable
after = behind (install links me in_bin path before)

install-IsInstalled_example :
    All (IsInstalled links me after) (map (λ f. base_path in_bin path ++ f) programs)
unfolding install install_each install_one equal base_path trim_right
install-IsInstalled_example =
    install-IsInstalled links links-IsFiles me in_bin path before after refl

install_old : after (codes "/bin/init.old") ≡ some (codes "/sbin/systemd")
unfolding install install_each install_one equal base_path trim_right is_in
install_old = refl

options_read :
    read_options (codes "--no-logfile" ∷ codes "--log-to-stderr" ∷ []) defaults
    ≡ some (record defaults { log_to_file = false; log_to_stderr = true })
unfolding read_options set_option equal
options_read = refl

options_unknown : read_options (codes "--debug-reaper" ∷ codes "--user" ∷ []) defaults ≡ none
unfolding read_options set_option equal
options_unknown = refl
