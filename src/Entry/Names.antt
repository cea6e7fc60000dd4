-- ===== src/Entry/Names.antt =====
-- main.go, `main`: `service` is `systemctl`.
use docker_systemd.Base.{
  ℕ, ◌==◌, ◌≡◌, refl, ap, ◌∙◌, Bool, true, false, List, [], ◌∷◌, ◌++◌, Bytes, All, if◌then◌else◌,
}
use docker_systemd.Text.{codes, equal, onto_first, split}
use docker_systemd.Text.Laws.{split_whole}
use docker_systemd.Wire.{encode}
use docker_systemd.Wire.RoundTrip.{encode_anonymous}
use docker_systemd.Entry.{Program, runs_systemctl, last_of, base_name, main}

-- What is sent to the daemon, if anything is.
abbrev pub message : Program → Bytes
message (runs_systemctl args) = encode args
message _ = []

last_of-append : (x name : Bytes) (pre : List Bytes) → last_of x (pre ++ name ∷ []) ≡ name
unfolding last_of
last_of-append x name [] = refl
last_of-append x name (p ∷ pre) = last_of-append p name pre

-- The pieces of a path: some, of which there is a first, and then the name.
split-append :
    (dir name : Bytes)
    → All (λ c. (c == b'/') ≡ false) name
    → (p : Bytes) × (pre : List Bytes) × (split (dir ++ b'/' ∷ name) b'/' ≡ p ∷ pre ++ name ∷ [])
unfolding split
split-append [] name plain = ([], [], ap (◌∷◌ []) (split_whole name b'/' plain))
split-append (c ∷ dir) name plain = by_slash (c == b'/') (split-append dir name plain)
  where
    rest : List Bytes
    rest = split (dir ++ b'/' ∷ name) b'/'

    by_slash :
        (b : Bool)
        → (p : Bytes) × (pre : List Bytes) × (rest ≡ p ∷ pre ++ name ∷ [])
        → (p : Bytes) × (pre : List Bytes) × ((if b then [] ∷ rest else onto_first c rest)
            ≡ p ∷ pre ++ name ∷ [])
    by_slash true (p, pre, e) = ([], p ∷ pre, ap (◌∷◌ []) e)
    by_slash false (p, pre, e) = (c ∷ p, pre, ap (onto_first c) e)

-- The name behind the last slash of a path.
base_name-append :
    (dir name : Bytes) → All (λ c. (c == b'/') ≡ false) name → base_name (dir ++ b'/' ∷ name) ≡ name
unfolding base_name
base_name-append dir name plain =
    let (p, pre, e) = split-append dir name plain in
    ap (last_of []) e ∙ last_of-append [] name (p ∷ pre)

service_name : (dir : Bytes) → base_name (dir ++ codes "/service") ≡ codes "service"
service_name dir =
    base_name-append dir (codes "service")
      (refl, (refl, (refl, (refl, (refl, (refl, (refl, tt)))))))

systemctl_name : (dir : Bytes) → base_name (dir ++ codes "/systemctl") ≡ codes "systemctl"
systemctl_name dir =
    base_name-append dir (codes "systemctl")
      (refl, (refl, (refl, (refl, (refl, (refl, (refl, (refl, (refl, tt)))))))))

-- `service NAME VERB …` sends the daemon the message of `systemctl VERB NAME …`, in whatever
-- directories the two stand, unless one of them is process 1.
pub main-service :
    (pid : ℕ) (version dir dir' name verb : Bytes) (args : List Bytes)
    → (pid == 1) ≡ false
    → message (main pid version (dir ++ codes "/service") (name ∷ verb ∷ args))
      ≡ message (main pid version (dir' ++ codes "/systemctl") (verb ∷ name ∷ args))
unfolding main equal
main-service pid version dir dir' name verb args other =
    rw (other, service_name dir, systemctl_name dir')
      (encode_anonymous (dir ++ codes "/service") (dir' ++ codes "/systemctl") (verb ∷ name ∷ args))
