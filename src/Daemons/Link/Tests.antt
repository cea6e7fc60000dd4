-- ===== src/Daemons/Link/Tests.antt =====
-- A run of the loops at the end of `Reload`, and the theorems at it.
use docker_systemd.Base.{
  ◌≡◌, refl, subst, inl, inr, Bool, true, false, [], ◌∷◌, Bytes, none, some, if◌then◌else◌,
  Bool-cases,
}
use mathlib.Core.Option
use docker_systemd.Text.{codes, equal}
use docker_systemd.Text.Laws.{equal_iff}
use docker_systemd.Definition.{
  Relation, requires, required_by, same_relation, link, Definition, empty, with_deps,
}
use docker_systemd.Daemon.State.{Daemon, System, stopped}
use docker_systemd.Daemon.Flow.{next}
use docker_systemd.Daemons.Link.{link_all}
use docker_systemd.Daemons.Link.Answers.{entry, link_all-target, link_all-inverse}
use docker_systemd.Daemons.Link.Total.{IsReady, IsSound}

abbrev app : Bytes
app = codes "app"

abbrev db : Bytes
db = codes "db"

abbrev cache : Bytes
cache = codes "cache"

abbrev service : Definition → Daemon
service def = record {
  state = stopped;
  state_error = none;
  def = some def;
  old_def = none;
  paths = [];
  masked = false;
  is_manual = false;
  cmds = [];
  pids = [];
  held = false;
}

abbrev app_def : Definition
app_def = with_deps requires ((db, none) ∷ (cache, none) ∷ []) empty

-- `app` requires `db`, which is there, and `cache`, which is not.
abbrev two : System
two = record {
  list = (app, service app_def) ∷ (db, service empty) ∷ [];
  shutdown = false;
  log_to_file = false;
  clock = 0;
  slept = 0;
  trace = [];
}

app_keys : (q : Relation) (b : Bool) → link app (if b then app_def.deps requires else []) ≡ none
unfolding link equal
app_keys q true = refl
app_keys q false = refl

db-IsSound : IsSound db (some empty)
unfolding link
db-IsSound = (empty, refl, λ q. refl)

app-IsSound : IsSound app (some app_def)
app-IsSound = (app_def, refl, λ q. app_keys q (same_relation requires q))

two-IsReady : IsReady none two
two-IsReady n d e = elim (Bool-cases (equal app n)) [
  | inl same ↦
      let is : service app_def ≡ d = Option.some-injective _ _ (rw same at e) in
      subst (λ z. (z.held ≡ false) × IsSound n z.def) is
        (refl, subst (λ m. IsSound m (some app_def)) ((equal_iff app n).0 same) app-IsSound)
  | inr other ↦ elim (Bool-cases (equal db n)) [
    | inl same ↦
        let is : service empty ≡ d = Option.some-injective _ _ (rw (other, same) at e) in
        subst (λ z. (z.held ≡ false) × IsSound n z.def) is
          (refl, subst (λ m. IsSound m (some empty)) ((equal_iff db n).0 same) db-IsSound)
    | inr other' ↦ absurd (let e' = rw (other, other') at e in cc)
  ]
]

link_all-target_example :
    (s' : System) × (link_all two ≡ next tt s') × (entry app requires db s' ≡ some (some db))
unfolding link equal
link_all-target_example = link_all-target two app requires db none two-IsReady refl

link_all-inverse_example :
    (s' : System) × (link_all two ≡ next tt s') × (entry db required_by app s' ≡ some (some app))
unfolding link equal
link_all-inverse_example =
    link_all-inverse two app requires db none two-IsReady refl (service empty, empty, refl, refl)
