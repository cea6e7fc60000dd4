-- ===== src/UnitFile/Grows.antt =====
-- systemd/daemons/unit.go, `loadUnitFile`: what a file does to the lists of a definition.
use docker_systemd.Base.{
  ℕ, ◌≡◌, refl, ap, sym, subst, ◌∙◌, List, [], ◌∷◌, ◌++◌, Bytes, Option, none, some, append-nil,
  append_assoc,
}
use docker_systemd.Definition.{Definition, Duration, Relation}
use docker_systemd.Duration.{Parsed, parsed, parse_systemd_duration}
use docker_systemd.UnitFile.Keys.{
  UnitKey, relation, ServiceKey, unit_key, install_key, service_key, set_unit, set_install,
  set_service, set_duration, assign_unit, assign_install, assign_service, Assigned, assigned,
  refused, restart_sec, timeout_stop_sec,
}
use docker_systemd.UnitFile.{
  Section, unit, install, service, none_yet, Reader, Read, reading, failed, header, assign, store,
  statement, read_line, read_lines, is_comment, Loaded, loaded, not_loaded, outcome, scan,
  load_unit_file, or_empty,
}
use docker_systemd.UnitFile.Line.{blanks, parse_unit_line}
use docker_systemd.Text.{codes, trim, has_suffix, split}
use docker_systemd.Base.{Bool-cases, inl, inr}

abbrev pub IsPrefix : List Bytes → List Bytes → Type 0
IsPrefix xs ys = (more : List Bytes) × (ys ≡ xs ++ more)

IsPrefix-refl : (xs : List Bytes) → IsPrefix xs xs
IsPrefix-refl xs = ([], sym (append-nil xs))

IsPrefix-trans : (xs ys zs : List Bytes) → IsPrefix xs ys → IsPrefix ys zs → IsPrefix xs zs
IsPrefix-trans xs ys zs (m, p) (n, q) = (m ++ n, q ∙ ap (λ l. l ++ n) p ∙ append_assoc xs m n)

-- The lists that a definition collects.
pub data Collected : Type 0 where
  start_lines stop_lines start_pre_lines start_post_lines : Collected
  stop_pre_lines stop_post_lines condition_lines variables_lines variable_files_lines : Collected

abbrev pub collected : Collected → Definition → List Bytes
collected start_lines d = d.exec_start
collected stop_lines d = d.exec_stop
collected start_pre_lines d = d.exec_start_pre
collected start_post_lines d = d.exec_start_post
collected stop_pre_lines d = d.exec_stop_pre
collected stop_post_lines d = d.exec_stop_post
collected condition_lines d = d.exec_condition
collected variables_lines d = d.env
collected variable_files_lines d = d.env_file

-- Every list keeps what it has, in front of what is new.
abbrev pub Extends : Definition → Definition → Type 0
Extends old new = (p : Collected) → IsPrefix (collected p old) (collected p new)

Extends-refl : (d : Definition) → Extends d d
Extends-refl d p = IsPrefix-refl (collected p d)

Extends-trans : (a b c : Definition) → Extends a b → Extends b c → Extends a c
Extends-trans a b c h k p = IsPrefix-trans _ (collected p b) _ (h p) (k p)

-- The same, field by field.
record Grows (d e : Definition) : Type 0 where
  starts : IsPrefix d.exec_start e.exec_start
  stops : IsPrefix d.exec_stop e.exec_stop
  pre : IsPrefix d.exec_start_pre e.exec_start_pre
  post : IsPrefix d.exec_start_post e.exec_start_post
  before_stop : IsPrefix d.exec_stop_pre e.exec_stop_pre
  after_stop : IsPrefix d.exec_stop_post e.exec_stop_post
  conditions : IsPrefix d.exec_condition e.exec_condition
  env : IsPrefix d.env e.env
  env_file : IsPrefix d.env_file e.env_file

IsPrefix-snoc : (xs : List Bytes) (x : Bytes) → IsPrefix xs (xs ++ (x ∷ []))
IsPrefix-snoc xs x = (x ∷ [], refl)

Grows-Extends : (d e : Definition) → Grows d e → Extends d e
Grows-Extends d e h start_lines = h.starts
Grows-Extends d e h stop_lines = h.stops
Grows-Extends d e h start_pre_lines = h.pre
Grows-Extends d e h start_post_lines = h.post
Grows-Extends d e h stop_pre_lines = h.before_stop
Grows-Extends d e h stop_post_lines = h.after_stop
Grows-Extends d e h condition_lines = h.conditions
Grows-Extends d e h variables_lines = h.env
Grows-Extends d e h variable_files_lines = h.env_file

set_unit-Extends : (k : Option UnitKey) (v : Bytes) (d : Definition) → Extends d (set_unit k v d)
set_unit-Extends none v d = Extends-refl d
set_unit-Extends (some (relation r)) v d = Grows-Extends d _ (search IsPrefix-refl)
set_unit-Extends (some _) v d = Grows-Extends d _ (search IsPrefix-refl)

set_install-Extends :
    (k : Option Relation) (v : Bytes) (d : Definition) → Extends d (set_install k v d)
set_install-Extends none v d = Extends-refl d
set_install-Extends (some r) v d = Grows-Extends d _ (search IsPrefix-refl)

abbrev def_of : Assigned → Definition
def_of (assigned d) = d
def_of (refused d) = d

set_duration-Extends :
    (set : Duration → Definition → Definition) (o : Option (Parsed Duration)) (d : Definition)
    → ((t : Duration) → Extends d (set t d))
    → Extends d (def_of (set_duration set o d))
set_duration-Extends set (some (parsed t)) d h = h t
set_duration-Extends set _ d h = h _

abbrev read_def : Read → Definition
read_def (reading r) = r.def
read_def (failed d) = d

module _ (fraction : ℕ → ℕ → ℕ → ℕ) (name : Bytes) where
  set_service-Extends :
      (k : Option ServiceKey) (v : Bytes) (d : Definition)
      → Extends d (def_of (set_service fraction name k v d))
  set_service-Extends none v d = Extends-refl d
  set_service-Extends (some restart_sec) v d =
      set_duration-Extends (λ t d. record d { restart_sleep = t })
        (parse_systemd_duration fraction v) d
        (λ t. Grows-Extends d (record d { restart_sleep = t }) (search IsPrefix-refl))
  set_service-Extends (some timeout_stop_sec) v d =
      set_duration-Extends (λ t d. record d { stop_timeout = t })
        (parse_systemd_duration fraction v) d
        (λ t. Grows-Extends d (record d { stop_timeout = t }) (search IsPrefix-refl))
  set_service-Extends (some _) v d = Grows-Extends d _ (search (IsPrefix-refl, IsPrefix-snoc))

  assign-Extends :
      (s : Section) (key value : Bytes) (d : Definition)
      → Extends d (def_of (assign fraction name s key value d))
  unfolding assign assign_unit assign_install assign_service
  assign-Extends unit key value d = set_unit-Extends (unit_key key) value d
  assign-Extends install key value d = set_install-Extends (install_key key) value d
  assign-Extends service key value d = set_service-Extends (service_key key) value d
  assign-Extends _ key value d = Extends-refl d

  store-Extends :
      (r : Reader) (a : Assigned)
      → Extends r.def (def_of a)
      → Extends r.def (read_def (store fraction name r a))
  store-Extends r (assigned d) h = h
  store-Extends r (refused d) h = h

  statement-Extends :
      (r : Reader) (line : Bytes) → Extends r.def (read_def (statement fraction name r line))
  unfolding statement
  statement-Extends r line = go (header (trim line blanks)) refl
    where
      go :
          (o : Option Section)
          → header (trim line blanks) ≡ o
          → Extends r.def (read_def (statement fraction name r line))
      go (some s) e = rw (e, statement) (Extends-refl r.def)
      go none e =
          let (key, value) = parse_unit_line line in
          rw (e, statement)
            (store-Extends r (assign fraction name r.section key value r.def)
              (assign-Extends r.section key value r.def))

  read_line-Extends :
      (r : Reader) (line : Bytes) → Extends r.def (read_def (read_line fraction name r line))
  unfolding read_line
  read_line-Extends r line =
      let trimmed = trim line blanks in
      elim (Bool-cases (is_comment fraction name trimmed)) [
        | inl comment ↦ rw comment (Extends-refl r.def)
        | inr other ↦ elim (Bool-cases (has_suffix trimmed (codes "\\"))) [
          | inl goes_on ↦ rw (other, goes_on) (Extends-refl r.def)
          | inr ends ↦ rw (other, ends) (statement-Extends (record r { concat = [] }) _)
        ]
      ]

  read_lines-Extends :
      (r : Reader) (lines : List Bytes)
      → Extends r.def (read_def (read_lines fraction name r lines))
  unfolding read_lines
  read_lines-Extends r [] = Extends-refl r.def
  read_lines-Extends r (line ∷ lines) =
      go (read_line fraction name r line) refl (λ r'. read_lines-Extends r' lines)
    where
      go :
          (q : Read)
          → read_line fraction name r line ≡ q
          → ((r' : Reader) → Extends r'.def (read_def (read_lines fraction name r' lines)))
          → Extends r.def (read_def (read_lines fraction name r (line ∷ lines)))
      go (reading r') e ih =
          rw (e, read_lines)
            (Extends-trans r.def r'.def _
              (subst (λ q. Extends r.def (read_def q)) e (read_line-Extends r line)) (ih r'))
      go (failed d) e ih =
          rw (e, read_lines) (subst (λ q. Extends r.def (read_def q)) e (read_line-Extends r line))

-- The definition that a load leaves, also where it fails.
abbrev pub loaded_def : Loaded → Definition
loaded_def (loaded d) = d
loaded_def (not_loaded d) = d

outcome-def : (q : Read) → loaded_def (outcome q) ≡ read_def q
outcome-def (reading r) = refl
outcome-def (failed d) = refl

-- Reading a unit file, to its end or up to an error, keeps all the commands and environment
-- settings that the files before it gave, in their order, and puts its own behind them.
pub load_unit_file-Extends :
    (fraction : ℕ → ℕ → ℕ → ℕ) (name : Bytes) (def : Option Definition) (content : Bytes)
    → Extends (or_empty def) (loaded_def (load_unit_file fraction name def content))
unfolding load_unit_file
load_unit_file-Extends fraction name def content =
    let lines = scan (split content b'\n') in
    let r : Reader = record { def = or_empty def; section = none_yet; concat = [] } in
    rw (outcome-def (read_lines fraction name r lines)) (read_lines-Extends fraction name r lines)
