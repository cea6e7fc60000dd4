-- ===== src/Daemons/Link.antt =====
-- systemd/daemons/daemons.go, the end of `Reload`: the names in the dependency maps of every service
-- are resolved to services, and each dependency is entered in the map of the other side.
pub mod Rules
pub mod Entries
pub mod Upkept
pub mod Linked
pub mod Resolved
pub mod Ends
pub mod Total
pub mod Table
pub mod Answers
mod Tests
use docker_systemd.Base.{Bool, true, false, List, [], ◌∷◌, Bytes, Option, none, some, if◌then◌else◌}
use docker_systemd.Definition.{
  Relation, wants, wanted_by, requires, required_by, requisite, requisite_of, binds_to, bound_by,
  part_of, consists_of, upholds, upheld_by, conflicts, conflicted_by, before, after, on_failure,
  on_success, Links, set_link, Definition, with_deps,
}
use docker_systemd.Daemon.State.{Daemon, System, find}
use docker_systemd.Daemon.Flow.{M, pure, ◌>>=◌, ◌>>◌, get, read, modify, defined, lock}
use docker_systemd.Daemon.Start.Stages.{set_def}

-- One of the loops: the map that is read, the map in which its names are resolved, and the map of the
-- other service.
pub record Row : Type 0 where
  pub from : Relation
  pub to : Relation
  pub inverse : Relation

abbrev pub row : Relation → Relation → Row
row r q = record { from = r; to = r; inverse = q }

-- The loops, in the order of the source.
abbrev pub rows : List Row
rows =
    row requires required_by
    ∷ row required_by requires
    ∷ row wants wanted_by
    ∷ row wanted_by wants
    ∷ record { from = requisite; to = requires; inverse = requisite_of }
    ∷ row requisite_of requisite
    ∷ row binds_to bound_by
    ∷ row bound_by binds_to
    ∷ row part_of consists_of
    ∷ row consists_of part_of
    ∷ row upholds upheld_by
    ∷ row upheld_by upholds
    ∷ row conflicts conflicted_by
    ∷ row conflicted_by conflicts
    ∷ row before after
    ∷ row after before
    ∷ row on_failure on_success
    ∷ row on_success on_failure
    ∷ []

abbrev pub put_link : Relation → Bytes → Option Bytes → Definition → Definition
put_link r key target def = with_deps r (set_link key target (def.deps r)) def

-- `d.def.R[key] = target`
unfoldable pub write : Bytes → Relation → Bytes → Option Bytes → M (Unit {0})
write name r key target =
    modify name (λ d. record d { def = set_def (put_link r key target) d.def })

-- `ds.list[depName]`, which is nil where there is no such service.
abbrev pub as_target : Bytes → Option Daemon → Option Bytes
as_target dep none = none
as_target dep (some d) = some dep

-- The entry of the other service, if there is one.
abbrev pub link_back : Bytes → Relation → Bytes → Option Daemon → M (Unit {0})
link_back name inverse dep none = pure tt
link_back name inverse dep (some _) = do
  d ← lock dep
  defined d.def
  write dep inverse name (some name)

-- One round of a loop.
unfoldable pub link_name : Bytes → Row → Bytes → M (Unit {0})
link_name name r dep = do
  found ← get (λ s. find dep s.list)
  write name r.to dep (as_target dep found)
  link_back name r.inverse dep found

unfoldable pub link_names : Bytes → Row → Links → M (Unit {0})
link_names name r [] = pure tt
link_names name r ((dep, _) ∷ links) = do link_name name r dep; link_names name r links

-- One of the loops over the names in a map.
unfoldable pub link_row : Bytes → Row → M (Unit {0})
link_row name r = do d ← read name; def ← defined d.def; link_names name r (def.deps r.from)

unfoldable pub link_rows : Bytes → List Row → M (Unit {0})
link_rows name [] = pure tt
link_rows name (r ∷ more) = do link_row name r; link_rows name more

abbrev pub set_held : Bool → Daemon → Daemon
set_held h d = record d { held = h }

-- The loops of one service, with its mutex locked.
unfoldable pub link_service : Bytes → M (Unit {0})
link_service name = do
  lock name
  modify name (set_held true)
  link_rows name rows
  modify name (set_held false)

unfoldable pub link_services : List Bytes → M (Unit {0})
link_services [] = pure tt
link_services (name ∷ names) = do link_service name; link_services names

abbrev pub names_of : List (Bytes × Daemon) → List Bytes
names_of [] = []
names_of ((n, d) ∷ list) = n ∷ names_of list

-- The loop over `ds.list`.
unfoldable pub link_all : M (Unit {0})
link_all = do names ← get (λ s. names_of s.list); link_services names
