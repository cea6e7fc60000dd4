-- ===== src/Daemons/Link/Linked.antt =====
-- systemd/daemons/daemons.go, the loops of `Reload`: which entries they leave.
use docker_systemd.Base.{
  ◌≡◌, refl, sym, ap, ◌∙◌, subst, Bool, true, List, [], ◌∷◌, Bytes, All, Option, none, some,
}
use docker_systemd.Definition.{Relation, Links}
use docker_systemd.Daemon.State.{Daemon, System}
use docker_systemd.Daemon.Flow.{M}
use docker_systemd.Daemons.Link.{
  Row, rows, write, as_target, link_back, link_name, link_names, link_row, link_rows, link_service,
  link_services,
}
use docker_systemd.Daemons.Link.Rules.{
  Reaches, reach_then, reach_pure, reach_fact, reach_get, reach_read, reach_defined, reach_lock,
}
use docker_systemd.Daemons.Link.Entries.{resolve}
use docker_systemd.Daemons.Link.Upkept.{IsUpkept}

module _ (known : Bytes → Bool) where
  abbrev pub IsService : Bytes → Type 0
  IsService n = known n ≡ true

  -- What each write of a resolved name keeps, the loops keep.
  module _ {I : System → Type 0} (up : IsUpkept known I) where
    abbrev Keeps : {A : Type 0} → M A → Type 0
    Keeps m = Reaches I I m

    pub link_back-Keeps :
        (name : Bytes) (inverse : Relation) (dep : Bytes) (found : Option Daemon)
        → IsService name
        → Keeps (link_back name inverse dep found)
    link_back-Keeps name inverse dep none service = reach_pure _ λ s h. h
    link_back-Keeps name inverse dep (some other) service =
        let me : resolve known name ≡ some name = rw service refl in
        reach_then (reach_lock dep) λ d.
          reach_defined d.def
            λ def e. subst (λ t. Keeps (write dep inverse name t)) me (up.writes dep inverse name)

    pub link_name-Keeps :
        (name : Bytes) (r : Row) (dep : Bytes) → IsService name → Keeps (link_name name r dep)
    unfolding link_name
    link_name-Keeps name r dep service = reach_get _ λ found.
        reach_fact (as_target dep found ≡ resolve known dep)
          (λ s h. ap (as_target dep) (sym h.1) ∙ up.knows s h.0 dep)
          λ e.
            reach_then {Q = I}
              (record {
                at = λ s h.
                    (subst (λ t. Keeps (write name r.to dep t)) (sym e)
                        (up.writes name r.to dep)).at
                      s h.0;
              })
              λ _. link_back-Keeps name r.inverse dep found service

    pub link_names-Keeps :
        (name : Bytes) (r : Row) (links : Links) → IsService name → Keeps (link_names name r links)
    unfolding link_names
    link_names-Keeps name r [] service = reach_pure _ λ s h. h
    link_names-Keeps name r ((dep, _) ∷ links) service =
        reach_then (link_name-Keeps name r dep service) λ _. link_names-Keeps name r links service

    pub link_row-Keeps : (name : Bytes) (r : Row) → IsService name → Keeps (link_row name r)
    unfolding link_row
    link_row-Keeps name r service = reach_read name λ d.
        reach_defined d.def λ def e. record {
          at = λ s h. (link_names-Keeps name r (def.deps r.from) service).at s h.0;
        }

    pub link_rows-Keeps :
        (name : Bytes) (rs : List Row) → IsService name → Keeps (link_rows name rs)
    unfolding link_rows
    link_rows-Keeps name [] service = reach_pure _ λ s h. h
    link_rows-Keeps name (r ∷ rs) service =
        reach_then (link_row-Keeps name r service) λ _. link_rows-Keeps name rs service

    pub link_service-Keeps : (name : Bytes) → IsService name → Keeps (link_service name)
    unfolding link_service
    link_service-Keeps name service = reach_then (reach_lock name) λ _.
        reach_then (up.flags name _)
          λ _. reach_then (link_rows-Keeps name rows service) λ _. up.flags name _

    pub link_services-Keeps :
        (names : List Bytes) → All IsService names → Keeps (link_services names)
    unfolding link_services
    link_services-Keeps [] services = reach_pure _ λ s h. h
    link_services-Keeps (name ∷ names) services =
        reach_then (link_service-Keeps name services.0) λ _. link_services-Keeps names services.1
