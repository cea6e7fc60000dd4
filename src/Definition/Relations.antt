-- ===== src/Definition/Relations.antt =====
-- systemd/daemons/daemon.go, the dependency maps of `daemondef`: two fields are the same when their
-- numbers are.
use docker_systemd.Base.{◌≡◌, refl, sym, ap, ◌∙◌, arith, true, List, [], ◌∷◌, get_or}
use docker_systemd.Definition.{
  Relation, wants, wanted_by, requires, required_by, requisite, requisite_of, binds_to, bound_by,
  part_of, consists_of, upholds, upheld_by, conflicts, conflicted_by, before, after, on_failure,
  on_success, relation_number, same_relation,
}

abbrev relations : List Relation
relations =
    wants ∷ wanted_by ∷ requires ∷ required_by ∷ requisite ∷ requisite_of ∷ binds_to ∷ bound_by
    ∷ part_of ∷ consists_of ∷ upholds ∷ upheld_by ∷ conflicts ∷ conflicted_by ∷ before ∷ after
    ∷ on_failure ∷ on_success ∷ []

numbered : (r : Relation) → get_or relations (relation_number r) wants ≡ r
numbered wants = refl
numbered _ = refl

pub same_relation_eq : (r q : Relation) → same_relation r q ≡ true → r ≡ q
same_relation_eq r q h =
    let e : relation_number r ≡ relation_number q = ground arith in
    sym (numbered r) ∙ ap (λ n. get_or relations n wants) e ∙ numbered q

pub same_relation_self : (r : Relation) → same_relation r r ≡ true
same_relation_self wants = refl
same_relation_self _ = refl
