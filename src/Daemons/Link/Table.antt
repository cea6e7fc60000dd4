-- ===== src/Daemons/Link/Table.antt =====
-- systemd/daemons/daemons.go, the loops of `Reload`: the map that each loop writes, and the map of the
-- other service, for every map of a service.
use docker_systemd.Base.{refl, inl, inr}
use docker_systemd.Definition.{
  Relation, wants, wanted_by, requires, required_by, requisite, requisite_of, binds_to, bound_by,
  part_of, consists_of, upholds, upheld_by, conflicts, conflicted_by, before, after, on_failure,
  on_success,
}
use docker_systemd.Daemons.Link.{Row, rows}
use docker_systemd.Daemons.Link.Resolved.{OneOf}

-- The map of a service in which the names of a map are resolved.
abbrev pub target_map : Relation → Relation
target_map requisite = requires
target_map q = q

-- The map of the other service.
abbrev pub inverse_map : Relation → Relation
inverse_map wants = wanted_by
inverse_map wanted_by = wants
inverse_map requires = required_by
inverse_map required_by = requires
inverse_map requisite = requisite_of
inverse_map requisite_of = requisite
inverse_map binds_to = bound_by
inverse_map bound_by = binds_to
inverse_map part_of = consists_of
inverse_map consists_of = part_of
inverse_map upholds = upheld_by
inverse_map upheld_by = upholds
inverse_map conflicts = conflicted_by
inverse_map conflicted_by = conflicts
inverse_map before = after
inverse_map after = before
inverse_map on_failure = on_success
inverse_map on_success = on_failure

abbrev pub row_of : Relation → Row
row_of q = record { from = q; to = target_map q; inverse = inverse_map q }

-- There is a loop for each of the maps.
pub row_of-rows : (q : Relation) → OneOf (row_of q) rows
row_of-rows wants = inr (inr (inl refl))
row_of-rows wanted_by = inr (inr (inr (inl refl)))
row_of-rows requires = inl refl
row_of-rows required_by = inr (inl refl)
row_of-rows requisite = inr (inr (inr (inr (inl refl))))
row_of-rows requisite_of = inr (inr (inr (inr (inr (inl refl)))))
row_of-rows binds_to = inr (inr (inr (inr (inr (inr (inl refl))))))
row_of-rows bound_by = inr (inr (inr (inr (inr (inr (inr (inl refl)))))))
row_of-rows part_of = inr (inr (inr (inr (inr (inr (inr (inr (inl refl))))))))
row_of-rows consists_of = inr (inr (inr (inr (inr (inr (inr (inr (inr (inl refl)))))))))
row_of-rows upholds = inr (inr (inr (inr (inr (inr (inr (inr (inr (inr (inl refl))))))))))
row_of-rows upheld_by = inr (inr (inr (inr (inr (inr (inr (inr (inr (inr (inr (inl refl)))))))))))
row_of-rows conflicts =
    inr (inr (inr (inr (inr (inr (inr (inr (inr (inr (inr (inr (inl refl))))))))))))
row_of-rows conflicted_by =
    inr (inr (inr (inr (inr (inr (inr (inr (inr (inr (inr (inr (inr (inl refl)))))))))))))
row_of-rows before =
    inr (inr (inr (inr (inr (inr (inr (inr (inr (inr (inr (inr (inr (inr (inl refl))))))))))))))
row_of-rows after =
    inr
      (inr (inr (inr (inr (inr (inr (inr (inr (inr (inr (inr (inr (inr (inr (inl refl)))))))))))))))
row_of-rows on_failure = inr (
    inr (
      inr (inr (inr (inr (inr (inr (inr (inr (inr (inr (inr (inr (inr (inr (inl refl))))))))))))))))
row_of-rows on_success = inr (
    inr (
      inr (
        inr (
          inr (inr (inr (inr (inr (inr (inr (inr (inr (inr (inr (inr (inr (inl refl)))))))))))))))))
