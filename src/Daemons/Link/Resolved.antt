-- ===== src/Daemons/Link/Resolved.antt =====
-- systemd/daemons/daemons.go, the loops of `Reload`: every name that they read is resolved.
use docker_systemd.Base.{
  ◌≡◌, ◌⊎◌, refl, sym, subst, inl, inr, Bool, List, [], ◌∷◌, Bytes, All, Option, some, Bool-cases,
}
use docker_systemd.Text.{equal}
use docker_systemd.Text.Laws.{equal_iff}
use docker_systemd.Definition.{Links, link}
use docker_systemd.Daemon.State.{System}
use docker_systemd.Daemons.Link.{
  Row, rows, link_name, link_names, link_row, link_rows, link_service, link_services,
}
use docker_systemd.Daemons.Link.Rules.{Reaches, reach_then, reach_read, reach_defined, reach_lock}
use docker_systemd.Daemons.Link.Entries.{resolve, IsKnown, Kept}
use docker_systemd.Daemons.Link.Upkept.{IsUpkept, Known-IsUpkept, Kept-IsUpkept}
use docker_systemd.Daemons.Link.Linked.{
  IsService, link_name-Keeps, link_names-Keeps, link_row-Keeps, link_rows-Keeps, link_service-Keeps,
  link_services-Keeps,
}

abbrev pub OneOf : {A : Type 0} → A → List A → Type 0
OneOf a [] = ⊥
OneOf a (x ∷ xs) = (a ≡ x) ⊎ OneOf a xs

-- The entry is there.
abbrev pub HasEntry : Option (Option Bytes) → Type 0
HasEntry t = (u : Option Bytes) × (t ≡ some u)

-- From one round on the name `y` of a service `x` to the whole of the loops.
module _ (known : Bytes → Bool) (x : Bytes) (r : Row) (y : Bytes) {T : System → Type 0}
    (up : IsUpkept known T) (service : IsService known x)
    (visit : Reaches (IsKnown known) T (link_name x r y)) where
  link_names-Reaches :
      (links : Links) (t : Option Bytes)
      → link y links ≡ some t
      → Reaches (IsKnown known) T (link_names x r links)
  unfolding link_names link
  link_names-Reaches [] t e = absurd (cc)
  link_names-Reaches ((dep, u) ∷ links) t e = elim (Bool-cases (equal dep y)) [
    | inl same ↦
        reach_then
          (subst (λ z. Reaches (IsKnown known) T (link_name x r z)) (sym ((equal_iff dep y).0 same))
            visit)
          λ _. link_names-Keeps known up x r links service
    | inr other ↦
        reach_then (link_name-Keeps known (Known-IsUpkept known) x r dep service)
          λ _. link_names-Reaches links t (rw other at e)
  ]

  link_row-Reaches : Reaches (Kept known x r.from y HasEntry) T (link_row x r)
  unfolding link_row
  link_row-Reaches = reach_read x λ d. reach_defined d.def λ def e. record {
    at = λ s h.
        let (t, is) = h.0.1 d def h.1 e in (link_names-Reaches (def.deps r.from) t is).at s h.0.0;
  }

  HasEntry-IsUpkept : IsUpkept known (Kept known x r.from y HasEntry)
  HasEntry-IsUpkept = Kept-IsUpkept known x r.from y HasEntry (resolve known y, refl)

  link_rows-Reaches :
      (rs : List Row) → OneOf r rs → Reaches (Kept known x r.from y HasEntry) T (link_rows x rs)
  unfolding link_rows
  link_rows-Reaches [] h = elim h [ ]
  link_rows-Reaches (r' ∷ rs) (inl same) =
      reach_then
        (subst (λ z. Reaches (Kept known x r.from y HasEntry) T (link_row x z)) same
          link_row-Reaches)
        λ _. link_rows-Keeps known up x rs service
  link_rows-Reaches (r' ∷ rs) (inr later) =
      reach_then (link_row-Keeps known HasEntry-IsUpkept x r' service)
        λ _. link_rows-Reaches rs later

  module _ (is_row : OneOf r rows) where
    link_service-Reaches : Reaches (Kept known x r.from y HasEntry) T (link_service x)
    unfolding link_service
    link_service-Reaches = reach_then (reach_lock x) λ _.
        reach_then (HasEntry-IsUpkept.flags x _)
          λ _. reach_then (link_rows-Reaches rows is_row) λ _. up.flags x _

    pub link_services-Reaches :
        (names : List Bytes)
        → OneOf x names
        → All (IsService known) names
        → Reaches (Kept known x r.from y HasEntry) T (link_services names)
    unfolding link_services
    link_services-Reaches [] h services = elim h [ ]
    link_services-Reaches (n ∷ names) (inl same) services =
        reach_then
          (subst (λ z. Reaches (Kept known x r.from y HasEntry) T (link_service z)) same
            link_service-Reaches)
          λ _. link_services-Keeps known up names services.1
    link_services-Reaches (n ∷ names) (inr later) services =
        reach_then (link_service-Keeps known HasEntry-IsUpkept n services.0)
          λ _. link_services-Reaches names later services.1
