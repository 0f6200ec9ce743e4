-- ===== src/Catalog/Valid/Links.antt =====
-- The loops of `Snapshot.Validate` over defaults and routes, and the whole.
use kokekokkor.Common.{
  String, ◌≡◌, ◌↔◌, refl, Option, none, List, [], ◌∷◌, ok, >>=-eq-ok, ◌==◌, string_eq, All, eq_iff,
  arith, Bool-cases, Option-cases, inl, inr, or_else,
}
use kokekokkor.Common.Map.{Map, lookup}
use kokekokkor.Common.Text.{trim_space}
use kokekokkor.Provider.{Protocol}
use kokekokkor.Routing.{RouteTarget}
use kokekokkor.Catalog.{
  Provider, Snapshot, Url, check_providers, check_default, check_defaults, check_target,
  check_targets, check_routes, validate,
}
use kokekokkor.Catalog.Valid.{find_provider, DefaultOk, TargetOk, RouteOk, IsValid}
use kokekokkor.Catalog.Valid.Providers.{check_providers_sound, check_providers_complete}

module _ (items : List Provider) (m : Map String Provider)
    (found : (id : String) → lookup id m ≡ find_provider id items) where
  check_default_iff :
      (p : Protocol) (id : String) → (check_default m p id ≡ ok tt) ↔ DefaultOk items (p, id)
  unfolding check_default
  check_default_iff p id = elim (Option-cases (find_provider id items)) [
    | inl e ↦ (λ h. ground (arith, found id, e), λ (known, c, f, _, _). ground (arith, e, f))
    | inr (c, e) ↦ (
      λ h. (
        ground (arith, found id, e),
        c,
        e,
        ground (arith, found id, e, eq_iff c.protocol p),
        ground (arith, found id, e),
      ),
      λ (known, d, f, speaks, on).
          let same : c ≡ d = ground (arith, e, f) in
          ground (arith, found id, same, f, eq_iff d.protocol p),
    )
  ]

  check_defaults_iff :
      (ds : Map Protocol String) → (check_defaults m ds ≡ ok tt) ↔ All (DefaultOk items) ds
  unfolding check_defaults
  check_defaults_iff [] = (λ h. tt, λ h. refl)
  check_defaults_iff ((p, id) ∷ ds) =
      let (to, from) = check_default_iff p id in
      let (to', from') = check_defaults_iff ds in
      (
        λ h. let (u, e, e') = >>=-eq-ok (check_default m p id) _ h in (to e, to' e'),
        λ (g, gs). ground (arith, from g, from' gs),
      )

  check_targets_iff :
      (model : String) (ts : List RouteTarget)
      → (check_targets m model ts ≡ ok tt) ↔ All (TargetOk items) ts
  unfolding check_targets check_target
  check_targets_iff model [] = (λ h. tt, λ h. refl)
  check_targets_iff model (t ∷ ts) =
      let (to', from') = check_targets_iff model ts in
      elim (Option-cases (find_provider t.provider_id items)) [
        | inl e ↦
            (λ h. ground (arith, found t.provider_id, e), λ ((c, f, _), _). ground (arith, e, f))
        | inr (c, e) ↦ (
          λ h. (
            (c, e, ground (arith, found t.provider_id, e)),
            to' (ground (arith, found t.provider_id, e)),
          ),
          λ g.
              let same : c ≡ g.0.0 = ground (arith, e, g.0.1) in
              ground (arith, found t.provider_id, e, same, g.0.2, from' g.1),
        )
      ]

  check_routes_iff :
      (rs : Map String (List RouteTarget)) → (check_routes m rs ≡ ok tt) ↔ All (RouteOk items) rs
  unfolding check_routes
  check_routes_iff [] = (λ h. tt, λ h. refl)
  check_routes_iff ((model, []) ∷ rs) = (λ h. ground arith, λ g. absurd (g.0.1 refl))
  check_routes_iff ((model, t ∷ ts) ∷ rs) =
      let (to, from) = check_targets_iff model (t ∷ ts) in
      let (to', from') = check_routes_iff rs in
      (
        λ h. elim (Bool-cases (trim_space model == "")) [
          | inl blank ↦ ground (arith, blank)
          | inr named ↦
              let (u, e, e') = >>=-eq-ok (check_targets m model (t ∷ ts)) _ (rw named at h) in
              ((ground (arith, named, eq_iff (trim_space model) ""), (λ p. cc), to e), to' e')
        ],
        λ g. ground (arith, eq_iff (trim_space model) "", from g.0.2, from' g.1),
      )

in_list :
    (s : Snapshot) (m : Map String Provider)
    → ((id : String) → lookup id m ≡ or_else (lookup id []) (find_provider id s.providers))
    → (id : String) → lookup id m ≡ find_provider id s.providers
unfolding lookup
in_list s m found id = found id

fresh : (items : List Provider) → All (λ item. lookup {V = Provider} item.id [] ≡ none) items
unfolding lookup
fresh [] = tt
fresh (item ∷ items) = (refl, fresh items)

-- `Snapshot.Validate` accepts exactly the catalogs that satisfy `IsValid`: every provider has a
-- non-blank ID, a known protocol and an http(s) base URL with a host; IDs are distinct; each default
-- names an enabled provider that speaks its protocol; each route has a non-blank model and at least
-- one target, and names enabled providers only.
pub validate_iff :
    (parse_url : String → Option Url) (s : Snapshot)
    → (validate parse_url s ≡ ok tt) ↔ IsValid parse_url s
unfolding validate
validate_iff parse_url s = (
  λ h.
      let (m, e, rest) = >>=-eq-ok (check_providers parse_url s.providers []) _ h in
      let (good, distinct, _, found) = check_providers_sound parse_url s.providers [] m e in
      let (u, d, r) = >>=-eq-ok (check_defaults m s.defaults) _ rest in
      record {
        providers_ok = good;
        distinct = distinct;
        defaults_ok = (check_defaults_iff s.providers m (in_list s m found) s.defaults).0 d;
        routes_ok = (check_routes_iff s.providers m (in_list s m found) s.routes).0 r;
      },
  λ v.
      let (m, e) =
        check_providers_complete parse_url s.providers [] v.providers_ok v.distinct
          (fresh s.providers) in
      let (_, _, _, found) = check_providers_sound parse_url s.providers [] m e in
      ground (
        arith,
        e,
        (check_defaults_iff s.providers m (in_list s m found) s.defaults).1 v.defaults_ok,
        (check_routes_iff s.providers m (in_list s m found) s.routes).1 v.routes_ok,
      ),
)
