-- ===== src/Catalog/Routable.antt =====
-- A valid catalog is one that the router accepts, and the router then serves what it says.
use kokekokkor.Common.{
  String, true, ◌≡◌, ◌≢◌, refl, inl, inr, Option, some, List, [], ◌∷◌, ◌==◌, string_eq, All,
  All-map, eq_iff, arith, Bool-cases, ◌∙◌,
}
use kokekokkor.Common.Map.{Map, lookup, IsUnique}
use kokekokkor.Common.Text.{trim_space}
use kokekokkor.Provider.{Protocol, Target, effective_protocol, is_known_protocol}
use kokekokkor.Routing.{RouteTarget}
use kokekokkor.Routing.Accepts.{
  find_target, TargetsOk, DefaultLinks, TargetLinks, RouteLinks, Acceptable,
}
use kokekokkor.Catalog.{Provider, Snapshot, Url, credential_of, routing_targets}
use kokekokkor.Catalog.Valid.{
  find_provider, ProviderOk, HasDistinctIds, DefaultOk, TargetOk, RouteOk, IsValid,
}

-- The target that stands for a provider.
abbrev pub target_of : Map String String → Provider → Target
target_of credentials item = record {
  id = item.id;
  protocol = item.protocol;
  base_url = item.base_url;
  api_key = credential_of credentials item.id;
}

pub trim_nonempty : (s : String) → trim_space s ≢ "" → s ≢ ""
unfolding trim_space
trim_nonempty s h e = h (rw e refl)

pub effective_known :
    (t : Target) → is_known_protocol t.protocol ≡ true → effective_protocol t ≡ t.protocol
unfolding effective_protocol is_known_protocol
effective_known t h = elim (Bool-cases (t.protocol == "")) [
  | inl unset ↦
      let unknown : is_known_protocol "" ≡ true = rw ((eq_iff t.protocol "").0 unset) at h in cc
  | inr set ↦ rw set
]

module _ (parse_url : String → Option Url) (credentials : Map String String) where
  apart_targets :
      (item : Provider) (items : List Provider)
      → All (λ other. item.id ≢ other.id) items
      → All (λ u. item.id ≢ u.id) (routing_targets items credentials)
  unfolding routing_targets
  apart_targets item [] h = tt
  apart_targets item (o ∷ items) (ne, h) = elim (Bool-cases o.enabled) [
    | inl on ↦ rw on (ne, apart_targets item items h)
    | inr off ↦ rw off (apart_targets item items h)
  ]

  routing_targets-TargetsOk :
      (items : List Provider)
      → All (ProviderOk parse_url) items
      → HasDistinctIds items
      → TargetsOk (routing_targets items credentials)
  unfolding routing_targets
  routing_targets-TargetsOk [] g d = tt
  routing_targets-TargetsOk (item ∷ items) ((named, known, _), g) (apart, d) =
      let rest = routing_targets-TargetsOk items g d in
      elim (Bool-cases item.enabled) [
        | inl on ↦ rw on (
          trim_nonempty item.id named,
          rw (effective_known (target_of credentials item) known) known,
          apart_targets item items apart,
          rest,
        )
        | inr off ↦ rw off rest
      ]

  -- The router finds an enabled provider's target under the provider's ID.
  pub find_target-find_provider :
      (items : List Provider) (id : String) (c : Provider)
      → All (ProviderOk parse_url) items
      → find_provider id items ≡ some c
      → c.enabled ≡ true
      → find_target id (routing_targets items credentials) ≡ some (target_of credentials c)
  unfolding find_target find_provider routing_targets
  find_target-find_provider [] id c g e on = cc
  find_target-find_provider (item ∷ items) id c ((named, known, _), g) e on =
      let same = effective_known (target_of credentials item) known in
      elim (Bool-cases (item.id == id)) [
        | inl here ↦ ground (arith, here, same)
        | inr there ↦
            ground (arith, there, find_target-find_provider items id c g (rw there at e) on)
      ]

  find_provider-id :
      (items : List Provider) (id : String) (c : Provider)
      → find_provider id items ≡ some c
      → c.id ≡ id
  unfolding find_provider
  find_provider-id [] id c e = cc
  find_provider-id (item ∷ items) id c e =
      ground (arith, eq_iff item.id id, find_provider-id items id c)

  -- The IDs that a valid catalog's providers have are not empty.
  found_named :
      (items : List Provider) (id : String) (c : Provider)
      → All (ProviderOk parse_url) items
      → find_provider id items ≡ some c
      → id ≢ ""
  unfolding find_provider
  found_named [] id c g e = cc
  found_named (item ∷ items) id c ((named, _, _), g) e = elim (Bool-cases (item.id == id)) [
    | inl here ↦ rw (← ((eq_iff item.id id).0 here)) (trim_nonempty item.id named)
    | inr there ↦ found_named items id c g (rw there at e)
  ]

  module _ (s : Snapshot) (valid : IsValid parse_url s) where
    module _ (m : Map String Target)
        (found : (id : String)
          → lookup id m ≡ find_target id (routing_targets s.providers credentials)) where
      link :
          (id : String) (c : Provider)
          → find_provider id s.providers ≡ some c
          → c.enabled ≡ true
          → lookup id m ≡ some (target_of credentials c)
      link id c e on = found id ∙ find_target-find_provider s.providers id c valid.providers_ok e on

      default_links : (d : Protocol × String) → DefaultOk s.providers d → DefaultLinks m d
      default_links (p, id) (known, c, e, speaks, on) = (
        found_named s.providers id c valid.providers_ok e,
        known,
        target_of credentials c,
        link id c e on,
        speaks,
      )

      target_links : (r : RouteTarget) → TargetOk s.providers r → TargetLinks m r
      target_links r (c, e, on) = (
        found_named s.providers r.provider_id c valid.providers_ok e,
        target_of credentials c,
        link r.provider_id c e on,
      )

      route_links : (r : String × List RouteTarget) → RouteOk s.providers r → RouteLinks m r
      route_links (model, route) (named, some_target, g) =
          (trim_nonempty model named, some_target, All-map _ _ target_links route g)

    -- What `routingInputs` makes of a valid catalog is acceptable to the router.
    pub routing_inputs-Acceptable :
        IsUnique s.defaults
        → IsUnique s.routes
        → Acceptable (routing_targets s.providers credentials) s.defaults s.routes
    routing_inputs-Acceptable u v = record {
      targets_ok = routing_targets-TargetsOk s.providers valid.providers_ok valid.distinct;
      defaults_ok = λ m found. All-map _ _ (default_links m found) s.defaults valid.defaults_ok;
      routes_ok = λ m found. All-map _ _ (route_links m found) s.routes valid.routes_ok;
      unique = (u, v);
    }
