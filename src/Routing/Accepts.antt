-- ===== src/Routing/Accepts.antt =====
-- The inputs that `buildSnapshot` is sure to accept, and what the snapshot's maps then hold.
use kokekokkor.Common.{
  String, true, ◌≡◌, ◌≢◌, refl, ◌∙◌, Option, none, some, List, [], ◌∷◌, ok, ◌==◌, string_eq,
  if◌then◌else◌, All, eq_iff, arith, or_else, or_else-none,
}
use kokekokkor.Common.Map.{Map, lookup, IsUnique, insert, lookup-insert, has_key-lookup}
use kokekokkor.Provider.{Protocol, Target, effective_protocol, is_known_protocol}
use kokekokkor.Routing.{
  RouteTarget, Snapshot, build_providers, check_default, build_defaults, check_targets, check_route,
  build_routes, build_snapshot,
}
use kokekokkor.Routing.Built.{with_protocol}

-- The target that a list gives for an ID: the first with that ID.
unfoldable pub find_target : String → List Target → Option Target
find_target id [] = none
find_target id (t ∷ ts) = if t.id == id then some (with_protocol t) else find_target id ts

abbrev pub TargetsOk : List Target → Type 0
TargetsOk [] = Unit {0}
TargetsOk (t ∷ ts) =
    (t.id ≢ "")
    × (is_known_protocol (effective_protocol t) ≡ true)
    × All (λ u. t.id ≢ u.id) ts
    × TargetsOk ts

abbrev IsFresh : Map String Target → List Target → Type 0
IsFresh acc = All λ t. lookup t.id acc ≡ none

IsFresh-insert :
    (id : String) (v : Target) (ts : List Target) (acc : Map String Target)
    → IsFresh acc ts
    → All (λ u. id ≢ u.id) ts
    → IsFresh (insert id v acc) ts
IsFresh-insert id v [] acc h d = tt
IsFresh-insert id v (t ∷ ts) acc (e, h) (ne, d) =
    (ground (arith, lookup-insert id t.id v acc, eq_iff id t.id), IsFresh-insert id v ts acc h d)

build_providers_complete :
    (ts : List Target) (acc : Map String Target)
    → TargetsOk ts
    → IsFresh acc ts
    → (m : Map String Target) × (build_providers ts acc ≡ ok m)
      × ((id : String) → lookup id m ≡ or_else (lookup id acc) (find_target id ts))
unfolding build_providers find_target
build_providers_complete [] acc g f = (acc, refl, λ id. ground arith)
build_providers_complete (t ∷ ts) acc (ne, known, apart, g) (fresh, f) =
    let (m, e, found) =
      build_providers_complete ts (insert t.id (with_protocol t) acc) g
        (IsFresh-insert t.id (with_protocol t) ts acc f apart) in
    (
      m,
      ground (arith, eq_iff t.id "", fresh, known, e),
      λ id.
          ground
            (arith, found id, lookup-insert t.id id (with_protocol t) acc, eq_iff t.id id, fresh),
    )

module _ (providers : Map String Target) where
  abbrev pub DefaultLinks : Protocol × String → Type 0
  DefaultLinks d =
      (d.1 ≢ "")
      × (is_known_protocol d.0 ≡ true)
      × (t : Target) × (lookup d.1 providers ≡ some t)
      × (t.protocol ≡ d.0)

  abbrev pub TargetLinks : RouteTarget → Type 0
  TargetLinks r = (r.provider_id ≢ "") × (t : Target) × (lookup r.provider_id providers ≡ some t)

  abbrev pub RouteLinks : String × List RouteTarget → Type 0
  RouteLinks r = (r.0 ≢ "") × (r.1 ≢ []) × All TargetLinks r.1

  build_defaults_complete :
      (ds acc : Map Protocol String)
      → All DefaultLinks ds
      → IsUnique ds
      → (m : Map Protocol String) × (build_defaults providers ds acc ≡ ok m)
        × ((p : Protocol) → lookup p m ≡ or_else (lookup p ds) (lookup p acc))
  unfolding build_defaults check_default lookup
  build_defaults_complete [] acc g u = (acc, refl, λ p. refl)
  build_defaults_complete ((p, id) ∷ ds) acc ((ne, known, t, found, speaks), g) (once, u) =
      let (m, e, held) = build_defaults_complete ds (insert p id acc) g u in
      (
        m,
        ground (arith, eq_iff id "", known, found, speaks, eq_iff t.protocol p, e),
        λ q. ground (arith, held q, lookup-insert p q id acc, eq_iff p q, has_key-lookup p ds once),
      )

  check_targets_complete :
      (model : String) (ts : List RouteTarget)
      → All TargetLinks ts
      → check_targets providers model ts ≡ ok tt
  unfolding check_targets
  check_targets_complete model [] g = refl
  check_targets_complete model (r ∷ ts) ((ne, t, found), g) =
      ground (arith, eq_iff r.provider_id "", found, check_targets_complete model ts g)

  check_route_complete :
      (model : String) (route : List RouteTarget)
      → RouteLinks (model, route)
      → check_route providers model route ≡ ok tt
  unfolding check_route
  check_route_complete model [] (ne, some_target, g) = absurd (some_target refl)
  check_route_complete model (r ∷ route) (ne, _, g) =
      ground (arith, eq_iff model "", check_targets_complete model (r ∷ route) g)

  build_routes_complete :
      (rs acc : Map String (List RouteTarget))
      → All RouteLinks rs
      → IsUnique rs
      → (m : Map String (List RouteTarget)) × (build_routes providers rs acc ≡ ok m)
        × ((n : String) → lookup n m ≡ or_else (lookup n rs) (lookup n acc))
  unfolding build_routes lookup
  build_routes_complete [] acc g u = (acc, refl, λ p. refl)
  build_routes_complete ((model, route) ∷ rs) acc (r, g) (once, u) =
      let (m, e, held) = build_routes_complete rs (insert model route acc) g u in
      (
        m,
        ground (arith, check_route_complete model route r, e),
        λ n. ground (
          arith,
          held n,
          lookup-insert model n route acc,
          eq_iff model n,
          has_key-lookup model rs once,
        ),
      )

-- Consistent inputs, stated over the lists themselves.
pub record Acceptable (ts : List Target) (ds : Map Protocol String)
    (rs : Map String (List RouteTarget)) : Type 0 where
  pub targets_ok : TargetsOk ts
  pub defaults_ok :
      (m : Map String Target)
      → ((id : String) → lookup id m ≡ find_target id ts)
      → All (DefaultLinks m) ds
  pub routes_ok :
      (m : Map String Target)
      → ((id : String) → lookup id m ≡ find_target id ts)
      → All (RouteLinks m) rs
  pub unique : IsUnique ds × IsUnique rs

fresh : (ts : List Target) → IsFresh [] ts
unfolding lookup
fresh [] = tt
fresh (t ∷ ts) = (refl, fresh ts)

-- On consistent inputs `buildSnapshot` succeeds, and each map of the snapshot looks up what the
-- input list gives.
pub build_snapshot_complete :
    (ts : List Target) (ds : Map Protocol String) (rs : Map String (List RouteTarget))
    → Acceptable ts ds rs
    → (s : Snapshot) × (build_snapshot ts ds rs ≡ ok s)
      × ((id : String) → lookup id s.providers ≡ find_target id ts)
      × ((p : Protocol) → lookup p s.default_provider_ids ≡ lookup p ds)
      × ((n : String) → lookup n s.model_routes ≡ lookup n rs)
unfolding build_snapshot lookup
build_snapshot_complete ts ds rs good =
    let (ps, e₁, found) = build_providers_complete ts [] good.targets_ok (fresh ts) in
    let (dm, e₂, held) =
      build_defaults_complete ps ds [] (good.defaults_ok ps found) good.unique.0 in
    let (rm, e₃, kept) = build_routes_complete ps rs [] (good.routes_ok ps found) good.unique.1 in
    (
      record { providers = ps; model_routes = rm; default_provider_ids = dm },
      rw (e₁, e₂, e₃),
      found,
      λ p. held p ∙ or_else-none _,
      λ n. kept n ∙ or_else-none _,
    )
