-- ===== src/Routing/Built.antt =====
-- What `buildSnapshot` accepts, and what every snapshot that it builds satisfies.
use kokekokkor.Common.{
  String, true, false, ◌≡◌, ◌≢◌, inl, inr, none, some, List, [], ◌∷◌, ok, >>=-eq-ok, ◌==◌,
  string_eq, eq_iff, arith, All, Bool-cases, Option-cases,
}
use kokekokkor.Common.Map.{Map, lookup, insert, IsUnique, lookup-insert, insert-IsUnique}
use kokekokkor.Provider.{Protocol, Target, effective_protocol, is_known_protocol}
use kokekokkor.Routing.{
  RouteTarget, Snapshot, build_providers, check_default, build_defaults, check_targets, check_route,
  build_routes, build_snapshot,
}

abbrev pub ProviderOk : String → Target → Type 0
ProviderOk id t = (t.id ≡ id) × (id ≢ "") × (is_known_protocol t.protocol ≡ true)

abbrev pub ProvidersOk : Map String Target → Type 0
ProvidersOk m = (id : String) (t : Target) → lookup id m ≡ some t → ProviderOk id t

abbrev pub DefaultOk : Map String Target → Protocol → String → Type 0
DefaultOk providers p id =
    (id ≢ "") × (t : Target) × (lookup id providers ≡ some t) × (t.protocol ≡ p)

abbrev pub DefaultsOk : Map String Target → Map Protocol String → Type 0
DefaultsOk providers m =
    (p : Protocol) (id : String) → lookup p m ≡ some id → DefaultOk providers p id

abbrev pub TargetOk : Map String Target → RouteTarget → Type 0
TargetOk providers r = (t : Target) × (lookup r.provider_id providers ≡ some t)

abbrev pub RouteOk : Map String Target → String → List RouteTarget → Type 0
RouteOk providers model route = (model ≢ "") × (route ≢ []) × All (TargetOk providers) route

abbrev pub RoutesOk : Map String Target → Map String (List RouteTarget) → Type 0
RoutesOk providers m =
    (model : String) (route : List RouteTarget)
    → lookup model m ≡ some route
    → RouteOk providers model route

pub record IsBuilt (s : Snapshot) : Type 0 where
  pub providers_ok : ProvidersOk s.providers
  pub defaults_ok : DefaultsOk s.providers s.default_provider_ids
  pub routes_ok : RoutesOk s.providers s.model_routes
  pub unique : IsUnique s.providers × IsUnique s.default_provider_ids × IsUnique s.model_routes

insert-ProvidersOk :
    (t : Target) (m : Map String Target)
    → (t.id == "") ≡ false
    → is_known_protocol t.protocol ≡ true
    → ProvidersOk m
    → ProvidersOk (insert t.id t m)
insert-ProvidersOk t m ne known h id u e =
    ground (arith, lookup-insert t.id id t m, eq_iff t.id id, eq_iff t.id "", eq_iff id "", h id u)

abbrev pub with_protocol : Target → Target
with_protocol t = record t { protocol = effective_protocol t }

-- One round of the first loop, read backwards.
build_providers_step :
    (t : Target) (ts : List Target) (acc m : Map String Target)
    → build_providers (t ∷ ts) acc ≡ ok m
    → ((t.id == "") ≡ false)
      × (lookup t.id acc ≡ none)
      × (is_known_protocol (effective_protocol t) ≡ true)
      × (build_providers ts (insert t.id (with_protocol t) acc) ≡ ok m)
unfolding build_providers
build_providers_step t ts acc m e = ground arith

build_providers_sound :
    (ts : List Target) (acc m : Map String Target)
    → build_providers ts acc ≡ ok m
    → ProvidersOk acc
    → IsUnique acc
    → ProvidersOk m × IsUnique m
unfolding build_providers
build_providers_sound [] acc m e h u = let same : acc ≡ m = ground arith in rw (← same) (h, u)
build_providers_sound (t ∷ ts) acc m e h u =
    let (ne, fresh, known, rest) = build_providers_step t ts acc m e in
    build_providers_sound ts _ m rest (insert-ProvidersOk (with_protocol t) acc ne known h)
      (insert-IsUnique t.id (with_protocol t) acc u)

module _ (providers : Map String Target) where
  check_default_sound :
      (p : Protocol) (id : String)
      → (id == "") ≡ false
      → check_default providers p id ≡ ok tt
      → DefaultOk providers p id
  unfolding check_default
  check_default_sound p id ne e = elim (Option-cases (lookup id providers)) [
    | inl missing ↦ ground arith
    | inr (t, found) ↦ (ground (arith, eq_iff id ""), t, found, ground (arith, eq_iff t.protocol p))
  ]

  insert-DefaultsOk :
      (p : Protocol) (id : String) (m : Map Protocol String)
      → DefaultOk providers p id
      → DefaultsOk providers m
      → DefaultsOk providers (insert p id m)
  insert-DefaultsOk p id m good h q j e = elim (Bool-cases (p == q)) [
    | inl same ↦
        let p≡q : p ≡ q = (eq_iff p q).0 same in
        let id≡j : id ≡ j = ground (arith, lookup-insert p q id m) in rw (← p≡q, ← id≡j) good
    | inr other ↦ h q j (ground (arith, lookup-insert p q id m))
  ]

  build_defaults_sound :
      (ds acc m : Map Protocol String)
      → build_defaults providers ds acc ≡ ok m
      → DefaultsOk providers acc
      → IsUnique acc
      → DefaultsOk providers m × IsUnique m
  unfolding build_defaults
  build_defaults_sound [] acc m e h u = let same : acc ≡ m = ground arith in rw (← same) (h, u)
  build_defaults_sound ((p, id) ∷ ds) acc m e h u = elim (Bool-cases (id == "")) [
    | inl skipped ↦ build_defaults_sound ds acc m (rw skipped at e) h u
    | inr ne ↦
        let (tt', checked, rest) = >>=-eq-ok (check_default providers p id) _ (rw ne at e) in
        build_defaults_sound ds _ m rest
          (insert-DefaultsOk p id acc (check_default_sound p id ne checked) h)
          (insert-IsUnique p id acc u)
  ]

  check_targets_sound :
      (model : String) (ts : List RouteTarget)
      → check_targets providers model ts ≡ ok tt
      → All (TargetOk providers) ts
  unfolding check_targets
  check_targets_sound model [] e = tt
  check_targets_sound model (t ∷ ts) e = elim (Option-cases (lookup t.provider_id providers)) [
    | inl missing ↦ ground arith
    | inr (target, found) ↦ ((target, found), check_targets_sound model ts (ground arith))
  ]

  check_route_sound :
      (model : String) (route : List RouteTarget)
      → check_route providers model route ≡ ok tt
      → RouteOk providers model route
  unfolding check_route
  check_route_sound model [] e = ground arith
  check_route_sound model (t ∷ ts) e = (
    ground (arith, eq_iff model ""),
    (λ h. cc),
    check_targets_sound model (t ∷ ts) (ground arith),
  )

  insert-RoutesOk :
      (model : String) (route : List RouteTarget) (m : Map String (List RouteTarget))
      → RouteOk providers model route
      → RoutesOk providers m
      → RoutesOk providers (insert model route m)
  insert-RoutesOk model route m good h n r e = elim (Bool-cases (model == n)) [
    | inl same ↦
        let model≡n : model ≡ n = (eq_iff model n).0 same in
        let route≡r : route ≡ r = ground (arith, lookup-insert model n route m) in
        rw (← model≡n, ← route≡r) good
    | inr other ↦ h n r (ground (arith, lookup-insert model n route m))
  ]

  build_routes_sound :
      (rs acc m : Map String (List RouteTarget))
      → build_routes providers rs acc ≡ ok m
      → RoutesOk providers acc
      → IsUnique acc
      → RoutesOk providers m × IsUnique m
  unfolding build_routes
  build_routes_sound [] acc m e h u = let same : acc ≡ m = ground arith in rw (← same) (h, u)
  build_routes_sound ((model, route) ∷ rs) acc m e h u =
      let (tt', checked, rest) = >>=-eq-ok (check_route providers model route) _ e in
      build_routes_sound rs _ m rest
        (insert-RoutesOk model route acc (check_route_sound model route checked) h)
        (insert-IsUnique model route acc u)

-- The three parts of a snapshot that was built.
pub build_snapshot_parts :
    (ts : List Target) (ds : Map Protocol String) (rs : Map String (List RouteTarget))
    (s : Snapshot)
    → build_snapshot ts ds rs ≡ ok s
    → (build_providers ts [] ≡ ok s.providers)
      × (build_defaults s.providers ds [] ≡ ok s.default_provider_ids)
      × (build_routes s.providers rs [] ≡ ok s.model_routes)
unfolding build_snapshot
build_snapshot_parts ts ds rs s e =
    let (providers, p, e₁) = >>=-eq-ok (build_providers ts []) _ e in
    let (defaults, d, e₂) = >>=-eq-ok (build_defaults providers ds []) _ e₁ in
    let (routes, r, e₃) = >>=-eq-ok (build_routes providers rs []) _ e₂ in
    ground (arith, p, d, r, e₃)

-- Whatever the inputs, a snapshot that `buildSnapshot` returns is consistent: each provider stands
-- under its own non-empty ID with one of the three protocols, each default and each route target
-- names a provider of the snapshot, a default's provider speaks the default's protocol, no route is
-- empty or unnamed, and no key stands twice.
pub build_snapshot-IsBuilt :
    (ts : List Target) (ds : Map Protocol String) (rs : Map String (List RouteTarget))
    (s : Snapshot)
    → build_snapshot ts ds rs ≡ ok s
    → IsBuilt s
unfolding lookup
build_snapshot-IsBuilt ts ds rs s e =
    let (p, d, r) = build_snapshot_parts ts ds rs s e in
    let (providers_ok, unique₁) = build_providers_sound ts [] s.providers p (λ id t h. cc) tt in
    let (defaults_ok, unique₂) =
      build_defaults_sound s.providers ds [] s.default_provider_ids d (λ id t h. cc) tt in
    let (routes_ok, unique₃) =
      build_routes_sound s.providers rs [] s.model_routes r (λ id t h. cc) tt in
    record {
      providers_ok = providers_ok;
      defaults_ok = defaults_ok;
      routes_ok = routes_ok;
      unique = (unique₁, unique₂, unique₃);
    }
