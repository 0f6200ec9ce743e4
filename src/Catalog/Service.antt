-- ===== src/Catalog/Service.antt =====
-- internal/application/catalog/service.go: edits of the catalog, applied to the repository and to the
-- runtime under one lock. The repository and the runtime are an interface over a world `W`, which
-- holds what both store; a call returns its error, if any, and the world after it.
pub mod Atomic
pub mod Removal
pub mod Addition
pub mod Gateway
use kokekokkor.Common.{
  String, Bool, true, false, ◌≡◌, Option, none, some, List, [], ◌∷◌, ◌++◌, Result, ok, err, ◌>>=◌,
  ◌==◌, string_eq, if◌then◌else◌,
}
use kokekokkor.Common.Map.{Map, insert, delete}
use kokekokkor.Common.Text.{trim_space}
use kokekokkor.Provider.{Protocol}
use kokekokkor.Routing.{RouteTarget}
use kokekokkor.Catalog.{Provider, Snapshot, CatalogError, Url, validate}

pub data ServiceError (E : Type 0) : Type 0 where
  not_configured : ServiceError E
  provider_exists provider_not_found : String → ServiceError E
  default_in_use : String → Protocol → ServiceError E
  route_in_use : String → String → ServiceError E
  invalid : CatalogError → ServiceError E
  load_failed : E → ServiceError E
  -- The second part is the rollback's error, where the rollback failed too.
  persist_failed apply_failed : E → Option E → ServiceError E

-- `Repository` and `RuntimeApply`.
pub record Backend (W E : Type 0) : Type 0 where
  pub load : W → Result E Snapshot
  pub persist : Snapshot → W → Option E × W
  pub apply : Snapshot → W → Option E × W

abbrev pub Edit : Type 0 → Type 0
Edit E = Snapshot → Result (ServiceError E) Snapshot

unfoldable pub has_provider : String → List Provider → Bool
has_provider id [] = false
has_provider id (item ∷ items) = if item.id == id then true else has_provider id items

-- The first entry with the ID is changed; `none` if there is none.
unfoldable pub change_first :
    (Provider → Provider) → String → List Provider → Option (List Provider)
change_first f id [] = none
change_first f id (item ∷ items) =
    let rest = change_first f id items in
    if item.id == id
    then some (f item ∷ items)
    else elim rest [ none ↦ none | some changed ↦ some (item ∷ changed) ]

unfoldable pub remove_first : String → List Provider → Option (List Provider)
remove_first id [] = none
remove_first id (item ∷ items) =
    let rest = remove_first id items in
    if item.id == id then some items else elim rest [ none ↦ none | some kept ↦ some (item ∷ kept) ]

-- The first protocol whose default is the provider.
unfoldable pub default_user : String → Map Protocol String → Option Protocol
default_user id [] = none
default_user id ((protocol, default_id) ∷ rest) =
    if default_id == id then some protocol else default_user id rest

unfoldable pub targets_use : String → List RouteTarget → Bool
targets_use id [] = false
targets_use id (t ∷ ts) = if t.provider_id == id then true else targets_use id ts

unfoldable pub route_user : String → Map String (List RouteTarget) → Option String
route_user id [] = none
route_user id ((model, targets) ∷ rest) =
    if targets_use id targets then some model else route_user id rest

module _ {E : Type 0} where
  unfoldable pub create_provider : Provider → Edit E
  create_provider given s =
      let item = record given { id = trim_space given.id; base_url = trim_space given.base_url } in
      if has_provider item.id s.providers
      then err (provider_exists item.id)
      else ok (record s { providers = s.providers ++ item ∷ [] })

  abbrev or_not_found :
      String → Snapshot → Option (List Provider) → Result (ServiceError E) Snapshot
  or_not_found id s none = err (provider_not_found id)
  or_not_found id s (some items) = ok (record s { providers = items })

  unfoldable pub update_provider : String → Provider → Edit E
  update_provider given_id given s =
      let id = trim_space given_id in
      let item = record given { id = id; base_url = trim_space given.base_url } in
      or_not_found id s (change_first (λ _. item) id s.providers)

  unfoldable pub set_provider_enabled : String → Bool → Edit E
  set_provider_enabled given_id enabled s =
      let id = trim_space given_id in
      or_not_found id s (change_first (λ item. record item { enabled = enabled }) id s.providers)

  unfoldable pub delete_provider : String → Edit E
  delete_provider given_id s =
      let id = trim_space given_id in
      elim (remove_first id s.providers) [
        | none ↦ err (provider_not_found id)
        | some items ↦ elim (default_user id s.defaults) [
          | some protocol ↦ err (default_in_use id protocol)
          | none ↦ elim (route_user id s.routes) [
            | some model ↦ err (route_in_use id model)
            | none ↦ ok (record s { providers = items })
          ]
        ]
      ]

  unfoldable pub set_default : Protocol → String → Edit E
  set_default protocol given_id s =
      let id = trim_space given_id in
      if id == ""
      then ok (record s { defaults = delete protocol s.defaults })
      else ok (record s { defaults = insert protocol id s.defaults })

  unfoldable pub set_route : String → List RouteTarget → Edit E
  set_route model targets s = ok (record s { routes = insert (trim_space model) targets s.routes })

  unfoldable pub delete_route : String → Edit E
  delete_route model s = ok (record s { routes = delete (trim_space model) s.routes })

module _ {W E : Type 0} (parse_url : String → Option Url) where
  -- A world that a `let` binds is read on the branches that return it, and on those alone.
  -- `Update`'s order: persist, then apply; a failed apply puts the old catalog back.
  unfoldable pub persist_then_apply :
      Backend W E → Snapshot → Snapshot → W → Option (ServiceError E) × W
  persist_then_apply b current next w =
      let (stored, w₁) = b.persist next w in
      let (applied, w₂) = b.apply next w₁ in
      let (rollback, w₃) = b.persist current w₂ in
      elim stored [
        | some e ↦ (some (persist_failed e none), w₁)
        | none ↦ elim applied [ none ↦ (none, w₂) | some e ↦ (some (apply_failed e rollback), w₃) ]
      ]

  -- `DeleteProvider`'s order, `applyThenPersist`.
  unfoldable pub apply_then_persist :
      Backend W E → Snapshot → Snapshot → W → Option (ServiceError E) × W
  apply_then_persist b current next w =
      let (applied, w₁) = b.apply next w in
      let (stored, w₂) = b.persist next w₁ in
      let (rollback, w₃) = b.apply current w₂ in
      elim applied [
        | some e ↦ (some (apply_failed e none), w₁)
        | none ↦ elim stored [ none ↦ (none, w₂) | some e ↦ (some (persist_failed e rollback), w₃) ]
      ]

  -- `none` is a service without repository or runtime.
  unfoldable pub update : Option (Backend W E) → Bool → Edit E → W → Option (ServiceError E) × W
  update none runtime_first edit w = (some not_configured, w)
  update (some b) runtime_first edit w = elim (b.load w) [
    | err e ↦ (some (load_failed e), w)
    | ok current ↦ elim (edit current) [
      | err e ↦ (some e, w)
      | ok next ↦ elim (validate parse_url next) [
        | err e ↦ (some (invalid e), w)
        | ok _ ↦
            if runtime_first
            then apply_then_persist b current next w
            else persist_then_apply b current next w
      ]
    ]
  ]
