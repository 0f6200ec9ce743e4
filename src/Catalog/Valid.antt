-- ===== src/Catalog/Valid.antt =====
-- When a catalog is valid, stated without maps and loops.
pub mod Providers
pub mod Links
use kokekokkor.Common.{
  String, Bool, true, ◌≡◌, ◌≢◌, ◌⊎◌, Option, none, some, List, [], ◌∷◌, ◌==◌, string_eq,
  if◌then◌else◌, All,
}
use kokekokkor.Common.Map.{Map}
use kokekokkor.Common.Text.{trim_space}
use kokekokkor.Provider.{Protocol, is_known_protocol}
use kokekokkor.Routing.{RouteTarget}
use kokekokkor.Catalog.{Provider, Snapshot, Url}

-- The provider that a list gives for an ID: the first with that ID.
unfoldable pub find_provider : String → List Provider → Option Provider
find_provider id [] = none
find_provider id (item ∷ items) = if item.id == id then some item else find_provider id items

abbrev pub UrlOk : Url → Type 0
UrlOk u = ((u.scheme ≡ "http") ⊎ (u.scheme ≡ "https")) × (u.host ≢ "")

abbrev pub BaseUrlOk : (String → Option Url) → String → Type 0
BaseUrlOk parse_url raw = (trim_space raw ≢ "") × (u : Url) × (parse_url raw ≡ some u) × UrlOk u

abbrev pub ProviderOk : (String → Option Url) → Provider → Type 0
ProviderOk parse_url item =
    (trim_space item.id ≢ "")
    × (is_known_protocol item.protocol ≡ true)
    × BaseUrlOk parse_url item.base_url

abbrev pub HasDistinctIds : List Provider → Type 0
HasDistinctIds [] = Unit {0}
HasDistinctIds (item ∷ items) = All (λ other. item.id ≢ other.id) items × HasDistinctIds items

abbrev pub DefaultOk : List Provider → Protocol × String → Type 0
DefaultOk items d =
    (is_known_protocol d.0 ≡ true)
    × (c : Provider) × (find_provider d.1 items ≡ some c)
    × (c.protocol ≡ d.0)
    × (c.enabled ≡ true)

abbrev pub TargetOk : List Provider → RouteTarget → Type 0
TargetOk items target =
    (c : Provider) × (find_provider target.provider_id items ≡ some c) × (c.enabled ≡ true)

abbrev pub RouteOk : List Provider → String × List RouteTarget → Type 0
RouteOk items r = (trim_space r.0 ≢ "") × (r.1 ≢ []) × All (TargetOk items) r.1

pub record IsValid (parse_url : String → Option Url) (s : Snapshot) : Type 0 where
  pub providers_ok : All (ProviderOk parse_url) s.providers
  pub distinct : HasDistinctIds s.providers
  pub defaults_ok : All (DefaultOk s.providers) s.defaults
  pub routes_ok : All (RouteOk s.providers) s.routes
