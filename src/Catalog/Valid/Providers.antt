-- ===== src/Catalog/Valid/Providers.antt =====
-- The provider loop of `Snapshot.Validate`.
use kokekokkor.Common.{
  String, ◌≡◌, ◌≢◌, ◌↔◌, refl, Option, none, List, [], ◌∷◌, ok, string_eq, All, eq_iff, arith,
  Option-cases, Result-cases, inl, inr, or_else,
}
use kokekokkor.Common.Map.{Map, lookup, insert, lookup-insert}
use kokekokkor.Common.Text.{trim_space}
use kokekokkor.Catalog.{Provider, Url, validate_base_url, check_provider, check_providers}
use kokekokkor.Catalog.Valid.{find_provider, BaseUrlOk, ProviderOk, HasDistinctIds}

module _ (parse_url : String → Option Url) where
  pub validate_base_url_iff :
      (raw : String) → (validate_base_url parse_url raw ≡ ok tt) ↔ BaseUrlOk parse_url raw
  unfolding validate_base_url
  validate_base_url_iff raw = elim (Option-cases (parse_url raw)) [
    | inl e ↦ (λ h. ground (arith, e), λ (ne, u, f, _). ground (arith, e, f))
    | inr (u, e) ↦ (
      λ h. (
        ground (arith, e, eq_iff (trim_space raw) ""),
        u,
        e,
        (
          ground (arith, e, eq_iff u.scheme "http", eq_iff u.scheme "https"),
          ground (arith, e, eq_iff u.host ""),
        ),
      ),
      λ (ne, v, f, g).
          let same : u ≡ v = ground (arith, e, f) in
          ground (
            arith,
            same,
            e,
            f,
            eq_iff (trim_space raw) "",
            eq_iff v.scheme "http",
            eq_iff v.scheme "https",
            eq_iff v.host "",
          ),
    )
  ]

  pub check_provider_iff :
      (item : Provider) → (check_provider parse_url item ≡ ok tt) ↔ ProviderOk parse_url item
  unfolding check_provider
  check_provider_iff item =
      let (to, from) = validate_base_url_iff item.base_url in
      elim (Result-cases (validate_base_url parse_url item.base_url)) [
        | inl (tt', e) ↦ (
          λ h. (
            ground (arith, eq_iff (trim_space item.id) ""),
            ground (arith, eq_iff (trim_space item.id) ""),
            to e,
          ),
          λ (ne, known, base). ground (arith, e, eq_iff (trim_space item.id) ""),
        )
        | inr (failed, e) ↦
            (λ h. ground (arith, e), λ (ne, known, base). ground (arith, e, from base))
      ]

  -- One round of the loop, read backwards.
  check_providers_step :
      (item : Provider) (items : List Provider) (acc m : Map String Provider)
      → check_providers parse_url (item ∷ items) acc ≡ ok m
      → (check_provider parse_url item ≡ ok tt)
        × (lookup item.id acc ≡ none)
        × (check_providers parse_url items (insert item.id item acc) ≡ ok m)
  unfolding check_providers
  check_providers_step item items acc m e = ground arith

  abbrev IsFresh : Map String Provider → List Provider → Type 0
  IsFresh acc = All λ item. lookup item.id acc ≡ none

  IsFresh-split :
      (item : Provider) (items : List Provider) (acc : Map String Provider)
      → IsFresh (insert item.id item acc) items
      → IsFresh acc items × All (λ other. item.id ≢ other.id) items
  IsFresh-split item [] acc h = (tt, tt)
  IsFresh-split item (o ∷ items) acc (e, h) =
      let (fresh, distinct) = IsFresh-split item items acc h in
      let same = lookup-insert item.id o.id item acc in
      ((ground (arith, same), fresh), (ground (arith, same, eq_iff item.id o.id), distinct))

  IsFresh-insert :
      (item : Provider) (items : List Provider) (acc : Map String Provider)
      → IsFresh acc items
      → All (λ other. item.id ≢ other.id) items
      → IsFresh (insert item.id item acc) items
  IsFresh-insert item [] acc h d = tt
  IsFresh-insert item (o ∷ items) acc (e, h) (ne, d) = (
    ground (arith, lookup-insert item.id o.id item acc, eq_iff item.id o.id),
    IsFresh-insert item items acc h d,
  )

  pub check_providers_sound :
      (items : List Provider) (acc m : Map String Provider)
      → check_providers parse_url items acc ≡ ok m
      → All (ProviderOk parse_url) items
        × HasDistinctIds items
        × IsFresh acc items
        × ((id : String) → lookup id m ≡ or_else (lookup id acc) (find_provider id items))
  unfolding check_providers find_provider
  check_providers_sound [] acc m e = (tt, tt, tt, λ id. ground (arith, e))
  check_providers_sound (item ∷ items) acc m e =
      let (checked, fresh, rest) = check_providers_step item items acc m e in
      let (good, distinct, fresher, found) = check_providers_sound items _ m rest in
      let (older, apart) = IsFresh-split item items acc fresher in
      (
        ((check_provider_iff item).0 checked, good),
        (apart, distinct),
        (fresh, older),
        λ id. ground (arith, found id, lookup-insert item.id id item acc, eq_iff item.id id, fresh),
      )

  pub check_providers_complete :
      (items : List Provider) (acc : Map String Provider)
      → All (ProviderOk parse_url) items
      → HasDistinctIds items
      → IsFresh acc items
      → (m : Map String Provider) × (check_providers parse_url items acc ≡ ok m)
  unfolding check_providers
  check_providers_complete [] acc g d f = (acc, refl)
  check_providers_complete (item ∷ items) acc (p, g) (apart, d) (fresh, f) =
      let (m, e) =
        check_providers_complete items (insert item.id item acc) g d
          (IsFresh-insert item items acc f apart) in
      (m, ground (arith, (check_provider_iff item).1 p, fresh, e))
