-- ===== src/Credentials.antt =====
-- internal/application/credentials/service.go: the API keys in memory, in the encrypted store and in
-- the runtime. Repository and runtime are an interface over a world `W`, as for the catalog; a nil
-- one is `none`. The mutex makes the calls sequential.
pub mod Agreement
mod Tests
use kokekokkor.Common.{
  String, Bool, true, false, not, ◌&&◌, Option, none, some, ◌==◌, string_eq, if◌then◌else◌,
}
use kokekokkor.Common.Map.{Map, lookup, insert, delete}
use kokekokkor.Common.Text.{trim_space}

pub data CredentialError (E : Type 0) : Type 0 where
  read_only apply_not_configured empty_provider_id empty_api_key : CredentialError E
  repository_error : E → CredentialError E
  -- The second part is the rollback's error, where the rollback failed too.
  apply_failed : E → Option E → CredentialError E

-- `Repository`, at the references of kind `api_key`.
pub record Repository (W E : Type 0) : Type 0 where
  pub put : String → String → W → Option E × W
  pub remove : String → W → Option E × W

abbrev pub RuntimeApply : Type 0 → Type 0 → Type 0
RuntimeApply W E = Map String String → W → Option E × W

pub record Service (W E : Type 0) : Type 0 where
  pub repository : Option (Repository W E)
  pub apply : Option (RuntimeApply W E)
  pub values : Map String String

abbrev is_some {ℓ} : {A : Type ℓ} → Option A → Bool
is_some none = false
is_some (some a) = true

-- The map after the change; `none` is a deletion.
unfoldable pub changed_values : String → Option String → Map String String → Map String String
changed_values provider_id none values = delete provider_id values
changed_values provider_id (some value) values = insert provider_id value values

module _ {W E : Type 0} where
  unfoldable pub new_service : Option (Repository W E) → Map String String → Service W E
  new_service repository initial = record {
    repository = repository;
    apply = none;
    values = initial;
  }

  unfoldable pub set_runtime_apply : Option (RuntimeApply W E) → Service W E → Service W E
  set_runtime_apply apply s = record s { apply = apply }

  unfoldable pub editable : Service W E → Bool
  editable s = is_some s.repository && is_some s.apply

  unfoldable pub has_api_key : Service W E → String → Bool
  has_api_key s provider_id = elim (lookup (trim_space provider_id) s.values) [
    | none ↦ false
    | some value ↦ not (value == "")
  ]

  unfoldable pub forget_provider : String → Service W E → Service W E
  forget_provider given s =
      let provider_id = trim_space given in
      if provider_id == "" then s else record s { values = delete provider_id s.values }

  -- `none` is a deletion.
  unfoldable pub persist_change : Repository W E → String → Option String → W → Option E × W
  persist_change r provider_id none = r.remove provider_id
  persist_change r provider_id (some value) = r.put provider_id value

  -- `rollback` writes what the old values say: the old value, or a deletion.
  unfoldable pub rollback : Repository W E → String → Option String → W → Option E × W
  unfolding persist_change
  rollback r provider_id old = persist_change r provider_id old

  unfoldable pub update_with :
      Repository W E
      → RuntimeApply W E
      → String
      → Option String
      → Service W E
      → W
      → Option (CredentialError E) × Service W E × W
  update_with r apply provider_id value s w =
      let next = changed_values provider_id value s.values in
      let (failed, w₁) = persist_change r provider_id value w in
      let (refused, w₂) = apply next w₁ in
      let (stuck, w₃) = rollback r provider_id (lookup provider_id s.values) w₂ in
      elim failed [
        | some e ↦ (some (repository_error e), s, w₁)
        | none ↦ elim refused [
          | none ↦ (none, record s { values = next }, w₂)
          | some e ↦ (some (apply_failed e stuck), s, w₃)
        ]
      ]

  unfoldable pub update :
      String → Option String → Service W E → W → Option (CredentialError E) × Service W E × W
  update provider_id value s w = elim s.repository [
    | none ↦ (some read_only, s, w)
    | some r ↦ elim s.apply [
      | none ↦ (some apply_not_configured, s, w)
      | some apply ↦ update_with r apply provider_id value s w
    ]
  ]

  unfoldable pub set_api_key :
      String → String → Service W E → W → Option (CredentialError E) × Service W E × W
  set_api_key given_id given_value s w =
      let provider_id = trim_space given_id in
      let value = trim_space given_value in
      if provider_id == ""
      then (some empty_provider_id, s, w)
      else if value == ""
      then (some empty_api_key, s, w)
      else update provider_id (some value) s w

  unfoldable pub delete_api_key :
      String → Service W E → W → Option (CredentialError E) × Service W E × W
  delete_api_key given_id s w =
      let provider_id = trim_space given_id in
      if provider_id == "" then (some empty_provider_id, s, w) else update provider_id none s w
