-- ===== src/OAuth/Resolver.antt =====
-- internal/application/oauth/runtime.go: the bearer token of a request, refreshed when it expires.
-- Token store and refresher are parameters over a world `W`; a nil one is `none`.
use kokekokkor.Common.{
  String, ℕ, ◌+◌, ◌*◌, ◌^◌, ◌≡◌, refl, Bool, true, false, ◌||◌, Option, none, some, Result, ok, err,
  ltb, ◌==◌, string_eq, ℕ_eq, if◌then◌else◌, Bool-cases, Option-cases, Result-cases, ◌⊎◌, inl, inr,
  arith,
}
use kokekokkor.Common.Map.{Map, lookup}
use kokekokkor.OAuth.{Provider, TokenSet}

-- `Get`: the tokens, `ErrTokenNotFound`, or another error.
pub data Loaded (E : Type 0) : Type 0 where
  missing : Loaded E
  failed : E → Loaded E
  found : TokenSet → Loaded E

pub record TokenRepository (W E : Type 0) : Type 0 where
  pub get : String → W → Loaded E
  pub put : String → TokenSet → W → Option E × W

pub record RuntimeTokenResolver (W E : Type 0) : Type 0 where
  pub tokens : Option (TokenRepository W E)
  pub refresher : Option (Provider → TokenSet → W → Result E TokenSet × W)
  pub providers : Map String Provider
  pub skew : ℕ

pub data BearerError (E : Type 0) : Type 0 where
  load_failed refresh_failed persist_failed : E → BearerError E
  no_access_token unknown_provider no_refresh_token no_refresher empty_refresh : BearerError E

-- One minute, in nanoseconds.
abbrev pub default_refresh_skew : ℕ
default_refresh_skew = 60 * 10 ^ 9

unfoldable pub is_fresh : ℕ → ℕ → TokenSet → Bool
is_fresh now skew t = t.expires_at == 0 || ltb (now + skew) t.expires_at

abbrev pub text_or : String → String → String
text_or new old = if new == "" then old else new

-- What the refresh left out is kept from the old tokens.
unfoldable pub keep_missing : TokenSet → TokenSet → TokenSet
keep_missing old new = record new {
  refresh_token = text_or new.refresh_token old.refresh_token;
  scope = text_or new.scope old.scope;
  token_type = text_or new.token_type old.token_type;
}

Loaded-cases :
    {E : Type 0}
    → (l : Loaded E) → (l ≡ missing) ⊎ ((e : E) × (l ≡ failed e)) ⊎ ((t : TokenSet) × (l ≡ found t))
Loaded-cases missing = inl refl
Loaded-cases (failed e) = inr (inl (e, refl))
Loaded-cases (found t) = inr (inr (t, refl))

module _ {W E : Type 0} where
  unfoldable pub store_refreshed :
      TokenRepository W E
      → String
      → TokenSet
      → TokenSet
      → W
      → Result (BearerError E) (Option String) × W
  store_refreshed repository provider_id old new w =
      let stored = repository.put provider_id (keep_missing old new) w in
      if new.access_token == "" then (err empty_refresh, w) else elim stored.0 [
        | some e ↦ (err (persist_failed e), stored.1)
        | none ↦ (ok (some new.access_token), stored.1)
      ]

  unfoldable pub refresh_token_set :
      RuntimeTokenResolver W E
      → TokenRepository W E
      → String
      → TokenSet
      → W
      → Result (BearerError E) (Option String) × W
  refresh_token_set r repository provider_id old w = elim (lookup provider_id r.providers) [
    | none ↦ (err unknown_provider, w)
    | some provider ↦
        if old.refresh_token == "" then (err no_refresh_token, w) else elim r.refresher [
          | none ↦ (err no_refresher, w)
          | some refresh ↦
              let refreshed = refresh provider old w in
              elim refreshed.0 [
                | err e ↦ (err (refresh_failed e), refreshed.1)
                | ok new ↦ store_refreshed repository provider_id old new refreshed.1
              ]
        ]
  ]

  -- `none` is the answer without a token and without an error.
  unfoldable pub bearer_token :
      RuntimeTokenResolver W E → String → ℕ → W → Result (BearerError E) (Option String) × W
  bearer_token r provider_id now w = elim r.tokens [
    | none ↦ (ok none, w)
    | some repository ↦ elim (repository.get provider_id w) [
      | missing ↦ (ok none, w)
      | failed e ↦ (err (load_failed e), w)
      | found tokens ↦
          if tokens.access_token == ""
          then (err no_access_token, w)
          else if is_fresh now r.skew tokens
          then (ok (some tokens.access_token), w)
          else refresh_token_set r repository provider_id tokens w
    ]
  ]

  -- The token of a refresh that succeeded and was stored.
  abbrev pub IsRefreshed :
      RuntimeTokenResolver W E → TokenRepository W E → String → TokenSet → W → String → Type 0
  IsRefreshed r repository provider_id old w token =
      (provider : Provider) × (refresh : Provider → TokenSet → W → Result E TokenSet × W)
      × (new : TokenSet) × (lookup provider_id r.providers ≡ some provider)
      × (r.refresher ≡ some refresh)
      × ((old.refresh_token == "") ≡ false)
      × ((refresh provider old w).0 ≡ ok new)
      × (new.access_token ≡ token)
      × ((new.access_token == "") ≡ false)
      × ((repository.put provider_id (keep_missing old new) (refresh provider old w).1).0 ≡ none)

  refresh_token_set_ok :
      (r : RuntimeTokenResolver W E) (repository : TokenRepository W E) (provider_id : String)
      (old : TokenSet) (w : W) (token : String)
      → (refresh_token_set r repository provider_id old w).0 ≡ ok (some token)
      → IsRefreshed r repository provider_id old w token
  unfolding refresh_token_set store_refreshed
  refresh_token_set_ok r repository provider_id old w token e =
      elim (Option-cases (lookup provider_id r.providers)) [
        | inl unknown ↦ ground (arith, e, unknown)
        | inr (provider, known) ↦ elim (Option-cases r.refresher) [
          | inl nothing ↦ ground (arith, e, known, nothing)
          | inr (refresh, given) ↦ elim (Result-cases (refresh provider old w).0) [
            | inr (x, bad) ↦ ground (arith, e, known, given, bad)
            | inl (new, came) ↦
                elim (Option-cases
                  (repository.put provider_id (keep_missing old new)
                    (refresh provider old w).1).0) [
                      | inr (x, bad) ↦ ground (arith, e, known, given, came, bad)
                      | inl stored ↦
                          let facts : ((old.refresh_token == "") ≡ false)
                              × (new.access_token ≡ token)
                              × ((new.access_token == "") ≡ false) =
                            ground (arith, e, known, given, came, stored) in
                          (
                            provider, refresh, new, known, given, facts.0, came, facts.1, facts.2,
                            stored,
                          )
                    ]
          ]
        ]
      ]

  -- A token that is handed out is the stored one, not empty and not about to expire, or that of a
  -- refresh of the stored set which was stored in turn.
  pub bearer_token_ok :
      (r : RuntimeTokenResolver W E) (provider_id : String) (now : ℕ) (w : W) (token : String)
      → (bearer_token r provider_id now w).0 ≡ ok (some token)
      → (repository : TokenRepository W E) × (old : TokenSet) × (r.tokens ≡ some repository)
        × (repository.get provider_id w ≡ found old)
        × ((old.access_token == "") ≡ false)
        × (((is_fresh now r.skew old ≡ true) × (old.access_token ≡ token))
            ⊎ ((is_fresh now r.skew old ≡ false)
                × IsRefreshed r repository provider_id old w token))
  unfolding bearer_token
  bearer_token_ok r provider_id now w token e = elim (Option-cases r.tokens) [
    | inl nothing ↦ ground (arith, e, nothing)
    | inr (repository, given) ↦ elim (Loaded-cases (repository.get provider_id w)) [
      | inl absent ↦ ground (arith, e, given, absent)
      | inr (inl (x, bad)) ↦ ground (arith, e, given, bad)
      | inr (inr (old, there)) ↦ elim (Bool-cases (is_fresh now r.skew old)) [
        | inl fresh ↦
            let facts : ((old.access_token == "") ≡ false) × (old.access_token ≡ token) =
              ground (arith, e, given, there, fresh) in
            (repository, old, given, there, facts.0, inl (fresh, facts.1))
        | inr stale ↦
            let facts : ((old.access_token == "") ≡ false)
                × ((refresh_token_set r repository provider_id old w).0 ≡ ok (some token)) =
              ground (arith, e, given, there, stale) in
            (
              repository,
              old,
              given,
              there,
              facts.0,
              inr (stale, refresh_token_set_ok r repository provider_id old w token facts.1),
            )
      ]
    ]
  ]
