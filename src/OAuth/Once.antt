-- ===== src/OAuth/Once.antt =====
-- A pending authorization of internal/application/oauth is used once, by the request that it is for.
use kokekokkor.Common.{
  String, ℕ, ◌≡◌, sym, ap, ◌∙◌, subst, true, false, Option, none, some, ok, err, ◌==◌, string_eq,
  eq_iff, Bool-cases, Option-cases, Result-cases, ==-refl, inl, inr, arith,
}
use kokekokkor.Common.Map.{lookup, delete, lookup-delete}
use kokekokkor.Common.Text.{trim_space}
use kokekokkor.Catalog.{Url}
use kokekokkor.OAuth.{Provider, PendingAuthorization, TokenSet, validate}
use kokekokkor.OAuth.States.{MemoryStates, state_not_found, is_expired, consume}
use kokekokkor.OAuth.Flow.{
  Dependencies, FlowError, invalid_provider, empty_state, empty_code, not_configured, state_refused,
  ExchangeRequest, store_tokens, exchange_code, complete,
}

consume_absent :
    (now : ℕ) (state : String) (r : MemoryStates)
    → lookup state r.items ≡ none
    → consume now state r ≡ (err state_not_found, r)
unfolding consume
consume_absent now state r e = rw (consume, e)

-- Whatever Consume says, the state is gone.
lookup-consume :
    (now : ℕ) (state : String) (r : MemoryStates)
    → lookup state (consume now state r).1.items ≡ none
unfolding consume
lookup-consume now state r = elim (Option-cases (lookup state r.items)) [
  | inl absent ↦ ground (arith, absent)
  | inr (pending, found) ↦
      let gone : lookup state (delete state r.items) ≡ none =
        lookup-delete state state r.items ∙ (rw (==-refl state)) in
      ground (arith, found, gone)
]

consume_ok :
    (now : ℕ) (state : String) (r : MemoryStates) (p : PendingAuthorization)
    → (consume now state r).0 ≡ ok p
    → (lookup state r.items ≡ some p) × (is_expired now p ≡ false)
unfolding consume
consume_ok now state r p e = elim (Option-cases (lookup state r.items)) [
  | inl absent ↦ ground (arith, e, absent)
  | inr (q, found) ↦ ground (arith, e, found)
]

-- The code was exchanged with the verifier and the redirect URI that were stored for the state, and
-- the tokens that came back were stored for the provider.
abbrev pub IsExchanged :
    {W E : Type 0}
    → Dependencies W E
    → Provider
    → PendingAuthorization
    → String
    → W
    → TokenSet
    → W
    → Type 0
IsExchanged d provider pending code w tokens end =
    let request : ExchangeRequest = record {
      code = code;
      code_verifier = pending.code_verifier;
      redirect_uri = pending.redirect_uri;
    } in
    let exchanged = d.exchange provider request w in
    (exchanged.0 ≡ ok tokens) × (d.put_tokens provider.id tokens exchanged.1 ≡ (none, end))

-- Complete's guards before Consume.
abbrev pub IsAsked : (String → Option Url) → Provider → String → String → Type 0
IsAsked parse_url provider state code =
    (validate parse_url provider ≡ ok tt)
    × ((trim_space state == "") ≡ false)
    × ((trim_space code == "") ≡ false)

module _ {W E : Type 0} where
  exchange_ok :
      (d : Dependencies W E) (provider : Provider) (pending : PendingAuthorization)
      (code redirect_uri : String) (w : W) (tokens : TokenSet)
      → (exchange_code d provider pending code redirect_uri w).0 ≡ ok tokens
      → (pending.provider_id ≡ provider.id)
        × (pending.redirect_uri ≡ redirect_uri)
        × ((trim_space tokens.access_token == "") ≡ false)
        × IsExchanged d provider pending code w tokens
            (exchange_code d provider pending code redirect_uri w).1
  unfolding exchange_code store_tokens
  exchange_ok d provider pending code redirect_uri w tokens e =
      let request : ExchangeRequest = record {
        code = code;
        code_verifier = pending.code_verifier;
        redirect_uri = pending.redirect_uri;
      } in
      let exchanged = d.exchange provider request w in
      elim (Result-cases exchanged.0) [
        | inr (x, failed) ↦ ground (arith, e, failed)
        | inl (got, came) ↦ elim (Option-cases (d.put_tokens provider.id got exchanged.1).0) [
          | inr (x, failed) ↦ ground (arith, e, came, failed)
          | inl stored ↦
              let facts : ((pending.provider_id == provider.id) ≡ true)
                  × ((pending.redirect_uri == redirect_uri) ≡ true)
                  × ((trim_space got.access_token == "") ≡ false)
                  × (got ≡ tokens)
                  × ((exchange_code d provider pending code redirect_uri w).1
                      ≡ (d.put_tokens provider.id got exchanged.1).1) =
                ground (arith, e, came, stored) in
              let (own, back, full, same, end) = facts in
              (
                (eq_iff pending.provider_id provider.id).0 own,
                (eq_iff pending.redirect_uri redirect_uri).0 back,
                subst (λ t. (trim_space t.access_token == "") ≡ false) same full,
                (
                  came ∙ ap ok same,
                  subst
                      (λ t.
                        d.put_tokens provider.id t exchanged.1
                        ≡ (none, (exchange_code d provider pending code redirect_uri w).1))
                      same (λ i. (stored i, sym end i)),
                ),
              )
        ]
      ]

module _ {W E : Type 0} (parse_url : String → Option Url) where
  -- A second call is an error and leaves the world alone, where the state is gone.
  complete_absent :
      (dependencies : Option (Dependencies W E)) (provider : Provider)
      (state code redirect_uri : String) (now : ℕ) (r : MemoryStates) (w : W)
      → lookup state r.items ≡ none
      → (e : FlowError E) × (complete parse_url dependencies provider state code redirect_uri now r
            w
          ≡ (err e, r, w))
  unfolding complete
  complete_absent dependencies provider state code redirect_uri now r w gone =
      elim (Result-cases (validate parse_url provider)) [
        | inr (e, bad) ↦ (invalid_provider e, rw (complete, bad))
        | inl (_, good) ↦ elim (Bool-cases (trim_space state == "")) [
          | inl blank ↦ (empty_state, rw (complete, good, blank))
          | inr named ↦ elim (Bool-cases (trim_space code == "")) [
            | inl blank ↦ (empty_code, rw (complete, good, named, blank))
            | inr coded ↦ elim (Option-cases dependencies) [
              | inl nothing ↦ (not_configured, rw (complete, good, named, coded, nothing))
              | inr (d, given) ↦
                  let nothing = consume_absent now state r gone in
                  let refused = ap (λ out. out.0) nothing in
                  let same = ap (λ out. out.1) nothing in
                  (
                    state_refused state_not_found,
                    rw (complete, good, named, coded, given, refused, same),
                  )
            ]
          ]
        ]
      ]

  complete-consume :
      (d : Dependencies W E) (provider : Provider) (state code redirect_uri : String) (now : ℕ)
      (r : MemoryStates) (w : W)
      → IsAsked parse_url provider state code
      → (complete parse_url (some d) provider state code redirect_uri now r w).1
        ≡ (consume now state r).1
  unfolding complete
  complete-consume d provider state code redirect_uri now r w (good, named, coded) =
      elim (Result-cases (consume now state r).0) [
        | inl (p, found) ↦ rw (complete, good, named, coded, found)
        | inr (e, refused) ↦ rw (complete, good, named, coded, refused)
      ]

  -- After a call that came to Consume, whatever its outcome, every other call for the same state, by
  -- whatever provider, code and redirect URI and at whatever time, is an error, makes no exchange and
  -- stores nothing.
  pub complete_once :
      (d : Dependencies W E) (dependencies : Option (Dependencies W E))
      (provider provider₂ : Provider) (state code code₂ redirect_uri redirect_uri₂ : String)
      (now later : ℕ) (r : MemoryStates) (w w₂ : W)
      → IsAsked parse_url provider state code
      → (e : FlowError E) × (complete parse_url dependencies provider₂ state code₂ redirect_uri₂
            later
            (complete parse_url (some d) provider state code redirect_uri now r w).1
            w₂
          ≡ (err e, (complete parse_url (some d) provider state code redirect_uri now r w).1, w₂))
  complete_once d dependencies provider provider₂ state code code₂ redirect_uri redirect_uri₂ now
        later r w w₂ asked =
      let left = complete-consume d provider state code redirect_uri now r w asked in
      complete_absent dependencies provider₂ state code₂ redirect_uri₂ later
        (complete parse_url (some d) provider state code redirect_uri now r w).1 w₂
        (ap (λ s. lookup state s.items) left ∙ lookup-consume now state r)

  -- Tokens come out only for a pending authorization of the same provider and redirect URI that was
  -- stored under the state and has not expired; they were exchanged with its verifier, hold an access
  -- token, and are stored.
  pub complete_ok :
      (d : Dependencies W E) (provider : Provider) (state code redirect_uri : String) (now : ℕ)
      (r : MemoryStates) (w : W) (tokens : TokenSet)
      → (complete parse_url (some d) provider state code redirect_uri now r w).0 ≡ ok tokens
      → (pending : PendingAuthorization) × (lookup state r.items ≡ some pending)
        × (is_expired now pending ≡ false)
        × (pending.provider_id ≡ provider.id)
        × (pending.redirect_uri ≡ redirect_uri)
        × ((trim_space tokens.access_token == "") ≡ false)
        × IsExchanged d provider pending code w tokens
            (complete parse_url (some d) provider state code redirect_uri now r w).2
  unfolding complete
  complete_ok d provider state code redirect_uri now r w tokens e =
      elim (Result-cases (validate parse_url provider)) [
        | inr (x, bad) ↦ ground (arith, e, bad)
        | inl (_, good) ↦ elim (Result-cases (consume now state r).0) [
          | inr (x, refused) ↦ ground (arith, e, good, refused)
          | inl (p, found) ↦
              let done = exchange_code d provider p code redirect_uri w in
              let facts : (done.0 ≡ ok tokens)
                  × (done.1
                      ≡ (complete parse_url (some d) provider state code redirect_uri now r w).2) =
                ground (arith, e, good, found) in
              let (stored, fresh) = consume_ok now state r p found in
              let (own, back, full, exchanged) =
                exchange_ok d provider p code redirect_uri w tokens facts.0 in
              (
                p,
                stored,
                fresh,
                own,
                back,
                full,
                subst (IsExchanged d provider p code w tokens) facts.1 exchanged,
              )
        ]
      ]
