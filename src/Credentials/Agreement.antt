-- ===== src/Credentials/Agreement.antt =====
-- Memory, store and runtime hold the same keys: what an edit keeps on every path.
use kokekokkor.Common.{
  String, ◌≡◌, refl, sym, ◌∙◌, ap, subst, ◌⊎◌, inl, inr, Option, none, some, ◌==◌, string_eq,
  if◌then◌else◌, eq_iff, Option-cases, Bool-cases,
}
use kokekokkor.Common.Map.{Map, lookup, lookup-insert, lookup-delete}
use kokekokkor.Common.Text.{trim_space}
use kokekokkor.Credentials.{
  CredentialError, repository_error, empty_provider_id, empty_api_key, apply_failed, Repository,
  RuntimeApply, Service, persist_change, changed_values, rollback, update_with, update, set_api_key,
  delete_api_key,
}

-- What the service relies on. `held w id` is the key that the store holds for `id`; a write that
-- succeeds sets the one entry and one that fails changes nothing; the runtime and the store leave
-- each other alone; an apply that fails changes nothing.
pub record Laws {W E R : Type 0} (r : Repository W E) (apply : RuntimeApply W E)
    (held : W → String → Option String) (runtime : W → R) (Serves : Map String String → R → Type 0)
    : Type 0 where
  pub write_done :
      (id : String) (value : Option String) (w : W) (j : String)
      → (persist_change r id value w).0 ≡ none
      → held (persist_change r id value w).1 j ≡ (if id == j then value else held w j)
  pub write_undone :
      (id : String) (value : Option String) (w : W) (e : E) (j : String)
      → (persist_change r id value w).0 ≡ some e
      → held (persist_change r id value w).1 j ≡ held w j
  pub write_runtime :
      (id : String) (value : Option String) (w : W)
      → runtime (persist_change r id value w).1 ≡ runtime w
  pub apply_done :
      (m : Map String String) (w : W) → (apply m w).0 ≡ none → Serves m (runtime (apply m w).1)
  pub apply_undone :
      (m : Map String String) (w : W) (e : E)
      → (apply m w).0 ≡ some e
      → runtime (apply m w).1 ≡ runtime w
  pub apply_held : (m : Map String String) (w : W) (j : String) → held (apply m w).1 j ≡ held w j

lookup-changed_values :
    (id j : String) (value : Option String) (m : Map String String)
    → lookup j (changed_values id value m) ≡ (if id == j then value else lookup j m)
unfolding changed_values
lookup-changed_values id j none m = lookup-delete id j m
lookup-changed_values id j (some v) m = lookup-insert id j v m

-- The only errors after which memory and store may differ.
pub data IsTorn {E : Type 0} : CredentialError E → Type 0 where
  torn : (e f : E) → IsTorn (apply_failed e (some f))

module _ {W E R : Type 0} (r : Repository W E) (apply : RuntimeApply W E)
    (held : W → String → Option String) (runtime : W → R) (Serves : Map String String → R → Type 0)
    (laws : Laws r apply held runtime Serves) where
  -- The store holds the keys that memory holds, and the runtime serves them.
  abbrev pub Agree : Map String String → W → Type 0
  Agree values w = ((j : String) → held w j ≡ lookup j values) × Serves values (runtime w)

  abbrev pub Outcome :
      Map String String
      → String
      → Option String
      → Option (CredentialError E) × Service W E × W
      → Type 0
  Outcome values id value out =
      ((out.0 ≡ none)
        × ((j : String) → lookup j out.1.values ≡ (if id == j then value else lookup j values))
        × Agree out.1.values out.2)
      ⊎ (e : CredentialError E) × (out.0 ≡ some e)
        × (out.1.values ≡ values)
        × (Agree values out.2 ⊎ IsTorn e)

  refused :
      (values : Map String String) (id : String) (value : Option String)
      (out : Option (CredentialError E) × Service W E × W) (e : CredentialError E) (s : Service W E)
      (w : W)
      → out ≡ (some e, s, w)
      → s.values ≡ values
      → Agree values w ⊎ IsTorn e
      → Outcome values id value out
  refused values id value out e s w q same kept =
      subst (Outcome values id value) (sym q) (inr (e, refl, same, kept))

  module _ (id : String) (value : Option String) (s : Service W E) (w : W)
      (agree : Agree s.values w) where
    next : Map String String
    next = changed_values id value s.values

    w₁ : W
    w₁ = (persist_change r id value w).1

    w₂ : W
    unfolding next w₁
    w₂ = (apply next w₁).1

    -- A failed apply, and the old entry written back.
    rolled_back :
        (e : E)
        → (persist_change r id value w).0 ≡ none
        → (apply next w₁).0 ≡ some e
        → let (stuck, w₃) = persist_change r id (lookup id s.values) w₂ in
          Agree s.values w₃ ⊎ IsTorn (apply_failed e stuck)
    unfolding next w₁ w₂
    rolled_back e p q =
        let old = lookup id s.values in
        elim (Option-cases (persist_change r id old w₂).0) [
          | inr (f, stuck) ↦ inr (rw stuck (torn e f))
          | inl back ↦ inl (
            λ j. elim (Bool-cases (id == j)) [
              | inl here ↦
                  laws.write_done id old w₂ j back
                  ∙ (rw here (ap (λ k. lookup k s.values) ((eq_iff id j).0 here)))
              | inr there ↦
                  laws.write_done id old w₂ j back
                  ∙ (rw there (
                      laws.apply_held next w₁ j
                      ∙ laws.write_done id value w j p
                      ∙ (rw there (agree.0 j))))
            ],
            subst (Serves s.values)
                (sym (
                  laws.write_runtime id old w₂
                  ∙ laws.apply_undone next w₁ e q
                  ∙ laws.write_runtime id value w))
                agree.1,
          )
        ]

    update_with-Outcome : Outcome s.values id value (update_with r apply id value s w)
    unfolding update_with rollback next w₁ w₂
    update_with-Outcome = elim (Option-cases (persist_change r id value w).0) [
      | inr (e, p) ↦
          refused s.values id value (update_with r apply id value s w) (repository_error e) s w₁
            (rw (p, update_with)) refl
            (inl (
              λ j. laws.write_undone id value w e j p ∙ agree.0 j,
              subst (Serves s.values) (sym (laws.write_runtime id value w)) agree.1,
            ))
      | inl p ↦ elim (Option-cases (apply next w₁).0) [
        | inl q ↦
            subst (Outcome s.values id value)
              (sym (
                let done : update_with r apply id value s w
                    ≡ (none, record s { values = next }, w₂) =
                  rw (p, q, update_with) in
                done))
              (inl (
                refl,
                λ j. lookup-changed_values id j value s.values,
                (
                  λ j.
                      laws.apply_held next w₁ j
                      ∙ laws.write_done id value w j p
                      ∙ (rw (agree.0 j) (sym (lookup-changed_values id j value s.values))),
                  laws.apply_done next w₁ q,
                ),
              ))
        | inr (e, q) ↦
            refused s.values id value (update_with r apply id value s w)
              (apply_failed e (persist_change r id (lookup id s.values) w₂).0) s
              (persist_change r id (lookup id s.values) w₂).1 (rw (p, q, update_with)) refl
              (rolled_back e p q)
      ]
    ]

  module _ (s : Service W E) (w : W) (has_repository : s.repository ≡ some r)
      (has_apply : s.apply ≡ some apply) (agree : Agree s.values w) where
    update-Outcome :
        (id : String) (value : Option String) → Outcome s.values id value (update id value s w)
    unfolding update
    update-Outcome id value =
        let same : update id value s w ≡ update_with r apply id value s w =
          simp (has_repository, has_apply, update) in
        subst (Outcome s.values id value) (sym same) (update_with-Outcome id value s w agree)

    -- Where memory, store and runtime agree on the keys, `SetAPIKey` ends in one of two ways.
    -- Without an error memory differs in the trimmed provider's key alone, which is the trimmed
    -- value, and the three agree again. With an error memory is unchanged and the three agree on
    -- the old keys, unless the error reports that the rollback failed too.
    pub set_api_key-Outcome :
        (given_id given_value : String)
        → Outcome s.values
            (trim_space given_id)
            (some (trim_space given_value))
            (set_api_key given_id given_value s w)
    unfolding set_api_key
    set_api_key-Outcome given_id given_value =
        let id = trim_space given_id in
        let value = trim_space given_value in
        elim (Bool-cases (id == "")) [
          | inl unnamed ↦
              refused s.values id (some value) (set_api_key given_id given_value s w)
                empty_provider_id s w (rw (unnamed, set_api_key)) refl (inl agree)
          | inr named ↦ elim (Bool-cases (value == "")) [
            | inl blank ↦
                refused s.values id (some value) (set_api_key given_id given_value s w)
                  empty_api_key s w (rw (named, blank, set_api_key)) refl (inl agree)
            | inr given ↦
                let same : set_api_key given_id given_value s w ≡ update id (some value) s w =
                  rw (named, given, set_api_key) in
                subst (Outcome s.values id (some value)) (sym same) (update-Outcome id (some value))
          ]
        ]

    -- The same for `DeleteAPIKey`: without an error the trimmed provider's key alone is gone.
    pub delete_api_key-Outcome :
        (given_id : String)
        → Outcome s.values (trim_space given_id) none (delete_api_key given_id s w)
    unfolding delete_api_key
    delete_api_key-Outcome given_id =
        let id = trim_space given_id in
        elim (Bool-cases (id == "")) [
          | inl unnamed ↦
              refused s.values id none (delete_api_key given_id s w) empty_provider_id s w
                (rw (unnamed, delete_api_key)) refl (inl agree)
          | inr named ↦
              let same : delete_api_key given_id s w ≡ update id none s w =
                rw (named, delete_api_key) in
              subst (Outcome s.values id none) (sym same) (update-Outcome id none)
        ]
