-- ===== src/Catalog/Service/Atomic.antt =====
-- What an update leaves in the repository and in the runtime, on every path through it.
use kokekokkor.Common.{
  String, Bool, true, false, ◌≡◌, refl, ◌∙◌, sym, ◌⊎◌, inl, inr, Option, none, some, ok,
  Option-cases, Result-cases, subst, ap,
}
use kokekokkor.Catalog.{Snapshot, Url, validate}
use kokekokkor.Catalog.Service.{
  ServiceError, load_failed, invalid, persist_failed, apply_failed, Backend, Edit,
  persist_then_apply, apply_then_persist, update,
}

-- What the service relies on: a write that fails changes nothing (the repository writes in a
-- transaction, the router publishes a whole snapshot), and each side leaves the other alone. `kept s`
-- is `s` as the repository gives it back: SQL has an order of its own. `Serves s r`: the runtime state `r` is what applying `s` makes.
pub record Laws {W E R : Type 0} (b : Backend W E) (kept : Snapshot → Snapshot)
    (stored : W → Snapshot) (runtime : W → R) (Serves : Snapshot → R → Type 0) : Type 0 where
  pub kept_stored : (w : W) → kept (stored w) ≡ stored w
  pub load_stored : (w : W) (s : Snapshot) → b.load w ≡ ok s → s ≡ stored w
  pub persist_done :
      (s : Snapshot) (w : W) → (b.persist s w).0 ≡ none → stored (b.persist s w).1 ≡ kept s
  pub persist_undone :
      (s : Snapshot) (w : W) (e : E)
      → (b.persist s w).0 ≡ some e
      → stored (b.persist s w).1 ≡ stored w
  pub persist_runtime : (s : Snapshot) (w : W) → runtime (b.persist s w).1 ≡ runtime w
  pub apply_done :
      (s : Snapshot) (w : W) → (b.apply s w).0 ≡ none → Serves s (runtime (b.apply s w).1)
  pub apply_undone :
      (s : Snapshot) (w : W) (e : E)
      → (b.apply s w).0 ≡ some e
      → runtime (b.apply s w).1 ≡ runtime w
  pub apply_stored : (s : Snapshot) (w : W) → stored (b.apply s w).1 ≡ stored w

-- The errors that report a rollback that failed too.
pub data IsTorn {E : Type 0} : ServiceError E → Type 0 where
  torn_apply : (e f : E) → IsTorn (apply_failed e (some f))
  torn_persist : (e f : E) → IsTorn (persist_failed e (some f))

module _ {W E R : Type 0} (b : Backend W E) (kept : Snapshot → Snapshot) (stored : W → Snapshot)
    (runtime : W → R) (Serves : Snapshot → R → Type 0) (laws : Laws b kept stored runtime Serves)
    (parse_url : String → Option Url) where
  -- The new catalog is in both places.
  abbrev pub Committed : Edit E → W → W → Type 0
  Committed edit w w' =
      (next : Snapshot) × (edit (stored w) ≡ ok next)
      × (validate parse_url next ≡ ok tt)
      × (stored w' ≡ kept next)
      × Serves next (runtime w')

  -- The old catalog is in both places: the runtime is untouched, or was given the old one again.
  abbrev pub Kept : W → W → Type 0
  Kept w w' = (stored w' ≡ stored w) × ((runtime w' ≡ runtime w) ⊎ Serves (stored w) (runtime w'))

  abbrev pub Outcome : Edit E → W → Option (ServiceError E) × W → Type 0
  Outcome edit w r =
      ((r.0 ≡ none) × Committed edit w r.1)
      ⊎ (e : ServiceError E) × (r.0 ≡ some e) × (Kept w r.1 ⊎ IsTorn e)

  committed :
      (edit : Edit E) (w : W) (r : Option (ServiceError E) × W) (w' : W)
      → r ≡ (none, w')
      → Committed edit w w'
      → Outcome edit w r
  committed edit w r w' e c = subst (Outcome edit w) (sym e) (inl (refl, c))

  refused :
      (edit : Edit E) (w : W) (r : Option (ServiceError E) × W) (e : ServiceError E) (w' : W)
      → r ≡ (some e, w')
      → Kept w w' ⊎ IsTorn e
      → Outcome edit w r
  refused edit w r e w' q k = subst (Outcome edit w) (sym q) (inr (e, refl, k))

  module _ (edit : Edit E) (current next : Snapshot) (w : W) (same : current ≡ stored w)
      (edited : edit current ≡ ok next) (valid : validate parse_url next ≡ ok tt) where
    -- A failed apply, and the old catalog put back.
    persist_rollback :
        (e : E)
        → let w₁ = (b.persist next w).1 in
          let w₂ = (b.apply next w₁).1 in
          let (rollback, w₃) = b.persist current w₂ in
          (b.apply next w₁).0 ≡ some e → Kept w w₃ ⊎ IsTorn (apply_failed e rollback)
    persist_rollback e q =
        let w₁ = (b.persist next w).1 in
        let w₂ = (b.apply next w₁).1 in
        let undone = laws.apply_undone next w₁ e q ∙ laws.persist_runtime next w in
        elim (Option-cases (b.persist current w₂).0) [
          | inl back ↦ inl (
            laws.persist_done current w₂ back ∙ ap kept same ∙ laws.kept_stored w,
            inl (laws.persist_runtime current w₂ ∙ undone),
          )
          | inr (f, stuck) ↦ inr (rw stuck (torn_apply e f))
        ]

    persist_then_apply-Outcome : Outcome edit w (persist_then_apply parse_url b current next w)
    unfolding persist_then_apply
    persist_then_apply-Outcome =
        let w₁ = (b.persist next w).1 in
        let w₂ = (b.apply next w₁).1 in
        elim (Option-cases (b.persist next w).0) [
          | inr (e, p) ↦
              refused edit w _ (persist_failed e none) w₁ (rw (p, persist_then_apply))
                (inl (laws.persist_undone next w e p, inl (laws.persist_runtime next w)))
          | inl p ↦ elim (Option-cases (b.apply next w₁).0) [
            | inl q ↦ committed edit w _ w₂ (rw (p, q, persist_then_apply)) (
              next,
              rw (← same) edited,
              valid,
              laws.apply_stored next w₁ ∙ laws.persist_done next w p,
              laws.apply_done next w₁ q,
            )
            | inr (e, q) ↦
                refused edit w _ (apply_failed e (b.persist current w₂).0) (b.persist current w₂).1
                  (rw (p, q, persist_then_apply)) (persist_rollback e q)
          ]
        ]

    -- A failed persist, and the old catalog applied again.
    apply_rollback :
        (e : E)
        → let w₁ = (b.apply next w).1 in
          let w₂ = (b.persist next w₁).1 in
          let (rollback, w₃) = b.apply current w₂ in
          (b.persist next w₁).0 ≡ some e → Kept w w₃ ⊎ IsTorn (persist_failed e rollback)
    apply_rollback e q =
        let w₁ = (b.apply next w).1 in
        let w₂ = (b.persist next w₁).1 in
        let undone = laws.persist_undone next w₁ e q ∙ laws.apply_stored next w in
        elim (Option-cases (b.apply current w₂).0) [
          | inl back ↦ inl (
            laws.apply_stored current w₂ ∙ undone,
            inr (rw (← same) (laws.apply_done current w₂ back)),
          )
          | inr (f, stuck) ↦ inr (rw stuck (torn_persist e f))
        ]

    apply_then_persist-Outcome : Outcome edit w (apply_then_persist parse_url b current next w)
    unfolding apply_then_persist
    apply_then_persist-Outcome =
        let w₁ = (b.apply next w).1 in
        let w₂ = (b.persist next w₁).1 in
        elim (Option-cases (b.apply next w).0) [
          | inr (e, p) ↦
              refused edit w _ (apply_failed e none) w₁ (rw (p, apply_then_persist))
                (inl (laws.apply_stored next w, inl (laws.apply_undone next w e p)))
          | inl p ↦ elim (Option-cases (b.persist next w₁).0) [
            | inl q ↦ committed edit w _ w₂ (rw (p, q, apply_then_persist)) (
              next,
              rw (← same) edited,
              valid,
              laws.persist_done next w₁ q,
              subst (Serves next) (sym (laws.persist_runtime next w₁)) (laws.apply_done next w p),
            )
            | inr (e, q) ↦
                refused edit w _ (persist_failed e (b.apply current w₂).0) (b.apply current w₂).1
                  (rw (p, q, apply_then_persist)) (apply_rollback e q)
          ]
        ]

  write :
      (runtime_first : Bool) (edit : Edit E) (current next : Snapshot) (w : W)
      → current ≡ stored w
      → edit current ≡ ok next
      → validate parse_url next ≡ ok tt
      → b.load w ≡ ok current
      → Outcome edit w (update parse_url (some b) runtime_first edit w)
  unfolding update
  write true edit current next w same q v p =
      subst (Outcome edit w)
        (sym (
          let r : update parse_url (some b) true edit w
              ≡ apply_then_persist parse_url b current next w =
            rw (p, q, v, update) in
          r))
        (apply_then_persist-Outcome edit current next w same q v)
  write false edit current next w same q v p =
      subst (Outcome edit w)
        (sym (
          let r : update parse_url (some b) false edit w
              ≡ persist_then_apply parse_url b current next w =
            rw (p, q, v, update) in
          r))
        (persist_then_apply-Outcome edit current next w same q v)

  -- Every update ends in one of three ways. Without an error the edited catalog, which passed
  -- `Validate`, is stored, as the repository gives it back, and the runtime serves it. With an error the stored catalog is the old one
  -- and the runtime is untouched or was given the old one again, unless the error reports that the
  -- rollback failed too. It holds for both orders of writing and for every edit.
  pub update-Outcome :
      (runtime_first : Bool) (edit : Edit E) (w : W)
      → Outcome edit w (update parse_url (some b) runtime_first edit w)
  unfolding update
  update-Outcome runtime_first edit w = elim (Result-cases (b.load w)) [
    | inr (e, p) ↦ refused edit w _ (load_failed e) w (rw (p, update)) (inl (refl, inl refl))
    | inl (current, p) ↦ elim (Result-cases (edit current)) [
      | inr (e, q) ↦ refused edit w _ e w (rw (p, q, update)) (inl (refl, inl refl))
      | inl (next, q) ↦ elim (Result-cases (validate parse_url next)) [
        | inr (e, v) ↦ refused edit w _ (invalid e) w (rw (p, q, v, update)) (inl (refl, inl refl))
        | inl (u, v) ↦ write runtime_first edit current next w (laws.load_stored w current p) q v p
      ]
    ]
  ]
