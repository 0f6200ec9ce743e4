-- ===== src/Sse/Bounds.antt =====
-- What Decode of internal/protocol/sse/sse.go hands to its callback, whatever the input.
use kokekokkor.Common.{
  ℕ, ◌+◌, ◌≤◌, ◌≡◌, refl, sym, subst, true, false, ◌&&◌, Option, none, some, List, [], ◌∷◌, ◌++◌,
  length, length-append, ◌⊎◌, ◌==◌, ℕ_eq, if◌then◌else◌, if_both, Bool-cases, Option-cases, inl,
  inr, ltb, leb, ltb-false, arith,
}
use kokekokkor.Sse.{
  Event, LineStep, flushes, too_large, pends, line_too_long, data_too_large, emit_failed, no_event,
  colon, max_line_bytes, max_event_data_bytes, event_field, data_field, add_data, read_field,
  cut_field, read_line, flush, decode_lines, decode, carriage_return,
}
use kokekokkor.Sse.Split.{split, is_empty, bytes_eq, drop_last, lines_of}

abbrev pub IsWithin : Event → Type 0
IsWithin e = length e.data_ ≤ max_event_data_bytes

abbrev IsWithinStep : LineStep → Type 0
IsWithinStep flushes = Unit
IsWithinStep too_large = Unit
IsWithinStep (pends q) = IsWithin q

add_data-IsWithinStep : (value : List ℕ) (p : Event) → IsWithinStep (add_data value p)
unfolding add_data
add_data-IsWithinStep value p = elim (Bool-cases (is_empty p.data_)) [
  | inl first ↦ data_case (length value) value (ground (arith, first)) (omega arith)
  | inr later ↦
      data_case (length value + 1) (p.data_ ++ (10 ∷ value)) (ground (arith, later))
        (omega (arith, length-append p.data_ (10 ∷ value)))
]
  where
    data_case :
        (additional : ℕ) (longer : List ℕ)
        → add_data value p ≡ (
            if ltb max_event_data_bytes (length p.data_ + additional)
            then too_large
            else pends (record p { data_ = longer }))
        → length longer ≤ length p.data_ + additional
        → IsWithinStep (add_data value p)
    data_case additional longer e fits =
        subst IsWithinStep (sym e)
          (elim (Bool-cases (ltb max_event_data_bytes (length p.data_ + additional))) [
            | inl large ↦ rw large tt
            | inr small ↦ rw small (omega (arith, fits, ltb-false _ _ small))
          ])

read_line-IsWithinStep : (line : List ℕ) (p : Event) → IsWithin p → IsWithinStep (read_line line p)
unfolding read_line read_field
read_line-IsWithinStep [] p h = tt
read_line-IsWithinStep (b ∷ line) p h =
    let cut = cut_field (b ∷ line) in
    if_both IsWithinStep (b == colon) h (
      if_both IsWithinStep (bytes_eq cut.0 event_field) h
        (if_both IsWithinStep (bytes_eq cut.0 data_field) (add_data-IsWithinStep cut.1 p) h))

LineStep-cases : (x : LineStep) → (x ≡ flushes) ⊎ (x ≡ too_large) ⊎ ((q : Event) × (x ≡ pends q))
LineStep-cases flushes = inl refl
LineStep-cases too_large = inr (inl refl)
LineStep-cases (pends q) = inr (inr (q, refl))

module _ {S E : Type 0} (emit : Event → S → Option E × S) (P : S → Type 0)
    (emit_keeps : (e : Event) (s : S)
      → IsWithin e
      → (is_empty e.name && is_empty e.data_) ≡ false
      → P s
      → P (emit e s).1) where
  flush_keeps : (p : Event) (s : S) → IsWithin p → P s → P (flush emit p s).1
  unfolding flush
  flush_keeps p s within h = elim (Bool-cases (is_empty p.name && is_empty p.data_)) [
    | inl blank ↦ subst (λ out. P out.1) (sym (skipped blank)) h
    | inr given ↦ elim (Option-cases (emit p s).0) [
      | inl fine ↦ subst (λ out. P out.1) (sym (handed given fine)) (emit_keeps p s within given h)
      | inr (e, failed) ↦
          subst (λ out. P out.1) (sym (stopped e given failed)) (emit_keeps p s within given h)
    ]
  ]
    where
      skipped : (is_empty p.name && is_empty p.data_) ≡ true → flush emit p s ≡ (none, s)
      skipped blank = ground (arith, blank)

      handed :
          (is_empty p.name && is_empty p.data_) ≡ false
          → (emit p s).0 ≡ none
          → flush emit p s ≡ (none, (emit p s).1)
      handed given fine = ground (arith, given, fine)

      stopped :
          (e : E)
          → (is_empty p.name && is_empty p.data_) ≡ false
          → (emit p s).0 ≡ some e
          → flush emit p s ≡ (some (emit_failed e), (emit p s).1)
      stopped e given failed = ground (arith, given, failed)

  decode_lines_keeps :
      (lines : List (List ℕ)) (p : Event) (s : S)
      → IsWithin p
      → P s
      → P (decode_lines emit lines p s).1
  unfolding decode_lines
  decode_lines_keeps [] p s within h = flush_keeps p s within h
  decode_lines_keeps (raw ∷ lines) p s within h =
      let text = drop_last carriage_return (drop_last carriage_return raw) in
      let step_within = read_line-IsWithinStep text p within in
      let all = decode_lines emit (raw ∷ lines) p s in
      let flushed = flush emit p s in
      let flushed_keeps = flush_keeps p s within h in
      elim (Bool-cases (leb max_line_bytes (length raw))) [
        | inl long ↦
            let out : all ≡ (some line_too_long, s) = rw (decode_lines, long) in
            subst (λ o. P o.1) (sym out) h
        | inr short ↦ elim (LineStep-cases (read_line text p)) [
          | inr (inl large) ↦
              let out : all ≡ (some data_too_large, s) = rw (decode_lines, short, large) in
              subst (λ o. P o.1) (sym out) h
          | inr (inr (q, goes)) ↦
              let out : all ≡ decode_lines emit lines q s = rw (decode_lines, short, goes) in
              subst (λ o. P o.1) (sym out)
                (decode_lines_keeps lines q s (subst IsWithinStep goes step_within) h)
          | inl ends ↦ elim (Option-cases flushed.0) [
            | inl fine ↦
                let out : all ≡ decode_lines emit lines no_event flushed.1 =
                  rw (decode_lines, short, ends, fine) in
                subst (λ o. P o.1) (sym out)
                  (decode_lines_keeps lines no_event flushed.1 (omega arith) flushed_keeps)
            | inr (e, failed) ↦
                let out : all ≡ (some e, flushed.1) = rw (decode_lines, short, ends, failed) in
                subst (λ o. P o.1) (sym out) flushed_keeps
          ]
        ]
      ]

  -- What every call of `emit` on a non-blank event within the limit keeps, Decode keeps, on every
  -- input and also where it fails: no other event reaches `emit`.
  pub decode_keeps : (input : List ℕ) (s : S) → P s → P (decode emit input s).1
  unfolding decode
  decode_keeps input s h = decode_lines_keeps (lines_of (split 10 input)) no_event s (omega arith) h
