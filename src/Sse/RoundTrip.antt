-- ===== src/Sse/RoundTrip.antt =====
-- Write and Decode of internal/protocol/sse/sse.go against each other.
use mathlib.Core.List.{append_assoc, append-nil}
use kokekokkor.Common.{
  ℕ, ◌+◌, ◌≤◌, ◌≡◌, refl, sym, ap, ◌∙◌, false, ◌&&◌, Option, none, some, List, [], ◌∷◌, ◌++◌,
  length, length-append, All, ◌⊎◌, ℕ_eq, Option-cases, inl, inr, arith,
}
use kokekokkor.Sse.{
  Event, DecodeError, emit_failed, no_event, max_event_data_bytes, read_line, flush, decode_lines,
  decode, data_line, data_lines, name_line, write,
}
use kokekokkor.Sse.Split.{
  split, is_empty, drop_last, lines_of, last_lines, IsFree, lines_of-append, joined, split-joined,
  split-IsFree,
}
use kokekokkor.Sse.Lines.{
  IsLine, with_data, lines_of-data_line, lines_of-name_line, decode-data_text, decode-event_text,
}

-- The events that the format carries: not blank, a name of one line, data that does not begin with a
-- line feed, no line that ends with a carriage return or is too long, data within the limit.
pub record IsPlain (e : Event) : Type 0 where
  pub given : (is_empty e.name && is_empty e.data_) ≡ false
  pub name_free : IsFree 10 e.name
  pub name_fits : IsLine e.name
  pub starts : (is_empty (split 10 e.data_).0 ≡ false) ⊎ ((split 10 e.data_).1 ≡ [])
  pub first_fits : IsLine (split 10 e.data_).0
  pub others_fit : All IsLine (split 10 e.data_).1
  pub bounded : length e.data_ ≤ max_event_data_bytes

is_empty-append : {A : Type 0} (xs ys : List A) → is_empty xs ≡ false → is_empty (xs ++ ys) ≡ false
is_empty-append [] ys e = cc
is_empty-append (x ∷ xs) ys e = refl

abbrev pub write_all : List Event → List ℕ
write_all [] = []
write_all (e ∷ events) = write e ++ write_all events

module _ {S E : Type 0} (emit : Event → S → Option E × S) where
  -- The reader at the start of a text.
  abbrev reads : List ℕ → Event → S → Option (DecodeError E) × S
  reads input p s = decode_lines emit (lines_of (split 10 input)) p s

  reads-data_line :
      (piece rest : List ℕ) (p : Event) (s : S)
      → IsFree 10 piece
      → IsLine piece
      → length (with_data piece p).data_ ≤ max_event_data_bytes
      → reads (data_line piece ++ rest) p s ≡ reads rest (with_data piece p) s
  reads-data_line piece rest p s free line fits =
      ap (λ lines. decode_lines emit lines p s) (lines_of-data_line piece rest free)
      ∙ decode-data_text emit piece (lines_of (split 10 rest)) p s line fits

  -- Data lines after the first one.
  reads-data_lines :
      (pieces : List (List ℕ)) (rest : List ℕ) (p : Event) (s : S)
      → All (IsFree 10) pieces
      → All IsLine pieces
      → is_empty p.data_ ≡ false
      → length p.data_ + length (joined pieces) ≤ max_event_data_bytes
      → reads (data_lines pieces ++ rest) p s
        ≡ reads rest (record p { data_ = p.data_ ++ joined pieces }) s
  unfolding data_lines
  reads-data_lines [] rest p s free line started fits =
      ap (λ d. reads rest (record p { data_ = d }) s) (sym (append-nil p.data_))
  reads-data_lines (piece ∷ pieces) rest p s free line started fits =
      let longer : with_data piece p ≡ record p { data_ = p.data_ ++ (10 ∷ piece) } = rw started in
      let size = length-append p.data_ (10 ∷ piece) in
      let tail_size = length-append piece (joined pieces) in
      let bound : length (with_data piece p).data_ ≤ max_event_data_bytes =
        omega (arith, ap (λ q. length q.data_) longer, size, tail_size, fits) in
      ap (λ input. reads input p s) (append_assoc (data_line piece) (data_lines pieces) rest)
      ∙ reads-data_line piece (data_lines pieces ++ rest) p s free.0 line.0 bound
      ∙ ap (λ q. reads (data_lines pieces ++ rest) q s) longer
      ∙ reads-data_lines pieces rest (record p { data_ = p.data_ ++ (10 ∷ piece) }) s free.1 line.1
          (is_empty-append p.data_ (10 ∷ piece) started) (omega (arith, size, tail_size, fits))
      ∙ ap (λ d. reads rest (record p { data_ = d }) s)
          (append_assoc p.data_ (10 ∷ piece) (joined pieces))

  -- All the data lines of an event.
  reads_data :
      (e : Event) (rest : List ℕ) (p : Event) (s : S)
      → IsPlain e
      → p.data_ ≡ []
      → reads (data_lines ((split 10 e.data_).0 ∷ (split 10 e.data_).1) ++ rest) p s
        ≡ reads rest (record p { data_ = e.data_ }) s
  unfolding data_lines
  reads_data e rest p s plain blank =
      let first = (split 10 e.data_).0 in
      let others = (split 10 e.data_).1 in
      let (first_free, others_free) = split-IsFree e.data_ in
      let whole = split-joined e.data_ in
      let size = length-append first (joined others) in
      let all_size = ap length whole in
      let started : with_data first p ≡ record p { data_ = first } = rw blank in
      let bound : length (with_data first p).data_ ≤ max_event_data_bytes =
        omega (arith, ap (λ q. length q.data_) started, size, all_size, plain.bounded) in
      ap (λ input. reads input p s) (append_assoc (data_line first) (data_lines others) rest)
      ∙ reads-data_line first (data_lines others ++ rest) p s first_free plain.first_fits bound
      ∙ ap (λ q. reads (data_lines others ++ rest) q s) started
      ∙ elim plain.starts [
        | inl full ↦
            reads-data_lines others rest (record p { data_ = first }) s others_free plain.others_fit
              full (omega (arith, size, all_size, plain.bounded))
            ∙ ap (λ d. reads rest (record p { data_ = d }) s) whole
        | inr only ↦
            ap (λ ps. reads (data_lines ps ++ rest) (record p { data_ = first }) s) only
            ∙ ap (λ d. reads rest (record p { data_ = d }) s)
                (sym (append-nil first) ∙ ap (λ ps. first ++ joined ps) (sym only) ∙ whole)
      ]

  reads_name :
      (name rest : List ℕ) (s : S)
      → IsFree 10 name
      → IsLine name
      → reads (name_line name ++ rest) no_event s ≡ reads rest (record no_event { name = name }) s
  unfolding name_line
  reads_name [] rest s free line = refl
  reads_name (b ∷ name) rest s free line =
      ap (λ lines. decode_lines emit lines no_event s) (lines_of-name_line b name rest free)
      ∙ decode-event_text emit (b ∷ name) (lines_of (split 10 rest)) no_event s line

  -- What follows an event that was handed to `emit`.
  abbrev after_emit : List ℕ → Option E × S → Option (DecodeError E) × S
  after_emit rest out = elim out.0 [
    | none ↦ reads rest no_event out.1
    | some e ↦ (some (emit_failed e), out.1)
  ]

  reads_blank :
      (e : Event) (rest : List ℕ) (s : S)
      → (is_empty e.name && is_empty e.data_) ≡ false
      → reads (10 ∷ rest) e s ≡ after_emit rest (emit e s)
  unfolding decode_lines flush read_line drop_last
  reads_blank e rest s given =
      let line = lines_of-append [] rest tt in
      ap (λ lines. decode_lines emit lines e s) line ∙ elim (Option-cases (emit e s).0) [
        | inl fine ↦ ground (arith, given, fine)
        | inr (x, failed) ↦ ground (arith, given, failed)
      ]

  reads_event :
      (e : Event) (rest : List ℕ) (s : S)
      → IsPlain e
      → reads (write e ++ rest) no_event s ≡ after_emit rest (emit e s)
  unfolding write
  reads_event e rest s plain =
      let pieces = split 10 e.data_ in
      let texts = data_lines (pieces.0 ∷ pieces.1) in
      let shape : write e ++ rest ≡ name_line e.name ++ (texts ++ (10 ∷ rest)) =
        append_assoc (name_line e.name ++ texts) (10 ∷ []) rest
        ∙ append_assoc (name_line e.name) texts (10 ∷ rest) in
      ap (λ input. reads input no_event s) shape
      ∙ reads_name e.name (texts ++ (10 ∷ rest)) s plain.name_free plain.name_fits
      ∙ reads_data e (10 ∷ rest) (record no_event { name = e.name }) s plain refl
      ∙ reads_blank e rest s plain.given

  -- The events in order, until `emit` fails.
  unfoldable pub emit_all : List Event → S → Option (DecodeError E) × S
  emit_all [] s = (none, s)
  emit_all (e ∷ events) s =
      let out = emit e s in
      let rest = emit_all events out.1 in
      elim out.0 [ none ↦ rest | some x ↦ (some (emit_failed x), out.1) ]

  -- Decode of what Write put out hands the same events to `emit`, in order, until it fails.
  pub decode-write_all :
      (events : List Event) (s : S)
      → All IsPlain events
      → decode emit (write_all events) s ≡ emit_all events s
  unfolding decode emit_all decode_lines lines_of last_lines split flush
  decode-write_all [] s plain = refl
  decode-write_all (e ∷ events) s plain =
      reads_event e (write_all events) s plain.0 ∙ elim (Option-cases (emit e s).0) [
        | inl fine ↦ ground (arith, fine, decode-write_all events (emit e s).1 plain.1)
        | inr (x, failed) ↦ ground (arith, failed)
      ]
