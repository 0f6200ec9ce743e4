-- ===== src/Sse/Lines.antt =====
-- What Decode in internal/protocol/sse/sse.go does with the lines that Write puts out.
use mathlib.Core.List.{append_assoc}
use kokekokkor.Common.{
  ℕ, ◌+◌, ◌≤◌, ◌≡◌, refl, ap, ◌∙◌, false, Option, List, [], ◌∷◌, ◌++◌, length, length-append, ℕ_eq,
  if◌then◌else◌, Bool-cases, inl, inr, leb, arith,
}
use kokekokkor.Sse.{
  Event, pends, data_field, event_field, max_line_bytes, max_event_data_bytes, add_data, read_field,
  read_line, cut_field, drop_space, decode_lines, data_line, name_line, carriage_return,
}
use kokekokkor.Sse.Split.{split, is_empty, drop_last, lines_of, IsFree, lines_of-append}

-- A piece that a line carries whole: no carriage return is lost and the line is not too long.
abbrev pub IsLine : List ℕ → Type 0
IsLine piece = (drop_last carriage_return piece ≡ piece) × (length piece + 8 ≤ max_line_bytes)

abbrev pub data_text : List ℕ → List ℕ
data_text piece = data_field ++ (58 ∷ 32 ∷ piece)

abbrev pub event_text : List ℕ → List ℕ
event_text name = event_field ++ (58 ∷ 32 ∷ name)

drop-data_text :
    (piece : List ℕ) → drop_last 13 piece ≡ piece → drop_last 13 (data_text piece) ≡ data_text piece
unfolding drop_last
drop-data_text [] e = refl
drop-data_text (b ∷ piece) e = ap data_text e

drop-event_text :
    (name : List ℕ) → drop_last 13 name ≡ name → drop_last 13 (event_text name) ≡ event_text name
unfolding drop_last
drop-event_text [] e = refl
drop-event_text (b ∷ name) e = ap event_text e

read_line-data_text :
    (piece : List ℕ) (p : Event) → read_line (data_text piece) p ≡ add_data piece p
unfolding read_line read_field cut_field drop_space
read_line-data_text piece p = refl

read_line-event_text :
    (name : List ℕ) (p : Event) → read_line (event_text name) p ≡ pends (record p { name = name })
unfolding read_line read_field cut_field drop_space
read_line-event_text name p = refl

pub lines_of-data_line :
    (piece rest : List ℕ)
    → IsFree 10 piece
    → lines_of (split 10 (data_line piece ++ rest)) ≡ data_text piece ∷ lines_of (split 10 rest)
unfolding data_line
lines_of-data_line piece rest free =
    ap (λ t. lines_of (split 10 (data_text t))) (append_assoc piece (10 ∷ []) rest)
    ∙ lines_of-append (data_text piece) rest (refl, (refl, (refl, (refl, (refl, (refl, free))))))

pub lines_of-name_line :
    (b : ℕ) (name rest : List ℕ)
    → IsFree 10 (b ∷ name)
    → lines_of (split 10 (name_line (b ∷ name) ++ rest))
      ≡ event_text (b ∷ name) ∷ lines_of (split 10 rest)
unfolding name_line
lines_of-name_line b name rest free =
    ap (λ t. lines_of (split 10 (event_text t))) (append_assoc (b ∷ name) (10 ∷ []) rest)
    ∙ lines_of-append (event_text (b ∷ name)) rest
        (refl, (refl, (refl, (refl, (refl, (refl, (refl, free)))))))

-- The pending event after a data line that fits.
abbrev pub with_data : List ℕ → Event → Event
with_data piece p = record p { data_ = if is_empty p.data_ then piece else p.data_ ++ (10 ∷ piece) }

add_data_fits :
    (piece : List ℕ) (p : Event)
    → length (with_data piece p).data_ ≤ max_event_data_bytes
    → add_data piece p ≡ pends (with_data piece p)
unfolding add_data
add_data_fits piece p fits = elim (Bool-cases (is_empty p.data_)) [
  | inl first ↦ ground (arith, fits, first)
  | inr later ↦ ground (arith, fits, later, length-append p.data_ (10 ∷ piece))
]

module _ {S E : Type 0} (emit : Event → S → Option E × S) where
  pub decode-data_text :
      (piece : List ℕ) (lines : List (List ℕ)) (p : Event) (s : S)
      → IsLine piece
      → length (with_data piece p).data_ ≤ max_event_data_bytes
      → decode_lines emit (data_text piece ∷ lines) p s
        ≡ decode_lines emit lines (with_data piece p) s
  unfolding decode_lines
  decode-data_text piece lines p s line fits =
      let short : leb max_line_bytes (length (data_text piece)) ≡ false = ground (arith, line.1) in
      let kept = drop-data_text piece line.0 in
      rw (short, kept, kept, read_line-data_text piece p, add_data_fits piece p fits)

  pub decode-event_text :
      (name : List ℕ) (lines : List (List ℕ)) (p : Event) (s : S)
      → IsLine name
      → decode_lines emit (event_text name ∷ lines) p s
        ≡ decode_lines emit lines (record p { name = name }) s
  unfolding decode_lines
  decode-event_text name lines p s line =
      let short : leb max_line_bytes (length (event_text name)) ≡ false = ground (arith, line.1) in
      let kept = drop-event_text name line.0 in rw (short, kept, kept, read_line-event_text name p)
