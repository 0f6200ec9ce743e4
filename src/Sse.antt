-- ===== src/Sse.antt =====
-- internal/protocol/sse/sse.go: server-sent events, read line by line and written.
-- Text is a list of bytes, a byte a number. `bufio.Scanner` over the whole input is written out: it
-- splits at line feeds, drops one carriage return at the end of a line and the last line if it is
-- empty, and stops with an error at a line of `maxLineBytes` bytes. Writers do not fail.
pub mod Split
pub mod Lines
pub mod RoundTrip
pub mod Bounds
mod Tests
use kokekokkor.Common.{
  ℕ, zero, suc, ◌+◌, ◌*◌, ◌^◌, Bool, true, false, not, ◌&&◌, Option, none, some, List, [], ◌∷◌,
  ◌++◌, length, ltb, leb, ◌==◌, ℕ_eq, if◌then◌else◌,
}
use Split.{split, is_empty, bytes_eq, drop_last, lines_of}

abbrev pub max_line_bytes : ℕ
max_line_bytes = 4 * 2 ^ 20

abbrev pub max_event_data_bytes : ℕ
max_event_data_bytes = 8 * 2 ^ 20

pub record Event : Type 0 where
  pub name : List ℕ
  pub data_ : List ℕ

pub data DecodeError (E : Type 0) : Type 0 where
  data_too_large line_too_long : DecodeError E
  emit_failed : E → DecodeError E

-- `event` and `data`, the variables of the closure.
abbrev pub no_event : Event
no_event = record { name = []; data_ = [] }

abbrev pub line_feed : ℕ
line_feed = 10

abbrev pub carriage_return : ℕ
carriage_return = 13

abbrev pub colon : ℕ
colon = 58

abbrev pub space : ℕ
space = 32

abbrev pub event_field : List ℕ
event_field = 101 ∷ 118 ∷ 101 ∷ 110 ∷ 116 ∷ []

abbrev pub data_field : List ℕ
data_field = 100 ∷ 97 ∷ 116 ∷ 97 ∷ []

-- One leading space of a value is dropped.
unfoldable pub drop_space : List ℕ → List ℕ
drop_space [] = []
drop_space (b ∷ bs) = if b == space then bs else b ∷ bs

-- `strings.Cut(line, ":")` and what follows it: the field and its value.
unfoldable pub cut_field : List ℕ → List ℕ × List ℕ
cut_field [] = ([], [])
cut_field (b ∷ bs) =
    let rest = cut_field bs in if b == colon then ([], drop_space bs) else (b ∷ rest.0, rest.1)

-- What a line does to the pending event.
pub data LineStep : Type 0 where
  flushes too_large : LineStep
  pends : Event → LineStep

unfoldable pub add_data : List ℕ → Event → LineStep
add_data value p =
    let additional = if is_empty p.data_ then length value else length value + 1 in
    if ltb max_event_data_bytes (length p.data_ + additional)
    then too_large
    else pends
        (record p { data_ = if is_empty p.data_ then value else p.data_ ++ (line_feed ∷ value) })

unfoldable pub read_field : List ℕ × List ℕ → Event → LineStep
unfolding add_data
read_field (field, value) p =
    if bytes_eq field event_field
    then pends (record p { name = value })
    else if bytes_eq field data_field
    then add_data value p
    else pends p

unfoldable pub read_line : List ℕ → Event → LineStep
unfolding read_field
read_line [] p = flushes
read_line (b ∷ bs) p = if b == colon then pends p else read_field (cut_field (b ∷ bs)) p

module _ {S E : Type 0} (emit : Event → S → Option E × S) where
  unfoldable pub flush : Event → S → Option (DecodeError E) × S
  flush p s =
      let out = emit p s in
      if is_empty p.name && is_empty p.data_
      then (none, s)
      else elim out.0 [ none ↦ (none, out.1) | some e ↦ (some (emit_failed e), out.1) ]

  -- The loop over the scanner's lines; both the scanner and the loop drop a carriage return.
  unfoldable pub decode_lines : List (List ℕ) → Event → S → Option (DecodeError E) × S
  unfolding flush
  decode_lines [] p s = flush p s
  decode_lines (raw ∷ lines) p s =
      let flushed = flush p s in
      if leb max_line_bytes (length raw)
      then (some line_too_long, s)
      else elim (read_line (drop_last carriage_return (drop_last carriage_return raw)) p) [
        | too_large ↦ (some data_too_large, s)
        | pends q ↦ decode_lines lines q s
        | flushes ↦ elim flushed.0 [
          | some e ↦ (some e, flushed.1)
          | none ↦ decode_lines lines no_event flushed.1
        ]
      ]

  unfoldable pub decode : List ℕ → S → Option (DecodeError E) × S
  unfolding decode_lines
  decode input s = decode_lines (lines_of (split line_feed input)) no_event s

unfoldable pub data_line : List ℕ → List ℕ
data_line piece = data_field ++ (colon ∷ space ∷ (piece ++ (line_feed ∷ [])))

unfoldable pub data_lines : List (List ℕ) → List ℕ
data_lines [] = []
data_lines (piece ∷ pieces) = data_line piece ++ data_lines pieces

unfoldable pub name_line : List ℕ → List ℕ
name_line name =
    if is_empty name then [] else event_field ++ (colon ∷ space ∷ (name ++ (line_feed ∷ [])))

unfoldable pub write : Event → List ℕ
unfolding data_lines name_line
write e =
    let pieces = split line_feed e.data_ in
    (name_line e.name ++ data_lines (pieces.0 ∷ pieces.1)) ++ (line_feed ∷ [])
