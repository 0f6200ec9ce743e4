-- ===== src/Sse/Tests.antt =====
-- Runs of sse.go's model: two written events, and a stream with a comment and an unknown field.
use kokekokkor.Common.{
  ℕ, ◌≡◌, refl, false, ◌&&◌, Option, none, some, List, [], ◌∷◌, All, inl, arith,
}
use kokekokkor.Sse.{
  Event, drop_space, cut_field, add_data, read_field, read_line, flush, decode_lines, decode,
  data_line, data_lines, name_line, write,
}
use kokekokkor.Sse.Split.{split, is_empty, drop_last, lines_of, last_lines}
use kokekokkor.Sse.RoundTrip.{IsPlain, write_all, emit_all, decode-write_all}
use kokekokkor.Sse.Bounds.{IsWithin, decode_keeps}

abbrev named_event : Event
named_event = record { name = 112 ∷ 58 ∷ []; data_ = 104 ∷ 10 ∷ 10 ∷ 105 ∷ [] }

abbrev bare_event : Event
bare_event = record { name = []; data_ = 58 ∷ 32 ∷ [] }

-- `emit` that collects, and fails on a third event.
abbrev collect : Event → List Event → Option ℕ × List Event
collect e [] = (none, e ∷ [])
collect e (a ∷ []) = (none, a ∷ e ∷ [])
collect e (a ∷ b ∷ seen) = (some 3, a ∷ b ∷ seen)

-- `: c`, `data: x`, `id: 7`, an end of line with a carriage return, and no last blank line.
read_stream :
    decode collect
      (58 ∷ 99 ∷ 10 ∷ 100 ∷ 97 ∷ 116 ∷ 97 ∷ 58 ∷ 120 ∷ 13 ∷ 10 ∷ 105 ∷ 100 ∷ 58 ∷ 55 ∷ 10 ∷ [])
      []
    ≡ (none, record { name = []; data_ = 120 ∷ [] } ∷ [])
unfolding decode decode_lines read_line read_field add_data cut_field drop_space flush split
    drop_last lines_of last_lines
read_stream = refl

-- Data that begins with a line feed does not come back: Decode joins lines only once one had bytes.
leading_feed :
    decode collect (write (record { name = 110 ∷ []; data_ = 10 ∷ 120 ∷ [] })) []
    ≡ (none, record { name = 110 ∷ []; data_ = 120 ∷ [] } ∷ [])
unfolding write data_lines data_line name_line decode decode_lines read_line read_field add_data
    cut_field drop_space flush split drop_last lines_of last_lines
leading_feed = refl

named-IsPlain : IsPlain named_event
unfolding split drop_last
named-IsPlain = record {
  given = refl;
  name_free = (refl, (refl, tt));
  name_fits = (refl, omega arith);
  starts = inl refl;
  first_fits = (refl, omega arith);
  others_fit = ((refl, omega arith), ((refl, omega arith), tt));
  bounded = omega arith;
}

bare-IsPlain : IsPlain bare_event
unfolding split drop_last
bare-IsPlain = record {
  given = refl;
  name_free = tt;
  name_fits = (refl, omega arith);
  starts = inl refl;
  first_fits = (refl, omega arith);
  others_fit = tt;
  bounded = omega arith;
}

decode-write_all_example :
    decode collect (write_all (named_event ∷ bare_event ∷ bare_event ∷ [])) []
    ≡ emit_all collect (named_event ∷ bare_event ∷ bare_event ∷ []) []
decode-write_all_example =
    decode-write_all collect (named_event ∷ bare_event ∷ bare_event ∷ []) []
      (named-IsPlain, (bare-IsPlain, (bare-IsPlain, tt)))

collect-IsWithin :
    (e : Event) (seen : List Event)
    → IsWithin e
    → (is_empty e.name && is_empty e.data_) ≡ false
    → All IsWithin seen
    → All IsWithin (collect e seen).1
collect-IsWithin e [] within given seen = (within, tt)
collect-IsWithin e (a ∷ []) within given seen = (seen.0, (within, tt))
collect-IsWithin e (a ∷ b ∷ more) within given seen = seen

decode_keeps_example : All IsWithin (decode collect (100 ∷ 97 ∷ 116 ∷ 97 ∷ 58 ∷ 120 ∷ 10 ∷ []) []).1
decode_keeps_example =
    decode_keeps collect (All IsWithin) collect-IsWithin (100 ∷ 97 ∷ 116 ∷ 97 ∷ 58 ∷ 120 ∷ 10 ∷ [])
      [] tt
