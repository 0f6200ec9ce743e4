-- ===== src/Stream/Ended.antt =====
-- How the streams end that DecodeMessagesStream of internal/protocol/anthropic/messages_stream.go emits.
use kokekokkor.Common.{
  String, Bool, true, false, not, ◌&&◌, ◌||◌, Option, none, List, [], ◌∷◌, ◌++◌, ◌≡◌, refl, sym, ap,
  ◌∙◌, ◌==◌, string_eq, if_both, Bool-cases, Option-cases, inl, inr, arith,
}
use kokekokkor.Llm.{ℤ, stop_unknown}
use kokekokkor.Stream.{StreamEvent, event_response_start, event_response_stop, event_error}
use kokekokkor.Stream.Anthropic.{
  ℤ_eq, StreamUsage, BlockStart, text_start, thinking_start, other_start, tool_use_start,
  redacted_start, Delta, text_part, json_part, thinking_part, other_part, signature_part, Wire,
  no_data, bad_json, ping, message_stop, message_start, block_start, block_delta, block_stop,
  message_delta, error_event, other_event, Decoder, flag, Outcome, start_block, think, take_delta,
  stop_block, change_message, step, decode_messages_stream,
}

-- A stop event names a reason that is known.
abbrev pub is_fine : StreamEvent → Bool
is_fine e =
    not (e.kind == event_response_stop)
    || not (e.stop_reason == "") && not (e.stop_reason == stop_unknown)

abbrev pub all_fine : List StreamEvent → Bool
all_fine [] = true
all_fine (e ∷ events) = is_fine e && all_fine events

abbrev pub has_end : List StreamEvent → Bool
has_end [] = false
has_end (e ∷ events) = e.kind == event_response_stop || e.kind == event_error || has_end events

abbrev pub has_start : List StreamEvent → Bool
has_start [] = false
has_start (e ∷ events) = e.kind == event_response_start || has_start events

-- What one call keeps: fine events, a stop only with an end event, a start noted.
abbrev IsKept : Decoder → Outcome → Type 0
IsKept d out =
    (all_fine out.0 ≡ true)
    × ((not out.2.stopped || d.stopped || has_end out.0) ≡ true)
    × ((not (d.started || has_start out.0) || out.2.started) ≡ true)

not_or : (b : Bool) → (not b || b || false) ≡ true
not_or true = refl
not_or false = refl

or_same : (b : Bool) → (not (b || false) || b) ≡ true
or_same true = refl
or_same false = refl

start_block-IsKept : (i : ℤ) (start : BlockStart) (d : Decoder) → IsKept d (start_block i start d)
unfolding start_block
start_block-IsKept i (text_start text) d = elim (Bool-cases (text == "")) [
  | inl blank ↦ rw (start_block, blank) (refl, not_or d.stopped, or_same d.started)
  | inr full ↦ rw (start_block, full) (refl, not_or d.stopped, or_same d.started)
]
start_block-IsKept i (tool_use_start id name input) d = (refl, not_or d.stopped, or_same d.started)
start_block-IsKept i (thinking_start text) d =
    if_both (IsKept d) (text == "") (refl, not_or d.stopped, or_same d.started)
      (refl, not_or d.stopped, or_same d.started)
start_block-IsKept i redacted_start d = (refl, not_or d.stopped, or_same d.started)
start_block-IsKept i (other_start kind) d = (refl, not_or d.stopped, or_same d.started)

think-IsKept : (i : ℤ) (text : String) (d : Decoder) → IsKept d (think i text d)
unfolding think
think-IsKept i text d = elim (Bool-cases (flag i d.thinking_started)) [
  | inl began ↦ elim (Bool-cases (text == "")) [
    | inl blank ↦ rw (think, began, blank) (refl, not_or d.stopped, or_same d.started)
    | inr full ↦ rw (think, began, full) (refl, not_or d.stopped, or_same d.started)
  ]
  | inr fresh ↦ elim (Bool-cases (text == "")) [
    | inl blank ↦ rw (think, fresh, blank) (refl, not_or d.stopped, or_same d.started)
    | inr full ↦ rw (think, fresh, full) (refl, not_or d.stopped, or_same d.started)
  ]
]

take_delta-IsKept : (i : ℤ) (delta : Delta) (d : Decoder) → IsKept d (take_delta i delta d)
unfolding take_delta
take_delta-IsKept i (text_part text) d = (refl, not_or d.stopped, or_same d.started)
take_delta-IsKept i (json_part part) d = (refl, not_or d.stopped, or_same d.started)
take_delta-IsKept i (thinking_part text) d =
    if_both (IsKept d) (flag i d.thinking_blocks) (think-IsKept i text d)
      (refl, not_or d.stopped, or_same d.started)
take_delta-IsKept i signature_part d =
    if_both (IsKept d) (flag i d.thinking_blocks) (refl, not_or d.stopped, or_same d.started)
      (refl, not_or d.stopped, or_same d.started)
take_delta-IsKept i (other_part kind) d = (refl, not_or d.stopped, or_same d.started)

stop_block-IsKept : (i : ℤ) (d : Decoder) → IsKept d (stop_block i d)
unfolding stop_block
stop_block-IsKept i d = elim (Bool-cases (flag i d.thinking_started)) [
  | inl began ↦
      rw (stop_block, began)
        (if_both (IsKept d) (flag i d.thinking_blocks) (refl, not_or d.stopped, or_same d.started)
          (refl, not_or d.stopped, or_same d.started))
  | inr fresh ↦
      rw (stop_block, fresh)
        (if_both (IsKept d) (flag i d.thinking_blocks) (refl, not_or d.stopped, or_same d.started)
          (refl, not_or d.stopped, or_same d.started))
]

change_message-IsKept :
    (reason : String) (sequence : Option String) (wire : StreamUsage) (d : Decoder)
    → IsKept d (change_message reason sequence wire d)
unfolding change_message
change_message-IsKept reason sequence wire d =
    if_both (IsKept d) _ (refl, not_or d.stopped, or_same d.started)
      (refl, not_or d.stopped, or_same d.started)

step-IsKept : (w : Wire) (d : Decoder) → IsKept d (step w d)
unfolding step
step-IsKept no_data d = (refl, not_or d.stopped, or_same d.started)
step-IsKept bad_json d = (refl, not_or d.stopped, or_same d.started)
step-IsKept ping d = (refl, not_or d.stopped, or_same d.started)
step-IsKept (message_start id model wire) d = (refl, not_or d.stopped, ground arith)
step-IsKept (block_start i start) d = start_block-IsKept i start d
step-IsKept (block_delta i delta) d = take_delta-IsKept i delta d
step-IsKept (block_stop i) d = stop_block-IsKept i d
step-IsKept (message_delta reason sequence wire) d = change_message-IsKept reason sequence wire d
step-IsKept message_stop d =
    elim (Bool-cases (d.pending_stop == "" || d.pending_stop == stop_unknown)) [
      | inl bad ↦ rw (step, bad) (refl, not_or d.stopped, or_same d.started)
      | inr good ↦
          let fine : (not (d.pending_stop == "") && not (d.pending_stop == stop_unknown)) ≡ true =
            ground (arith, good) in
          rw (step, good) (ground (arith, fine), ground arith, or_same d.started)
    ]
step-IsKept (error_event code message) d = (refl, ground arith, or_same d.started)
step-IsKept (other_event kind) d = (refl, not_or d.stopped, or_same d.started)

all_fine-append : (es fs : List StreamEvent) → all_fine (es ++ fs) ≡ (all_fine es && all_fine fs)
all_fine-append [] fs = refl
all_fine-append (e ∷ es) fs = ground (arith, all_fine-append es fs)

has_end-append : (es fs : List StreamEvent) → has_end (es ++ fs) ≡ (has_end es || has_end fs)
has_end-append [] fs = refl
has_end-append (e ∷ es) fs = ground (arith, has_end-append es fs)

has_start-append :
    (es fs : List StreamEvent) → has_start (es ++ fs) ≡ (has_start es || has_start fs)
has_start-append [] fs = refl
has_start-append (e ∷ es) fs = ground (arith, has_start-append es fs)

-- Every stop event of a stream names a known reason, also where the stream fails.
pub decode_messages_stream-all_fine :
    (wires : List Wire) (d : Decoder) → all_fine (decode_messages_stream wires d).0 ≡ true
unfolding decode_messages_stream
decode_messages_stream-all_fine [] d = refl
decode_messages_stream-all_fine (w ∷ wires) d =
    let (fine, _, _) = step-IsKept w d in
    let rest = decode_messages_stream-all_fine wires (step w d).2 in
    let both = all_fine-append (step w d).0 (decode_messages_stream wires (step w d).2).0 in
    elim (Option-cases (step w d).1) [
      | inl went ↦ rw (decode_messages_stream, went) (ground (arith, fine, rest, both))
      | inr (fault, failed) ↦ rw (decode_messages_stream, failed) fine
    ]

-- A stream that was started and does not fail holds a stop or an error event, unless the decoder was
-- stopped before; the decoder may also have been started before.
pub decode_messages_stream-has_end :
    (wires : List Wire) (d : Decoder)
    → (decode_messages_stream wires d).1 ≡ none
    → (d.started || has_start (decode_messages_stream wires d).0) ≡ true
    → (d.stopped || has_end (decode_messages_stream wires d).0) ≡ true
unfolding decode_messages_stream
decode_messages_stream-has_end [] d went begun = ground (arith, went, begun)
decode_messages_stream-has_end (w ∷ wires) d went begun =
    let (_, ends, starts) = step-IsKept w d in
    let next = (step w d).2 in
    let out = decode_messages_stream wires next in
    elim (Option-cases (step w d).1) [
      | inr (fault, failed) ↦ ground (arith, went, failed)
      | inl fine ↦
          let whole : decode_messages_stream (w ∷ wires) d ≡ ((step w d).0 ++ out.0, out.1) =
            rw (decode_messages_stream, fine) in
          let rest = decode_messages_stream-has_end wires next (sym (ap (λ o. o.1) whole) ∙ went) in
          let begins = ap (λ o. has_start o.0) whole ∙ has_start-append (step w d).0 out.0 in
          let finishes = ap (λ o. has_end o.0) whole ∙ has_end-append (step w d).0 out.0 in
          ground (arith, begun, ends, starts, rest, begins, finishes)
    ]
