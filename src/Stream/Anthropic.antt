-- ===== src/Stream/Anthropic.antt =====
-- DecodeMessagesStream of internal/protocol/anthropic/messages_stream.go, on parsed wire events.
-- A wire event is what `json.Unmarshal` makes of an event's data, or its failure. `emit` does not fail:
-- the events that a call emits are its result, in order.
use kokekokkor.Common.{
  String, Bool, true, false, not, ◌&&◌, ◌||◌, Option, none, some, List, [], ◌∷◌, ◌++◌, ◌≡◌, ◌↔◌,
  KeyEq, nat_eq, ℕ_eq, ◌==◌, string_eq, if◌then◌else◌, arith,
}
use kokekokkor.Common.Map.{Map, lookup, insert, delete}
use kokekokkor.Llm.{
  ℤ, pos, negsuc, text_block, tool_call_block, reasoning_block, Usage, stop_unknown,
}
use kokekokkor.Stream.{
  StreamEvent, zero_event, event_response_start, event_content_start, event_text_delta,
  event_reasoning_delta, event_tool_call_start, event_tool_call_delta, event_content_stop,
  event_usage, event_response_stop, event_error,
}

abbrev pub same_int : ℤ → ℤ → Bool
same_int (pos a) (pos b) = nat_eq a b
same_int (pos a) (negsuc b) = false
same_int (negsuc a) (pos b) = false
same_int (negsuc a) (negsuc b) = nat_eq a b

pub same_int_iff : (a b : ℤ) → (same_int a b ≡ true) ↔ (a ≡ b)
same_int_iff (pos a) (pos b) = ground arith
same_int_iff (pos a) (negsuc b) = ground arith
same_int_iff (negsuc a) (pos b) = ground arith
same_int_iff (negsuc a) (negsuc b) = ground arith

instance abbrev pub ℤ_eq : KeyEq ℤ
ℤ_eq = record { same = same_int; same_iff = same_int_iff }

pub record StreamUsage : Type 0 where
  pub input_tokens : Option ℤ
  pub output_tokens : Option ℤ
  pub cache_read_input_tokens : Option ℤ
  pub cache_creation_input_tokens : Option ℤ

pub data BlockStart : Type 0 where
  text_start thinking_start other_start : String → BlockStart
  tool_use_start : String → String → String → BlockStart
  redacted_start : BlockStart

pub data Delta : Type 0 where
  text_part json_part thinking_part other_part : String → Delta
  signature_part : Delta

pub data Wire : Type 0 where
  no_data bad_json ping message_stop : Wire
  message_start : String → String → StreamUsage → Wire
  block_start : ℤ → BlockStart → Wire
  block_delta : ℤ → Delta → Wire
  block_stop : ℤ → Wire
  message_delta : String → Option String → StreamUsage → Wire
  error_event : String → String → Wire
  other_event : String → Wire

pub data StreamFault : Type 0 where
  undecodable ended_without_reason ended_early : StreamFault
  unsupported_block unsupported_delta unsupported_reason unsupported_event : String → StreamFault
  unopened_block : ℤ → StreamFault

-- The variables of the closure.
pub record Decoder : Type 0 where
  pub started : Bool
  pub stopped : Bool
  pub usage : Usage
  pub thinking_blocks : Map ℤ Bool
  pub thinking_started : Map ℤ Bool
  pub pending_stop : String
  pub pending_sequence : String

abbrev pub new_decoder : Decoder
new_decoder = record {
  started = false;
  stopped = false;
  usage = record {
    input_tokens = pos 0;
    output_tokens = pos 0;
    reasoning_tokens = pos 0;
    cache_read_tokens = pos 0;
    cache_write_tokens = pos 0;
    metadata = [];
  };
  thinking_blocks = [];
  thinking_started = [];
  pending_stop = "";
  pending_sequence = "";
}

unfoldable pub decode_stop_reason : String → String
decode_stop_reason reason =
    if reason == "end_turn"
      || reason == "max_tokens"
      || reason == "stop_sequence"
      || reason == "tool_use"
    then reason
    else if reason == "refusal"
    then "content_filter"
    else stop_unknown

abbrev given_or : Option ℤ → ℤ → ℤ
given_or none old = old
given_or (some new) old = new

unfoldable pub merge_stream_usage : Usage → StreamUsage → Usage
merge_stream_usage u wire = record u {
  input_tokens = given_or wire.input_tokens u.input_tokens;
  output_tokens = given_or wire.output_tokens u.output_tokens;
  cache_read_tokens = given_or wire.cache_read_input_tokens u.cache_read_tokens;
  cache_write_tokens = given_or wire.cache_creation_input_tokens u.cache_write_tokens;
}

unfoldable pub error_retryable : String → Bool
error_retryable code = code == "overloaded_error" || code == "rate_limit_error"

-- `m[i]` of a map to bool.
unfoldable pub flag : ℤ → Map ℤ Bool → Bool
flag i m = elim (lookup i m) [ none ↦ false | some b ↦ b ]

-- What a call emits, its error, and the variables after it.
abbrev pub Outcome : Type 0
Outcome = List StreamEvent × Option StreamFault × Decoder

abbrev emits : List StreamEvent → Decoder → Outcome
emits events d = (events, none, d)

abbrev fails : StreamFault → Decoder → Outcome
fails fault d = ([], some fault, d)

abbrev content_start : ℤ → StreamEvent
content_start i = record zero_event {
  kind = event_content_start;
  index = i;
  block = reasoning_block "" "" "" [];
}

abbrev text_event : ℤ → String → StreamEvent
text_event i text = record zero_event { kind = event_text_delta; index = i; text_delta = text }

abbrev reasoning_event : ℤ → String → StreamEvent
reasoning_event i text = record zero_event {
  kind = event_reasoning_delta;
  index = i;
  reasoning_delta = text;
}

abbrev usage_event : Usage → StreamEvent
usage_event u = record zero_event { kind = event_usage; usage = some u }

unfoldable pub start_block : ℤ → BlockStart → Decoder → Outcome
start_block i (text_start text) d =
    let opening = record zero_event {
      kind = event_content_start;
      index = i;
      block = text_block text [];
    } in
    emits (if text == "" then opening ∷ [] else opening ∷ text_event i text ∷ []) d
start_block i (tool_use_start id name input) d =
    emits
      (record zero_event {
        kind = event_tool_call_start;
        index = i;
        block = tool_call_block id name (if input == "" || input == "null" then "{}" else input);
      }
        ∷ [])
      d
start_block i (thinking_start text) d =
    let opened = record d { thinking_blocks = insert i true d.thinking_blocks } in
    if text == ""
    then emits [] opened
    else emits (content_start i ∷ reasoning_event i text ∷ [])
        (record opened { thinking_started = insert i true d.thinking_started })
start_block i redacted_start d =
    emits [] (record d { thinking_blocks = insert i true d.thinking_blocks })
start_block i (other_start kind) d = fails (unsupported_block kind) d

unfoldable pub think : ℤ → String → Decoder → Outcome
think i text d =
    let began = flag i d.thinking_started in
    let opening = if began then [] else content_start i ∷ [] in
    let next =
      if began then d else record d { thinking_started = insert i true d.thinking_started } in
    emits (if text == "" then opening else opening ++ (reasoning_event i text ∷ [])) next

unfoldable pub take_delta : ℤ → Delta → Decoder → Outcome
unfolding think
take_delta i (text_part text) d = emits (text_event i text ∷ []) d
take_delta i (json_part part) d =
    emits
      (record zero_event {
        kind = event_tool_call_delta;
        index = i;
        tool_call_delta = some (record { id = ""; name = ""; arguments_delta = part });
      }
        ∷ [])
      d
take_delta i (thinking_part text) d =
    if flag i d.thinking_blocks then think i text d else fails (unopened_block i) d
take_delta i signature_part d =
    if flag i d.thinking_blocks then emits [] d else fails (unopened_block i) d
take_delta i (other_part kind) d = fails (unsupported_delta kind) d

unfoldable pub stop_block : ℤ → Decoder → Outcome
stop_block i d =
    let closing = record zero_event { kind = event_content_stop; index = i } ∷ [] in
    let closed = record d {
      thinking_blocks = delete i d.thinking_blocks;
      thinking_started = delete i d.thinking_started;
    } in
    if flag i d.thinking_blocks
    then emits (if flag i d.thinking_started then closing else []) closed
    else emits closing d

unfoldable pub change_message : String → Option String → StreamUsage → Decoder → Outcome
change_message reason sequence wire d =
    let stop = if reason == "" then d.pending_stop else decode_stop_reason reason in
    let merged = merge_stream_usage d.usage wire in
    if not (reason == "") && stop == stop_unknown
    then fails (unsupported_reason reason) (record d { pending_stop = stop })
    else emits (usage_event merged ∷ []) (record d {
      pending_stop = stop;
      pending_sequence = elim sequence [ none ↦ d.pending_sequence | some s ↦ s ];
      usage = merged;
    })

unfoldable pub step : Wire → Decoder → Outcome
unfolding start_block take_delta stop_block change_message
step no_data d = emits [] d
step bad_json d = fails undecodable d
step ping d = emits [] d
step (message_start id model wire) d =
    let merged = merge_stream_usage d.usage wire in
    emits
      (record zero_event { kind = event_response_start; response_id = id; model = model }
        ∷ usage_event merged
        ∷ [])
      (record d { started = true; usage = merged })
step (block_start i start) d = start_block i start d
step (block_delta i delta) d = take_delta i delta d
step (block_stop i) d = stop_block i d
step (message_delta reason sequence wire) d = change_message reason sequence wire d
step message_stop d =
    if d.pending_stop == "" || d.pending_stop == stop_unknown
    then fails ended_without_reason d
    else emits
        (record zero_event {
          kind = event_response_stop;
          stop_reason = d.pending_stop;
          stop_sequence = d.pending_sequence;
        }
          ∷ [])
        (record d { stopped = true })
step (error_event code message) d =
    emits
      (record zero_event {
        kind = event_error;
        error = some (record {
          code = code;
          message = message;
          retryable = error_retryable code;
          metadata = [];
        });
      }
        ∷ [])
      (record d { stopped = true })
step (other_event kind) d = fails (unsupported_event kind) d

-- The stream, and the check after its end.
unfoldable pub decode_messages_stream : List Wire → Decoder → List StreamEvent × Option StreamFault
unfolding step
decode_messages_stream [] d = ([], if d.started && not d.stopped then some ended_early else none)
decode_messages_stream (w ∷ wires) d =
    let out = step w d in
    let rest = decode_messages_stream wires out.2 in
    elim out.1 [ some fault ↦ (out.0, some fault) | none ↦ (out.0 ++ rest.0, rest.1) ]
