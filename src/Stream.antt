-- ===== src/Stream.antt =====
-- internal/domain/llm/stream.go: the events of a response stream that are neutral between protocols.
pub mod Anthropic
pub mod Ended
mod Tests
use kokekokkor.Common.{
  String, ℕ, Bool, true, false, Option, none, List, [], ◌↔◌, ◌≡◌, KeyEq, ltb, nat_eq, eq_iff, arith,
}
use kokekokkor.Llm.{ℤ, pos, negsuc, ContentBlock, nil_block, Usage, Metadata}

abbrev pub event_response_start : String
event_response_start = "response_start"

abbrev pub event_content_start : String
event_content_start = "content_start"

abbrev pub event_text_delta : String
event_text_delta = "text_delta"

abbrev pub event_reasoning_delta : String
event_reasoning_delta = "reasoning_delta"

abbrev pub event_tool_call_start : String
event_tool_call_start = "tool_call_start"

abbrev pub event_tool_call_delta : String
event_tool_call_delta = "tool_call_delta"

abbrev pub event_content_stop : String
event_content_stop = "content_stop"

abbrev pub event_usage : String
event_usage = "usage"

abbrev pub event_response_stop : String
event_response_stop = "response_stop"

abbrev pub event_error : String
event_error = "error"

pub record ToolCallDelta : Type 0 where
  pub id : String
  pub name : String
  pub arguments_delta : String

pub record StreamError : Type 0 where
  pub code : String
  pub message : String
  pub retryable : Bool
  pub metadata : Metadata

pub record StreamEvent : Type 0 where
  pub kind : String
  pub response_id : String
  pub model : String
  pub index : ℤ
  pub block : ContentBlock
  pub text_delta : String
  pub audio_delta : String
  pub audio_media_type : String
  pub reasoning_delta : String
  pub tool_call_delta : Option ToolCallDelta
  pub usage : Option Usage
  pub stop_reason : String
  pub stop_sequence : String
  pub error : Option StreamError
  pub metadata : Metadata

-- The zero value, which the composite literals start from.
abbrev pub zero_event : StreamEvent
zero_event = record {
  kind = "";
  response_id = "";
  model = "";
  index = pos 0;
  block = nil_block;
  text_delta = "";
  audio_delta = "";
  audio_media_type = "";
  reasoning_delta = "";
  tool_call_delta = none;
  usage = none;
  stop_reason = "";
  stop_sequence = "";
  error = none;
  metadata = [];
}
