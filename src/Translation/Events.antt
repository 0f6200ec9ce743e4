-- ===== src/Translation/Events.antt =====
-- The checks of stream events in internal/application/translation: stream_event.go, responses_stream.go,
-- gemini_stream.go and anthropic_gemini_stream.go. A pattern that stands for several block types is the
-- switch's default.
use kokekokkor.Common.{
  String, Bool, true, false, not, ◌&&◌, ◌||◌, Option, none, some, [], ◌∷◌, ◌>>◌, ◌==◌, string_eq,
  if◌then◌else◌,
}
use kokekokkor.Llm.{
  pos, ContentBlock, text_block, tool_call_block, reasoning_block, Usage, stop_end_turn,
  stop_max_tokens, stop_at_sequence, stop_tool_use, stop_content_block,
}
use kokekokkor.Stream.{
  StreamEvent, event_content_start, event_reasoning_delta, event_response_stop, event_error,
}
use kokekokkor.Stream.Anthropic.{ℤ_eq}
use kokekokkor.Translation.{Checked, passed, unsupported, refuse_if, text_arg, block_arg}
use kokekokkor.Translation.Requests.{is_none}
use kokekokkor.Translation.Responses.{is_nonempty}

abbrev check_event_metadata : String → StreamEvent → Checked (Unit {0})
check_event_metadata reason event =
    refuse_if (is_nonempty event.metadata) "stream event metadata" reason (text_arg event.kind ∷ [])

abbrev usage_has_metadata : Option Usage → Bool
usage_has_metadata none = false
usage_has_metadata (some usage) = is_nonempty usage.metadata

abbrev writes_cache : Option Usage → Bool
writes_cache none = false
writes_cache (some usage) = not (usage.cache_write_tokens == pos 0)

abbrev reasons : Option Usage → Bool
reasons none = false
reasons (some usage) = not (usage.reasoning_tokens == pos 0)

-- The stop reasons that every switch over them has.
abbrev pub is_plain_stop : String → Bool
is_plain_stop reason =
    reason == stop_end_turn
    || reason == stop_at_sequence
    || reason == stop_tool_use
    || reason == stop_max_tokens

unfoldable pub openai_to_anthropic_stream_event : StreamEvent → Checked (Unit {0})
openai_to_anthropic_stream_event event = do
  check_event_metadata "event %q contains provider-specific metadata" event
  refuse_if (event.kind == event_reasoning_delta) "reasoning stream"
      "Anthropic reasoning translation is not implemented" []
  refuse_if (usage_has_metadata event.usage) "usage metadata"
      "usage contains provider-specific metadata" []
  refuse_if (reasons event.usage) "reasoning usage"
      "Anthropic usage has no portable reasoning-token field" []

unfoldable pub anthropic_to_openai_stream_event : StreamEvent → Checked (Unit {0})
anthropic_to_openai_stream_event event = do
  check_event_metadata "event %q contains provider-specific metadata" event
  refuse_if (event.kind == event_reasoning_delta) "thinking stream"
      "Chat Completions reasoning translation is not implemented" []
  refuse_if (usage_has_metadata event.usage) "usage metadata"
      "usage contains provider-specific metadata" []
  refuse_if (writes_cache event.usage) "cache creation usage"
      "Chat Completions usage has no cache-write token field" []

-- A block that starts must be a text or a tool call, or a reasoning block without provider state where
-- those are let through.
abbrev is_text_or_call : ContentBlock → Bool
is_text_or_call (text_block _ _) = true
is_text_or_call (tool_call_block _ _ _) = true
is_text_or_call _ = false

abbrev check_started : String → ContentBlock → Checked (Unit {0})
check_started reason block =
    refuse_if (not (is_text_or_call block)) "response content" reason (block_arg block ∷ [])

unfoldable pub check_responses_start : ContentBlock → Checked (Unit {0})
check_responses_start (reasoning_block _ signature redacted _) =
    refuse_if (not (signature == "") || not (redacted == "")) "reasoning state"
      "provider state cannot be represented by Responses" []
check_responses_start block =
    check_started "stream block %T cannot be represented in Responses output" block

unfoldable pub check_responses_stop : Bool → String → Checked (Unit {0})
check_responses_stop allow_refusal reason =
    if is_plain_stop reason
    then passed
    else if reason == stop_content_block
    then refuse_if (not allow_refusal) "refusal"
        "Anthropic refusal/content-block stop requires stream_options.buffer_refusals=true" []
    else unsupported "stop_reason" "upstream stop reason has no Responses terminal-event mapping" []

unfoldable pub anthropic_to_responses_event : Bool → StreamEvent → Checked (Unit {0})
unfolding check_responses_start check_responses_stop
anthropic_to_responses_event allow_refusal event = do
  check_event_metadata "event %q contains provider-specific metadata" event
  refuse_if (event.kind == event_error && is_none event.error) "stream error"
      "provider stream error is missing a portable error payload" []
  refuse_if (usage_has_metadata event.usage) "usage metadata"
      "usage contains provider-specific metadata" []
  if event.kind == event_content_start then check_responses_start event.block else passed
  if event.kind == event_response_stop
      then check_responses_stop allow_refusal event.stop_reason
      else passed

abbrev pub anthropic_to_responses_stream_event : StreamEvent → Checked (Unit {0})
anthropic_to_responses_stream_event = anthropic_to_responses_event false

abbrev pub anthropic_to_responses_buffered_stream_event : StreamEvent → Checked (Unit {0})
anthropic_to_responses_buffered_stream_event = anthropic_to_responses_event true

unfoldable pub openai_to_gemini_stream_event : StreamEvent → Checked (Unit {0})
openai_to_gemini_stream_event event = do
  check_event_metadata "event %q contains provider-specific metadata" event
  refuse_if (usage_has_metadata event.usage) "usage metadata"
      "usage contains provider-specific metadata" []
  refuse_if (writes_cache event.usage) "cache creation usage"
      "Gemini usage has no portable cache-write token field" []
  if event.kind == event_reasoning_delta
      then unsupported "reasoning stream"
          "OpenAI reasoning cannot yet be represented as Gemini thought parts" []
      else if event.kind == event_error
      then unsupported "stream error" "OpenAI stream errors are not mapped to Gemini stream chunks"
          []
      else if event.kind == event_content_start
      then check_started "stream block %T cannot be represented in Gemini output" event.block
      else if event.kind == event_response_stop
      then refuse_if
          (not (is_plain_stop event.stop_reason || event.stop_reason == stop_content_block))
          "finish_reason" "OpenAI finish reason has no Gemini finishReason mapping" []
      else passed

unfoldable pub check_gemini_start : Bool → ContentBlock → Checked (Unit {0})
check_gemini_start allow_reasoning (reasoning_block _ signature redacted _) = do
  refuse_if (not allow_reasoning) "thinking stream"
      "Gemini thought parts cannot yet be represented losslessly" []
  refuse_if (not (signature == "") || not (redacted == "")) "reasoning state"
      "provider state cannot be represented downstream" []
check_gemini_start allow_reasoning block =
    check_started "stream block %T cannot be represented downstream" block

unfoldable pub check_gemini_stop : Bool → String → Checked (Unit {0})
check_gemini_stop allow_content_block reason =
    if is_plain_stop reason
    then passed
    else if reason == stop_content_block
    then refuse_if (not allow_content_block) "content block"
        "Gemini content-block stops are not supported by this downstream protocol" []
    else unsupported "finishReason" "Gemini finish reason has no downstream mapping" []

unfoldable pub validate_gemini_stream_event : StreamEvent → Bool → Bool → Checked (Unit {0})
unfolding check_gemini_start check_gemini_stop
validate_gemini_stream_event event allow_content_block allow_reasoning = do
  check_event_metadata "event %q contains provider-specific Gemini metadata" event
  refuse_if (usage_has_metadata event.usage) "usage metadata"
      "Gemini usage contains provider-specific metadata" []
  refuse_if (writes_cache event.usage) "cache creation usage"
      "Gemini usage has no portable cache-write token field" []
  if event.kind == event_reasoning_delta
      then refuse_if (not allow_reasoning) "thinking stream"
          "Gemini thought parts cannot yet be represented losslessly" []
      else if event.kind == event_error
      then unsupported "stream error"
          "Gemini stream errors are not translated into downstream terminal events" []
      else if event.kind == event_content_start
      then check_gemini_start allow_reasoning event.block
      else if event.kind == event_response_stop
      then check_gemini_stop allow_content_block event.stop_reason
      else passed

abbrev pub gemini_to_openai_stream_event : StreamEvent → Checked (Unit {0})
gemini_to_openai_stream_event event = validate_gemini_stream_event event true false

unfoldable pub gemini_to_responses_event : StreamEvent → Bool → Checked (Unit {0})
unfolding validate_gemini_stream_event
gemini_to_responses_event event allow_refusal = do
  validate_gemini_stream_event event true true
  refuse_if
      (event.kind == event_response_stop
        && event.stop_reason == stop_content_block
        && not allow_refusal)
      "refusal" "Gemini safety/content-block stop requires stream_options.buffer_refusals=true" []

abbrev pub gemini_to_responses_stream_event : StreamEvent → Checked (Unit {0})
gemini_to_responses_stream_event event = gemini_to_responses_event event false

abbrev pub gemini_to_responses_buffered_stream_event : StreamEvent → Checked (Unit {0})
gemini_to_responses_buffered_stream_event event = gemini_to_responses_event event true

unfoldable pub anthropic_to_gemini_stream_event : StreamEvent → Checked (Unit {0})
anthropic_to_gemini_stream_event event = do
  check_event_metadata "event %q contains provider-specific Anthropic metadata" event
  refuse_if (usage_has_metadata event.usage) "usage metadata"
      "Anthropic usage contains provider-specific metadata" []
  refuse_if (writes_cache event.usage) "cache creation usage"
      "Gemini usage has no portable cache-write token field" []
  if event.kind == event_reasoning_delta
      then unsupported "thinking stream"
          "Anthropic thinking cannot yet be represented as Gemini thought parts" []
      else if event.kind == event_error
      then unsupported "stream error"
          "Anthropic stream errors are not mapped to Gemini stream chunks" []
      else if event.kind == event_content_start
      then check_started "stream block %T cannot be represented in Gemini output" event.block
      else if event.kind == event_response_stop
      then refuse_if
          (not (is_plain_stop event.stop_reason || event.stop_reason == stop_content_block))
          "stop reason" "Anthropic stop reason has no Gemini finishReason mapping" []
      else passed

unfoldable pub gemini_to_anthropic_stream_event : StreamEvent → Checked (Unit {0})
gemini_to_anthropic_stream_event event = do
  check_event_metadata "event %q contains provider-specific Gemini metadata" event
  refuse_if (usage_has_metadata event.usage) "usage metadata"
      "Gemini usage contains provider-specific metadata" []
  refuse_if (reasons event.usage) "reasoning usage"
      "Anthropic Messages usage has no portable reasoning-token field" []
  if event.kind == event_reasoning_delta
      then unsupported "thinking stream"
          "Gemini thought parts cannot yet be represented in Anthropic Messages" []
      else if event.kind == event_error
      then unsupported "stream error"
          "Gemini stream errors are not mapped to Anthropic terminal events" []
      else if event.kind == event_content_start
      then check_started "stream block %T cannot be represented in Anthropic output" event.block
      else if event.kind == event_response_stop
      then (if is_plain_stop event.stop_reason
          then passed
          else if event.stop_reason == stop_content_block
          then unsupported "content block"
              "Gemini safety/content-block stops have no Anthropic Messages stop_reason mapping" []
          else unsupported "finishReason"
              "Gemini finish reason has no Anthropic stop_reason mapping" [])
      else passed
