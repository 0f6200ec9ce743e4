-- ===== src/Stream/Tests.antt =====
-- Runs of DecodeMessagesStream: a thought and a text, a stream that breaks off, a stop without reason.
use kokekokkor.Common.{String, true, false, ◌||◌, none, some, List, [], ◌∷◌, map, ◌≡◌, refl}
use kokekokkor.Common.Map.{lookup, insert, delete}
use kokekokkor.Llm.{pos}
use kokekokkor.Stream.{StreamEvent}
use kokekokkor.Stream.Anthropic.{
  StreamUsage, text_start, thinking_start, thinking_part, text_part, Wire, ping, message_stop,
  message_start, block_start, block_delta, block_stop, message_delta, ended_without_reason,
  ended_early, unopened_block, new_decoder, decode_stop_reason, flag, start_block, think,
  take_delta, stop_block, change_message, step, decode_messages_stream,
}
use kokekokkor.Stream.Ended.{
  all_fine, has_end, has_start, decode_messages_stream-all_fine, decode_messages_stream-has_end,
}

abbrev no_usage : StreamUsage
no_usage = record {
  input_tokens = none;
  output_tokens = none;
  cache_read_input_tokens = none;
  cache_creation_input_tokens = none;
}

abbrev thought : List Wire
thought =
    message_start "id" "model" no_usage
    ∷ ping
    ∷ block_start (pos 0) (thinking_start "")
    ∷ block_delta (pos 0) (thinking_part "a")
    ∷ block_stop (pos 0)
    ∷ block_start (pos 1) (text_start "")
    ∷ block_delta (pos 1) (text_part "b")
    ∷ block_stop (pos 1)
    ∷ message_delta "end_turn" none no_usage
    ∷ message_stop
    ∷ []

abbrev kinds : List StreamEvent → List String
kinds = map λ e. e.kind

thought-kinds :
    kinds (decode_messages_stream thought new_decoder).0
    ≡ "response_start" ∷ "usage" ∷ "content_start" ∷ "reasoning_delta" ∷ "content_stop"
      ∷ "content_start" ∷ "text_delta" ∷ "content_stop" ∷ "usage" ∷ "response_stop" ∷ []
unfolding decode_messages_stream step start_block take_delta think stop_block change_message
    decode_stop_reason flag lookup insert delete
thought-kinds = refl

thought_decodes : (decode_messages_stream thought new_decoder).1 ≡ none
unfolding decode_messages_stream step start_block take_delta think stop_block change_message
    decode_stop_reason flag lookup insert delete
thought_decodes = refl

thought_starts : (false || has_start (decode_messages_stream thought new_decoder).0) ≡ true
unfolding decode_messages_stream step start_block take_delta think stop_block change_message
    decode_stop_reason flag lookup insert delete
thought_starts = refl

breaks_off :
    (decode_messages_stream (message_start "id" "model" no_usage ∷ []) new_decoder).1
    ≡ some ended_early
unfolding decode_messages_stream step
breaks_off = refl

stops_without_reason :
    (decode_messages_stream (message_start "id" "model" no_usage ∷ message_stop ∷ []) new_decoder).1
    ≡ some ended_without_reason
unfolding decode_messages_stream step
stops_without_reason = refl

-- What follows a stop is taken, and may break off.
breaks_off_later :
    let (events, failed) =
      decode_messages_stream
        (message_start "id" "model" no_usage
          ∷ message_delta "end_turn" none no_usage
          ∷ message_stop
          ∷ message_start "other" "model" no_usage
          ∷ block_delta (pos 0) (text_part "b")
          ∷ [])
        new_decoder in
    (failed ≡ none)
    × (kinds events
        ≡ "response_start" ∷ "usage" ∷ "usage" ∷ "response_stop" ∷ "response_start" ∷ "usage"
          ∷ "text_delta" ∷ [])
unfolding decode_messages_stream step start_block take_delta change_message decode_stop_reason flag
    lookup insert delete
breaks_off_later = (refl, refl)

thinks_unopened :
    (decode_messages_stream (block_delta (pos 2) (thinking_part "a") ∷ []) new_decoder).1
    ≡ some (unopened_block (pos 2))
unfolding decode_messages_stream step take_delta flag lookup
thinks_unopened = refl

decode_messages_stream-all_fine_example :
    all_fine (decode_messages_stream thought new_decoder).0 ≡ true
decode_messages_stream-all_fine_example = decode_messages_stream-all_fine thought new_decoder

decode_messages_stream-has_end_example :
    (false || has_end (decode_messages_stream thought new_decoder).0) ≡ true
decode_messages_stream-has_end_example =
    decode_messages_stream-has_end thought new_decoder thought_decodes thought_starts
