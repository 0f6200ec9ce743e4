-- ===== src/Translation/Tests.antt =====
-- Runs of the translation rules.
use kokekokkor.Common.{
  String, true, false, Option, none, some, [], ◌∷◌, ◌≡◌, ◌↔◌, refl, inl, ok, ◌==◌, string_eq,
  if◌then◌else◌,
}
use kokekokkor.Common.Map.{lookup, insert, delete}
use kokekokkor.Llm.{
  pos, text_block, reasoning_block, no_blocks, more_blocks, Message, ReasoningConfig, Request,
  Response, stop_end_turn,
}
use kokekokkor.Translation.{Json, check_message_metadata, check_tool_metadata}
use kokekokkor.Translation.Reasoning.{openai_reasoning_to_anthropic, openai_reasoning_to_gemini}
use kokekokkor.Translation.Requests.{openai_to_anthropic_request, openai_to_gemini_request}
use kokekokkor.Translation.Instructions.{responses_to_gemini_request}
use kokekokkor.Translation.Responses.{anthropic_to_responses_response}
use kokekokkor.Translation.Streams.{
  openai_to_anthropic_stream_request, openai_to_gemini_stream_request, streaming,
}
use kokekokkor.Translation.Accepted.{IsForAnthropic, openai_to_anthropic_request_iff}
use kokekokkor.Translation.Conversation.{IsRequestForGemini, openai_to_gemini_request_iff}
use kokekokkor.Translation.Gathered.{
  IsForSystemInstruction, responses_to_gemini_request-IsForSystemInstruction,
}
use kokekokkor.Translation.Kept.{IsKept, responses-IsKept}
use kokekokkor.Translation.Streamed.{IsStreamed, ask_for_stream, stream_requests_agree}

-- Reads the few values that the tests use.
abbrev test_json : Json
test_json = record {
  unmarshal_bool =
      λ raw old. if raw == "true" then some true else if raw == "false" then some false else none;
  unmarshal_int = λ raw old. if raw == "1" then some (pos 1) else none;
  unmarshal_object = λ raw. if raw == "{}" then some (some []) else none;
}

abbrev said : String → String → Message
said role text = record {
  role = role;
  name = "";
  content = more_blocks (text_block text []) no_blocks;
  metadata = [];
}

abbrev thinking : ReasoningConfig
thinking = record {
  enabled = true;
  mode = "";
  budget_tokens = pos 0;
  effort = "Minimal";
  summary = "";
  metadata = [];
}

abbrev chat : Request
chat = record {
  model = "m";
  messages = said "system" "be brief" ∷ said "user" "hello" ∷ [];
  tools = [];
  tool_choice = none;
  reasoning = some thinking;
  response_format = none;
  response_state = none;
  max_output_tokens = some (pos 9);
  temperature = none;
  top_p = none;
  stop = [];
  metadata = ("n", "1") ∷ ("stream", "false") ∷ [];
}

abbrev chat_for_anthropic : Request
chat_for_anthropic = record chat {
  reasoning = some (record thinking { mode = "adaptive"; effort = "low"; summary = "none" });
  metadata = [];
}

abbrev chat_for_gemini : Request
chat_for_gemini = record chat {
  reasoning = some (record thinking { effort = "minimal"; summary = "none" });
  metadata = [];
}

chat_test : openai_to_anthropic_request test_json chat ≡ ok chat_for_anthropic
unfolding openai_to_anthropic_request lookup delete check_message_metadata check_tool_metadata
chat_test = refl

openai_to_anthropic_request_iff_example :
    (openai_to_anthropic_request test_json chat ≡ ok chat_for_anthropic) ↔ (
      IsForAnthropic test_json chat
      × ((reasoning : Option ReasoningConfig) × (openai_reasoning_to_anthropic chat.reasoning
            ≡ ok reasoning)
          × (record chat { reasoning = reasoning; metadata = [] } ≡ chat_for_anthropic)))
openai_to_anthropic_request_iff_example =
    openai_to_anthropic_request_iff test_json chat chat_for_anthropic

gemini_test : openai_to_gemini_request test_json chat ≡ ok chat_for_gemini
unfolding openai_to_gemini_request lookup delete check_message_metadata check_tool_metadata
gemini_test = refl

openai_to_gemini_request_iff_example :
    (openai_to_gemini_request test_json chat ≡ ok chat_for_gemini) ↔ (
      IsRequestForGemini test_json chat
      × ((reasoning : Option ReasoningConfig) × (openai_reasoning_to_gemini chat.reasoning
            ≡ ok reasoning)
          × (record chat { reasoning = reasoning; metadata = [] } ≡ chat_for_gemini)))
openai_to_gemini_request_iff_example = openai_to_gemini_request_iff test_json chat chat_for_gemini

-- Two instructions of one role before the turns.
abbrev instructed : Request
instructed = record chat {
  messages = said "developer" "be brief" ∷ said "developer" "be kind" ∷ said "user" "hello" ∷ [];
  reasoning = none;
  metadata = ("store", "false") ∷ [];
}

abbrev gathered_instructions : Request
gathered_instructions = record instructed {
  messages =
      record (said "system" "") {
        content =
            more_blocks (text_block "be brief" [])
              (more_blocks (text_block "be kind" []) no_blocks);
      }
      ∷ said "user" "hello"
      ∷ [];
  metadata = [];
}

instructed_test : responses_to_gemini_request test_json instructed ≡ ok gathered_instructions
unfolding responses_to_gemini_request lookup delete check_message_metadata check_tool_metadata
instructed_test = refl

responses_to_gemini_request-IsForSystemInstruction_example :
    IsForSystemInstruction test_json instructed gathered_instructions
responses_to_gemini_request-IsForSystemInstruction_example =
    responses_to_gemini_request-IsForSystemInstruction test_json instructed gathered_instructions
      instructed_test

abbrev thought : Response
thought = record {
  id = "r";
  created_at = pos 0;
  previous_response_id = "";
  conversation_id = "";
  background = false;
  store = false;
  model = "m";
  content =
      more_blocks (reasoning_block "hm" "sig" "" []) (more_blocks (text_block "hi" []) no_blocks);
  stop_reason = stop_end_turn;
  stop_sequence = "";
  usage = record {
    input_tokens = pos 1;
    output_tokens = pos 2;
    reasoning_tokens = pos 0;
    cache_read_tokens = pos 0;
    cache_write_tokens = pos 0;
    metadata = [];
  };
  metadata = [];
}

abbrev summarised : Response
summarised = record thought {
  content =
      more_blocks (reasoning_block "hm" "" "" []) (more_blocks (text_block "hi" []) no_blocks);
}

thought_test : anthropic_to_responses_response thought ≡ ok summarised
unfolding anthropic_to_responses_response
thought_test = refl

responses-IsKept_example : IsKept true thought summarised
responses-IsKept_example = (responses-IsKept thought summarised).1 (inl thought_test)

abbrev streamed_chat : Request
streamed_chat = record chat { metadata = ("stream", "true") ∷ ("stream_options", "{}") ∷ [] }

streamed_test :
    openai_to_anthropic_stream_request test_json streamed_chat
    ≡ ok (record chat_for_anthropic { metadata = streaming }, record { include_usage = false })
unfolding openai_to_anthropic_stream_request lookup insert delete check_message_metadata
    check_tool_metadata
streamed_test = refl

stream_requests_agree_example :
    ((openai_to_anthropic_stream_request test_json streamed_chat
        ≡ ok (record chat_for_anthropic { metadata = streaming }, record { include_usage = false }))
      ↔ IsStreamed test_json
          (openai_to_anthropic_request test_json)
          ask_for_stream
          streamed_chat
          (record chat_for_anthropic { metadata = streaming }, record { include_usage = false }))
    × ((openai_to_gemini_stream_request test_json streamed_chat
          ≡ ok (
            record chat_for_anthropic { metadata = streaming },
            record { include_usage = false },
          ))
        ↔ IsStreamed test_json
            (openai_to_gemini_request test_json)
            (λ plain. plain)
            streamed_chat
            (record chat_for_anthropic { metadata = streaming }, record { include_usage = false }))
stream_requests_agree_example =
    stream_requests_agree test_json refl streamed_chat
      (record chat_for_anthropic { metadata = streaming }, record { include_usage = false })
