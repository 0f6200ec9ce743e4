-- ===== src/Translation/Responses.antt =====
-- The response translations of internal/application/translation: compatibility.go, gemini.go,
-- anthropic_gemini.go, responses_compatibility.go and responses_gemini.go.
use kokekokkor.Common.{
  String, Bool, true, false, not, List, [], ◌∷◌, ok, ◌>>=◌, ◌>>◌, ◌==◌, string_eq,
}
use kokekokkor.Llm.{
  pos, ContentBlock, text_block, web_search_call_block, image_block, document_block,
  tool_call_block, reasoning_block, Blocks, Response, stop_unknown,
}
use kokekokkor.Stream.Anthropic.{ℤ_eq}
use kokekokkor.Translation.{
  Checked, passed, unsupported, refuse_if, text_arg, block_arg, reject_metadata, reject_fields,
  check_blocks,
}
use kokekokkor.Translation.Reasoning.{strip_reasoning_blocks, reasoning_summaries_for_responses}

-- `response.Metadata = nil; response.Usage.Metadata = nil`, with the given content.
abbrev pub bare : Response → Blocks → Response
bare response content = record response {
  content = content;
  usage = record (response.usage) { metadata = [] };
  metadata = [];
}

unfoldable pub reject_response_metadata : Response → Checked (Unit {0})
unfolding reject_fields
reject_response_metadata response =
    reject_metadata response.metadata >> reject_metadata response.usage.metadata

abbrev pub is_nonempty {ℓ} : {A : Type ℓ} → List A → Bool
is_nonempty [] = false
is_nonempty (_ ∷ _) = true

unfoldable pub openai_to_anthropic_response : Response → Checked Response
unfolding reject_response_metadata
openai_to_anthropic_response response = do
  reject_response_metadata response
  refuse_if (not (response.usage.reasoning_tokens == pos 0)) "reasoning usage"
      "Anthropic usage has no portable reasoning-token field" []
  refuse_if (response.stop_reason == stop_unknown) "finish_reason"
      "upstream finish reason has no Anthropic stop_reason mapping" []
  ok (bare response response.content)

unfoldable pub anthropic_to_openai_response : Response → Checked Response
unfolding reject_response_metadata strip_reasoning_blocks
anthropic_to_openai_response response = do
  reject_response_metadata response
  refuse_if (not (response.usage.cache_write_tokens == pos 0)) "cache creation usage"
      "Chat Completions usage has no cache-write token field" []
  refuse_if (response.stop_reason == stop_unknown) "stop_reason"
      "upstream stop reason has no Chat Completions finish_reason mapping" []
  ok (bare response (strip_reasoning_blocks response.content))

-- The switch of OpenAIToGeminiResponse.
unfoldable pub check_openai_output : ContentBlock → Checked (Unit {0})
check_openai_output (text_block _ citations) =
    refuse_if (is_nonempty citations) "citations"
      "Chat Completions output cannot preserve Gemini URL citations" []
check_openai_output (document_block _ _ _) =
    unsupported "response media"
      "Gemini response translation currently supports text and function calls only" []
check_openai_output (image_block _ _) =
    unsupported "response media"
      "Gemini response translation currently supports text and function calls only" []
check_openai_output (reasoning_block _ _ _ _) =
    unsupported "reasoning"
      "OpenAI reasoning content cannot yet be represented losslessly as Gemini thought parts" []
check_openai_output _ = passed

unfoldable pub openai_to_gemini_response : Response → Checked Response
unfolding reject_response_metadata check_blocks check_openai_output
openai_to_gemini_response response = do
  reject_response_metadata response
  refuse_if (not (response.usage.cache_write_tokens == pos 0)) "cache creation usage"
      "Gemini usage has no portable cache-write token field" []
  refuse_if (response.stop_reason == stop_unknown) "finish_reason"
      "OpenAI finish reason has no Gemini finishReason mapping" []
  check_blocks check_openai_output response.content
  ok (bare response response.content)

-- The switch of GeminiToOpenAIResponse.
unfoldable pub check_gemini_output : ContentBlock → Checked (Unit {0})
check_gemini_output (web_search_call_block _) =
    unsupported "web search" "Chat Completions output cannot represent Gemini web-search calls" []
check_gemini_output (document_block _ _ _) =
    unsupported "response media" "Chat Completions cannot represent Gemini media output" []
check_gemini_output (image_block _ _) =
    unsupported "response media" "Chat Completions cannot represent Gemini media output" []
check_gemini_output _ = passed

unfoldable pub gemini_to_openai_response : Response → Checked Response
unfolding reject_response_metadata check_blocks check_gemini_output strip_reasoning_blocks
gemini_to_openai_response response = do
  reject_response_metadata response
  refuse_if (not (response.usage.cache_write_tokens == pos 0)) "cache creation usage"
      "Chat Completions has no cache-write token field" []
  refuse_if (response.stop_reason == stop_unknown) "finishReason"
      "Gemini finish reason has no Chat Completions mapping" []
  check_blocks check_gemini_output response.content
  ok (bare response (strip_reasoning_blocks response.content))

-- The switch of portableGeminiAnthropicResponse.
unfoldable pub check_portable_output : String → ContentBlock → Checked (Unit {0})
check_portable_output source (text_block _ citations) =
    refuse_if (is_nonempty citations) "citations" "%s URL citations cannot be represented portably"
      (text_arg source ∷ [])
check_portable_output source (tool_call_block _ _ _) = passed
check_portable_output source (reasoning_block _ _ _ _) =
    unsupported "thinking" "%s reasoning/thought output is not translated yet"
      (text_arg source ∷ [])
check_portable_output source block =
    unsupported "response content" "%s block %T cannot be represented portably"
      (text_arg source ∷ block_arg block ∷ [])

unfoldable pub portable_gemini_anthropic_response : String → Response → Checked Response
unfolding reject_response_metadata check_blocks check_portable_output
portable_gemini_anthropic_response source response = do
  reject_response_metadata response
  refuse_if (response.stop_reason == stop_unknown) "stop reason"
      "%s stop reason has no portable mapping" (text_arg source ∷ [])
  check_blocks (check_portable_output source) response.content
  ok (bare response response.content)

abbrev pub anthropic_to_gemini_response : Response → Checked Response
anthropic_to_gemini_response = portable_gemini_anthropic_response "Anthropic"

abbrev pub gemini_to_anthropic_response : Response → Checked Response
gemini_to_anthropic_response = portable_gemini_anthropic_response "Gemini"

-- The switch of AnthropicToResponsesResponse.
unfoldable pub check_anthropic_responses_output : ContentBlock → Checked (Unit {0})
check_anthropic_responses_output (text_block _ _) = passed
check_anthropic_responses_output (tool_call_block _ _ _) = passed
check_anthropic_responses_output (reasoning_block _ _ _ _) = passed
check_anthropic_responses_output block =
    unsupported "response content" "block %T cannot be represented in Responses output"
      (block_arg block ∷ [])

unfoldable pub anthropic_to_responses_response : Response → Checked Response
unfolding reject_response_metadata check_blocks check_anthropic_responses_output
    reasoning_summaries_for_responses
anthropic_to_responses_response response = do
  reject_response_metadata response
  refuse_if (response.stop_reason == stop_unknown) "stop_reason"
      "upstream stop reason has no Responses mapping" []
  check_blocks check_anthropic_responses_output response.content
  content ← reasoning_summaries_for_responses response.content
  ok (bare response content)

-- The switch of GeminiToResponsesResponse.
unfoldable pub check_gemini_responses_output : ContentBlock → Checked (Unit {0})
check_gemini_responses_output (text_block _ _) = passed
check_gemini_responses_output (tool_call_block _ _ _) = passed
check_gemini_responses_output (reasoning_block _ _ _ _) = passed
check_gemini_responses_output (web_search_call_block _) = passed
check_gemini_responses_output block =
    unsupported "response content" "Gemini block %T cannot be represented in Responses output"
      (block_arg block ∷ [])

unfoldable pub gemini_to_responses_response : Response → Checked Response
unfolding reject_response_metadata check_blocks check_gemini_responses_output
    reasoning_summaries_for_responses
gemini_to_responses_response response = do
  reject_response_metadata response
  refuse_if (not (response.usage.cache_write_tokens == pos 0)) "cache creation usage"
      "Responses has no portable cache-write token field" []
  refuse_if (response.stop_reason == stop_unknown) "finishReason"
      "Gemini finish reason has no Responses mapping" []
  check_blocks check_gemini_responses_output response.content
  content ← reasoning_summaries_for_responses response.content
  ok (bare response content)
