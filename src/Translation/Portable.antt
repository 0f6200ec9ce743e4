-- ===== src/Translation/Portable.antt =====
-- The checks of a block in internal/application/translation: compatibility.go, gemini.go and
-- anthropic_gemini.go. A pattern that stands for several block types is the switch's default.
use kokekokkor.Common.{
  String, Bool, true, false, not, Option, none, some, [], ◌>>◌, ◌==◌, string_eq,
}
use kokekokkor.Common.Map.{Map}
use kokekokkor.Llm.{
  RawMessage, MediaSource, media_source_base64, media_source_file, ContentBlock, image_block,
  document_block, tool_call_block, tool_result_block, reasoning_block, Blocks, no_blocks,
  more_blocks,
}
use kokekokkor.Translation.{Json, Checked, passed, unsupported, refuse_if, check_blocks, is_text}

abbrev require_base64 : MediaSource → String → String → Checked (Unit {0})
require_base64 source feature reason =
    refuse_if (not (source.kind == media_source_base64)) feature reason []

-- `json.Unmarshal(…) != nil || object == nil`, denied.
abbrev pub is_object : Option (Option (Map String RawMessage)) → Bool
is_object none = false
is_object (some none) = false
is_object (some (some _)) = true

-- `len(content) != 1`, then whether the one block is a text.
abbrev pub check_one_text : String → String → String → Blocks → Checked (Unit {0})
check_one_text feature length_reason kind_reason no_blocks = unsupported feature length_reason []
check_one_text feature length_reason kind_reason (more_blocks block no_blocks) =
    refuse_if (not (is_text block)) feature kind_reason []
check_one_text feature length_reason kind_reason (more_blocks _ (more_blocks _ _)) =
    unsupported feature length_reason []

abbrev check_nested_text : ContentBlock → Checked (Unit {0})
check_nested_text nested =
    refuse_if (not (is_text nested)) "tool_result content"
      "Chat Completions tool-result translation currently supports text only" []

unfoldable pub check_anthropic_block_for_openai : ContentBlock → Checked (Unit {0})
unfolding check_blocks
check_anthropic_block_for_openai (document_block _ _ _) =
    unsupported "document" "Chat Completions document-block translation is not implemented" []
check_anthropic_block_for_openai (reasoning_block _ _ _ _) =
    unsupported "thinking"
      "thinking blocks cannot yet be represented losslessly in Chat Completions" []
check_anthropic_block_for_openai (image_block source _) =
    refuse_if (source.kind == media_source_file) "file image"
      "Chat Completions file-backed image translation is not implemented" []
check_anthropic_block_for_openai (tool_result_block _ _ content is_error) = do
  refuse_if is_error "tool_result.is_error"
      "Chat Completions tool messages have no equivalent error flag" []
  check_blocks check_nested_text content
check_anthropic_block_for_openai _ = passed

unfoldable pub check_openai_block_for_gemini : Json → ContentBlock → Checked (Unit {0})
check_openai_block_for_gemini json (image_block source _) =
    require_base64 source "image" "Gemini translation currently accepts only inline base64 images"
check_openai_block_for_gemini json (document_block source _ _) =
    require_base64 source "document"
      "Gemini cross-protocol document translation requires inline base64 data"
check_openai_block_for_gemini json (reasoning_block _ _ _ _) =
    unsupported "reasoning" "reasoning blocks cannot yet be translated to Gemini" []
check_openai_block_for_gemini json (tool_call_block _ _ arguments) =
    refuse_if (not (is_object (json.unmarshal_object arguments))) "tool arguments"
      "Gemini function-call args must be a JSON object" []
check_openai_block_for_gemini json (tool_result_block _ _ content is_error) = do
  refuse_if is_error "tool result error"
      "Gemini function response error semantics are not mapped yet" []
  check_one_text "tool result" "Gemini function responses currently require one text block"
      "Gemini function responses currently require text content" content
check_openai_block_for_gemini json _ = passed

unfoldable pub check_anthropic_block_for_gemini : Json → ContentBlock → Checked (Unit {0})
check_anthropic_block_for_gemini json (image_block source _) =
    require_base64 source "image" "Gemini translation currently accepts only inline base64 images"
check_anthropic_block_for_gemini json (document_block source _ _) =
    require_base64 source "document"
      "Gemini translation currently accepts only inline base64 documents"
check_anthropic_block_for_gemini json (reasoning_block _ _ _ _) =
    unsupported "thinking" "Anthropic thinking blocks cannot yet be translated to Gemini" []
check_anthropic_block_for_gemini json (tool_call_block _ _ arguments) =
    refuse_if (not (is_object (json.unmarshal_object arguments))) "tool arguments"
      "Gemini function-call args must be a JSON object" []
check_anthropic_block_for_gemini json (tool_result_block _ _ content _) =
    check_one_text "tool result" "Gemini function responses currently require one text block"
      "Gemini function responses currently require text content" content
check_anthropic_block_for_gemini json _ = passed

-- The switch of GeminiToOpenAIRequest.
unfoldable pub check_gemini_block_for_openai : ContentBlock → Checked (Unit {0})
check_gemini_block_for_openai (document_block _ _ _) =
    unsupported "document"
      "Chat Completions cannot represent Gemini document/media parts losslessly" []
check_gemini_block_for_openai (reasoning_block _ _ _ _) =
    unsupported "thinking" "Gemini thought parts cannot yet be represented in Chat Completions" []
check_gemini_block_for_openai (image_block source _) =
    require_base64 source "file image"
      "Gemini fileData images cannot be forwarded to Chat Completions losslessly"
check_gemini_block_for_openai (tool_result_block _ _ content is_error) = do
  refuse_if is_error "function response error"
      "Chat Completions tool messages have no equivalent Gemini error flag" []
  check_one_text "function response"
      "tool results must contain one text payload for Chat Completions"
      "tool results must contain text for Chat Completions" content
check_gemini_block_for_openai _ = passed

-- The switch of GeminiToAnthropicRequest.
unfoldable pub check_gemini_block_for_anthropic : ContentBlock → Checked (Unit {0})
check_gemini_block_for_anthropic (reasoning_block _ _ _ _) =
    unsupported "thinking" "Gemini thought parts cannot yet be represented in Anthropic Messages" []
check_gemini_block_for_anthropic (image_block source _) =
    require_base64 source "file image"
      "Gemini fileData images cannot be forwarded to Anthropic losslessly"
check_gemini_block_for_anthropic (document_block source _ _) =
    require_base64 source "document"
      "Gemini fileData documents cannot be forwarded to Anthropic losslessly"
check_gemini_block_for_anthropic _ = passed
