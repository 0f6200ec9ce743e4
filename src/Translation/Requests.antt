-- ===== src/Translation/Requests.antt =====
-- The request translations of internal/application/translation: compatibility.go, gemini.go,
-- anthropic_gemini.go, responses_compatibility.go and responses_gemini.go.
use kokekokkor.Common.{
  String, ℕ, suc, Bool, true, false, not, Option, none, some, List, [], ◌∷◌, ok, ◌>>=◌, ◌>>◌, ◌==◌,
  string_eq, if◌then◌else◌,
}
use kokekokkor.Llm.{role_system, role_developer, Blocks, Message, ToolChoice, Request}
use kokekokkor.Translation.{
  Json, Checked, passed, unsupported, refuse_if, number_arg, reject_metadata, reject_fields,
  consume_streaming, consume_n, reject_nested_metadata, check_blocks, check_contents, is_text,
  has_web_search,
}
use kokekokkor.Translation.Reasoning.{openai_reasoning_to_anthropic, openai_reasoning_to_gemini}
use kokekokkor.Translation.Portable.{
  check_anthropic_block_for_openai, check_openai_block_for_gemini, check_anthropic_block_for_gemini,
  check_gemini_block_for_openai, check_gemini_block_for_anthropic,
}

abbrev pub is_none {ℓ} : {A : Type ℓ} → Option A → Bool
is_none none = true
is_none (some _) = false

abbrev pub disables_parallel : Option ToolChoice → Bool
disables_parallel none = false
disables_parallel (some choice) = choice.disable_parallel

-- The blocks of system message `i` are texts.
abbrev pub check_system_text : String → String → ℕ → Blocks → Checked (Unit {0})
check_system_text feature reason i =
    check_blocks λ block. refuse_if (not (is_text block)) feature reason (number_arg i ∷ [])

module _ (json : Json) where
  unfoldable pub openai_to_anthropic_request : Request → Checked Request
  unfolding consume_streaming consume_n reject_fields openai_reasoning_to_anthropic
      reject_nested_metadata
  openai_to_anthropic_request request = do
    metadata ← consume_streaming json request.metadata
    metadata ←
        consume_n json "Anthropic Messages supports one generated message per request" metadata
    reject_metadata metadata
    refuse_if (is_none request.max_output_tokens) "max_tokens"
        "Anthropic Messages requires an explicit output-token limit" []
    reasoning ← openai_reasoning_to_anthropic request.reasoning
    reject_nested_metadata request
    ok (record request { reasoning = reasoning; metadata = [] })

  unfoldable pub anthropic_to_openai_request : Request → Checked Request
  unfolding consume_streaming reject_fields reject_nested_metadata check_contents
      check_anthropic_block_for_openai
  anthropic_to_openai_request request = do
    metadata ← consume_streaming json request.metadata
    reject_metadata metadata
    refuse_if (not (is_none request.reasoning)) "thinking"
        "Anthropic thinking controls cannot yet be represented losslessly in Chat Completions" []
    reject_nested_metadata request
    check_contents check_anthropic_block_for_openai request.messages
    ok (record request { metadata = [] })

  -- The loop over the messages; `seen` is `seenNonSystem`.
  unfoldable pub check_openai_messages : ℕ → Bool → List Message → Checked (Unit {0})
  unfolding check_blocks check_openai_block_for_gemini
  check_openai_messages i seen [] = passed
  check_openai_messages i seen (message ∷ messages) =
      let after = check_openai_messages (suc i) seen messages in
      let beyond = check_openai_messages (suc i) true messages in
      let blocks = check_blocks (check_openai_block_for_gemini json) message.content in
      if message.role == role_developer
      then unsupported "developer role"
          "Gemini generateContent has no distinct developer-message role" []
      else if message.role == role_system
      then (if seen
          then unsupported "system message order"
              "Gemini systemInstruction cannot preserve interleaved system messages" []
          else check_system_text "system content" "system message %d contains non-text content" i
              message.content
            >> (blocks >> after))
      else blocks >> beyond

  unfoldable pub openai_to_gemini_request : Request → Checked Request
  unfolding consume_streaming consume_n reject_fields openai_reasoning_to_gemini
      reject_nested_metadata check_openai_messages
  openai_to_gemini_request request = do
    metadata ← consume_streaming json request.metadata
    metadata ← consume_n json "Gemini generateContent translation supports one candidate" metadata
    reject_metadata metadata
    reasoning ← openai_reasoning_to_gemini request.reasoning
    refuse_if (disables_parallel request.tool_choice) "parallel_tool_calls"
        "Gemini parallel-tool policy translation is not implemented" []
    reject_nested_metadata request
    check_openai_messages 0 false request.messages
    ok (record request { reasoning = reasoning; metadata = [] })

  unfoldable pub check_anthropic_messages : ℕ → Bool → List Message → Checked (Unit {0})
  unfolding check_blocks check_anthropic_block_for_gemini
  check_anthropic_messages i seen [] = passed
  check_anthropic_messages i seen (message ∷ messages) =
      let after = check_anthropic_messages (suc i) seen messages in
      let beyond = check_anthropic_messages (suc i) true messages in
      let blocks = check_blocks (check_anthropic_block_for_gemini json) message.content in
      if message.role == role_system
      then (if seen
          then unsupported "system message order"
              "Gemini systemInstruction cannot preserve interleaved system messages" []
          else check_system_text "system content" "system message %d contains non-text content" i
              message.content
            >> (blocks >> after))
      else blocks >> beyond

  unfoldable pub anthropic_to_gemini_request : Request → Checked Request
  unfolding consume_streaming reject_fields reject_nested_metadata check_anthropic_messages
  anthropic_to_gemini_request request = do
    metadata ← consume_streaming json request.metadata
    reject_metadata metadata
    refuse_if (not (is_none request.reasoning)) "thinking"
        "Anthropic thinking controls are not translated to Gemini yet" []
    reject_nested_metadata request
    check_anthropic_messages 0 false request.messages
    ok (record request { metadata = [] })

unfoldable pub gemini_to_openai_request : Request → Checked Request
unfolding reject_fields reject_nested_metadata check_contents check_gemini_block_for_openai
gemini_to_openai_request request = do
  reject_metadata request.metadata
  refuse_if (not (is_none request.reasoning)) "thinking"
      "Gemini thinking controls cannot yet be represented in Chat Completions" []
  refuse_if (disables_parallel request.tool_choice) "tool configuration"
      "Gemini parallel-tool policy cannot yet be represented in Chat Completions" []
  reject_nested_metadata request
  refuse_if (has_web_search request.tools) "web search"
      "target protocol cannot preserve Gemini Google Search tool semantics" []
  check_contents check_gemini_block_for_openai request.messages
  ok (record request { metadata = [] })

unfoldable pub gemini_to_anthropic_request : Request → Checked Request
unfolding reject_fields reject_nested_metadata check_contents check_gemini_block_for_anthropic
gemini_to_anthropic_request request = do
  reject_metadata request.metadata
  refuse_if (not (is_none request.reasoning)) "thinking"
      "Gemini thinking controls cannot yet be represented in Anthropic Messages" []
  reject_nested_metadata request
  refuse_if (has_web_search request.tools) "web search"
      "target protocol cannot preserve Gemini Google Search tool semantics" []
  check_contents check_gemini_block_for_anthropic request.messages
  ok (record request { metadata = [] })
