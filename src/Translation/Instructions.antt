-- ===== src/Translation/Instructions.antt =====
-- The requests of the Responses API in internal/application/translation: responses_compatibility.go and
-- responses_gemini.go, which gathers the instructions into one system message.
use kokekokkor.Common.{
  String, ℕ, suc, Bool, true, false, not, ◌&&◌, ◌||◌, Option, none, some, List, [], ◌∷◌, ◌++◌, ok,
  ◌>>=◌, ◌>>◌, ◌==◌, string_eq, if◌then◌else◌,
}
use kokekokkor.Common.Map.{lookup, delete}
use kokekokkor.Llm.{
  Metadata, Role, role_system, role_developer, Blocks, no_blocks, more_blocks, Message, ToolChoice,
  tool_choice_auto, Request,
}
use kokekokkor.Translation.{
  Json, Checked, unsupported, refuse_if, reject_metadata, reject_fields, consume_streaming,
  reject_nested_metadata, check_blocks, has_web_search,
}
use kokekokkor.Translation.Reasoning.{openai_reasoning_to_gemini}
use kokekokkor.Translation.Portable.{check_openai_block_for_gemini}
use kokekokkor.Translation.Requests.{
  disables_parallel, check_system_text, openai_to_anthropic_request,
}

abbrev pub append_blocks : Blocks → Blocks → Blocks
append_blocks no_blocks later = later
append_blocks (more_blocks block blocks) later = more_blocks block (append_blocks blocks later)

abbrev pub is_instruction : Message → Bool
is_instruction message = message.role == role_system || message.role == role_developer

abbrev system_message : Blocks → Message
system_message content = record { role = role_system; name = ""; content = content; metadata = [] }

abbrev pub with_instructions : Blocks → List Message → List Message
with_instructions no_blocks messages = messages
with_instructions (more_blocks block blocks) messages =
    system_message (more_blocks block blocks) ∷ messages

-- A forced or restricted tool choice cannot go with a web search; a free one is left out.
unfoldable pub search_tool_choice : Bool → Option ToolChoice → Checked (Option ToolChoice)
search_tool_choice has_search none = ok none
search_tool_choice has_search (some choice) =
    if has_search
    then (if not (choice.mode == tool_choice_auto) || choice.disable_parallel
        then unsupported "tool_choice"
            "Gemini Google Search cannot preserve forced, disabled, named, or parallel web-search selection"
            []
        else ok none)
    else ok (some choice)

module _ (json : Json) where
  unfoldable pub consume_flags : List String → Metadata → Checked Metadata
  consume_flags [] metadata = ok metadata
  consume_flags (key ∷ keys) metadata =
      let without = consume_flags keys (delete key metadata) in
      let rest = consume_flags keys metadata in
      elim (lookup key metadata) [
        | none ↦ rest
        | some raw ↦ elim (json.unmarshal_bool raw false) [
          | none ↦ unsupported key "must be a boolean" []
          | some true ↦
              unsupported key "translated Responses requests cannot preserve provider-hosted state"
                []
          | some false ↦ without
        ]
      ]

  abbrev pub consume_responses_stateless_flags : Metadata → Checked Metadata
  consume_responses_stateless_flags = consume_flags ("store" ∷ "background" ∷ [])

  unfoldable pub responses_to_anthropic_request : Request → Checked Request
  unfolding consume_flags openai_to_anthropic_request
  responses_to_anthropic_request request = do
    refuse_if (has_web_search request.tools) "web_search"
        "Anthropic target mapping is not implemented" []
    metadata ← consume_responses_stateless_flags request.metadata
    openai_to_anthropic_request json (record request { metadata = metadata })

  -- The loop over the messages, from message `i`; the arguments are `seenConversation`,
  -- `instructionRole`, `instructions` and `normalized`.
  unfoldable pub normalize :
      ℕ → Bool → Role → Blocks → List Message → List Message → Checked (List Message × Blocks)
  unfolding check_blocks check_openai_block_for_gemini
  normalize i seen role instructions normalized [] = ok (normalized, instructions)
  normalize i seen role instructions normalized (message ∷ messages) =
      let gathered =
        normalize (suc i) seen message.role (append_blocks instructions message.content) normalized
          messages in
      let kept = normalize (suc i) true role instructions (normalized ++ message ∷ []) messages in
      if not seen && is_instruction message
      then (if not (role == "") && not (role == message.role)
          then unsupported "instruction roles"
              "Gemini systemInstruction cannot preserve distinct system and developer precedence" []
          else check_system_text "instructions" "instruction message %d contains non-text content" i
              message.content
            >> gathered)
      else if is_instruction message
      then unsupported "instruction order"
          "Gemini systemInstruction cannot preserve interleaved system or developer messages" []
      else check_blocks (check_openai_block_for_gemini json) message.content >> kept

  unfoldable pub responses_to_gemini_request : Request → Checked Request
  unfolding consume_flags consume_streaming reject_fields openai_reasoning_to_gemini
      search_tool_choice reject_nested_metadata normalize
  responses_to_gemini_request request = do
    metadata ← consume_responses_stateless_flags request.metadata
    metadata ← consume_streaming json metadata
    reject_metadata metadata
    reasoning ← openai_reasoning_to_gemini request.reasoning
    tool_choice ← search_tool_choice (has_web_search request.tools) request.tool_choice
    refuse_if (disables_parallel tool_choice) "parallel_tool_calls"
        "Gemini parallel-tool policy translation is not implemented" []
    reject_nested_metadata request
    result ← normalize 0 false "" no_blocks [] request.messages
    ok (record request {
      messages = with_instructions result.1 result.0;
      reasoning = reasoning;
      tool_choice = tool_choice;
      metadata = [];
    })
