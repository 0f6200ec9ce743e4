-- ===== src/Llm/Validate.antt =====
-- internal/domain/llm/validate.go: Request.Validate. `json.Valid` is the argument `json_valid`.
use Prim.Native.String.{count}
use kokekokkor.Common.{
  String, ℕ, suc, Bool, true, false, not, ◌&&◌, ◌||◌, Option, none, some, List, [], ◌∷◌, length,
  Result, ok, err, ◌>>◌, ltb, ◌==◌, string_eq, if◌then◌else◌,
}
use kokekokkor.Llm.{
  ℤ, pos, negsuc, Role, role_system, role_developer, role_user, role_assistant, UrlCitation,
  MediaSource, media_source_url, media_source_base64, media_source_file, ContentBlock, text_block,
  web_search_call_block, audio_block, image_block, document_block, tool_call_block,
  tool_result_block, reasoning_block, nil_block, Blocks, no_blocks, more_blocks, Message, Tool,
  tool_kind_function, tool_kind_web_search, ToolChoice, tool_choice_auto, tool_choice_required,
  tool_choice_none, tool_choice_named, ResponseFormat, ResponseState, Request, RawMessage,
}

pub data ContentError : Type 0 where
  invalid_content unsupported_block : ContentError

pub data ValidateError : Type 0 where
  bad_role : ℕ → Role → ValidateError
  bad_content : ℕ → ℕ → ContentError → ValidateError
  invalid_tool : ℕ → ValidateError
  duplicate_tool_name : ℕ → String → ValidateError
  empty_named_tool invalid_json_schema exclusive_state invalid_boundary : ValidateError
  unsupported_mode : String → ValidateError

unfoldable pub is_role : Role → Bool
is_role role =
    role == role_system || role == role_developer || role == role_user || role == role_assistant

unfoldable pub is_negative : ℤ → Bool
is_negative (pos n) = false
is_negative (negsuc n) = true

unfoldable pub is_below : ℤ → ℤ → Bool
is_below (pos a) (pos b) = ltb a b
is_below (pos a) (negsuc b) = false
is_below (negsuc a) (pos b) = true
is_below (negsuc a) (negsuc b) = ltb b a

unfoldable pub is_bad_citation : ℕ → UrlCitation → Bool
is_bad_citation runes c =
    is_negative c.start_index
    || is_below c.end_index c.start_index
    || is_below (pos runes) c.end_index
    || c.url == ""

unfoldable pub check_citations : ℕ → List UrlCitation → Result ContentError (Unit {0})
check_citations runes [] = ok tt
check_citations runes (c ∷ cs) =
    let rest = check_citations runes cs in
    if is_bad_citation runes c then err invalid_content else rest

unfoldable pub check_queries : List String → Result ContentError (Unit {0})
check_queries [] = ok tt
check_queries (query ∷ queries) =
    let rest = check_queries queries in if query == "" then err invalid_content else rest

abbrev refuse_if : Bool → Result ContentError (Unit {0})
refuse_if bad = if bad then err invalid_content else ok tt

unfoldable pub validate_media_source : MediaSource → Result ContentError (Unit {0})
validate_media_source source =
    if source.kind == media_source_url
    then refuse_if (source.url == "")
    else if source.kind == media_source_base64
    then refuse_if (source.media_type == "" || source.content == "")
    else if source.kind == media_source_file
    then refuse_if (source.file_id == "")
    else err invalid_content

-- `len(raw) == 0 || !json.Valid(raw)`.
unfoldable pub is_bad_json : (String → Bool) → RawMessage → Bool
is_bad_json json_valid raw = raw == "" || not (json_valid raw)

unfoldable mutual
  pub validate_content : (String → Bool) → ContentBlock → Result ContentError (Unit {0})
  validate_content json_valid (text_block text citations) = check_citations (count text) citations
  validate_content json_valid (web_search_call_block queries) = check_queries queries
  validate_content json_valid (audio_block media_type) = err unsupported_block
  validate_content json_valid (image_block source alt_text) = validate_media_source source
  validate_content json_valid (document_block source name context) = validate_media_source source
  validate_content json_valid (tool_call_block id name arguments) =
      refuse_if (id == "" || name == "" || is_bad_json json_valid arguments)
  validate_content json_valid (tool_result_block tool_call_id name content is_error) =
      let nested = validate_blocks json_valid content in
      if tool_call_id == "" then err invalid_content else nested
  validate_content json_valid (reasoning_block text signature redacted metadata) = ok tt
  validate_content json_valid nil_block = err invalid_content

  pub validate_blocks : (String → Bool) → Blocks → Result ContentError (Unit {0})
  validate_blocks json_valid no_blocks = ok tt
  validate_blocks json_valid (more_blocks block blocks) =
      let rest = validate_blocks json_valid blocks in validate_content json_valid block >> rest

unfoldable pub seen_before : String → List String → Bool
seen_before name [] = false
seen_before name (seen ∷ rest) = seen == name || seen_before name rest

unfoldable pub check_tool_choice : Option ToolChoice → Result ValidateError (Unit {0})
check_tool_choice none = ok tt
check_tool_choice (some choice) =
    if choice.mode == tool_choice_auto
      || choice.mode == tool_choice_required
      || choice.mode == tool_choice_none
    then ok tt
    else if choice.mode == tool_choice_named
    then (if choice.name == "" then err empty_named_tool else ok tt)
    else err (unsupported_mode choice.mode)

unfoldable pub check_response_state : ℕ → Option ResponseState → Result ValidateError (Unit {0})
check_response_state messages none = ok tt
check_response_state messages (some state) =
    if not (state.previous_response_id == "") && not (state.conversation_id == "")
    then err exclusive_state
    else if is_negative state.instruction_messages
        || is_below (pos messages) state.instruction_messages
    then err invalid_boundary
    else ok tt

module _ (json_valid : String → Bool) where
  unfoldable pub check_content : ℕ → ℕ → Blocks → Result ValidateError (Unit {0})
  check_content i j no_blocks = ok tt
  check_content i j (more_blocks block blocks) =
      let rest = check_content i (suc j) blocks in
      elim (validate_content json_valid block) [ err e ↦ err (bad_content i j e) | ok _ ↦ rest ]

  unfoldable pub check_messages : ℕ → List Message → Result ValidateError (Unit {0})
  check_messages i [] = ok tt
  check_messages i (message ∷ messages) =
      let rest = check_messages (suc i) messages in
      if is_role message.role
      then check_content i 0 message.content >> rest
      else err (bad_role i message.role)

  unfoldable pub check_tools : ℕ → List String → List Tool → Result ValidateError (Unit {0})
  check_tools i seen [] = ok tt
  check_tools i seen (tool ∷ tools) =
      let named = check_tools (suc i) (tool.name ∷ seen) tools in
      let unnamed = check_tools (suc i) seen tools in
      if tool.kind == "" || tool.kind == tool_kind_function
      then (if tool.name == "" || is_bad_json json_valid tool.input_schema
          then err (invalid_tool i)
          else if seen_before tool.name seen
          then err (duplicate_tool_name i tool.name)
          else named)
      else if tool.kind == tool_kind_web_search
      then (if not (tool.name == "")
            || not (tool.description == "")
            || not (tool.input_schema == "")
          then err (invalid_tool i)
          else unnamed)
      else err (invalid_tool i)

  unfoldable pub check_response_format : Option ResponseFormat → Result ValidateError (Unit {0})
  check_response_format none = ok tt
  check_response_format (some format) =
      if is_bad_json json_valid format.json_schema then err invalid_json_schema else ok tt

  unfoldable pub validate : Request → Result ValidateError (Unit {0})
  unfolding check_content check_messages check_tools check_tool_choice check_response_format
      check_response_state
  validate r =
      check_messages 0 r.messages
      >> (check_tools 0 [] r.tools
          >> (check_tool_choice r.tool_choice
              >> (check_response_format r.response_format
                  >> check_response_state (length r.messages) r.response_state)))
