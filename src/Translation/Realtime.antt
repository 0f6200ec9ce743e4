-- ===== src/Translation/Realtime.antt =====
-- internal/domain/llm/realtime.go and internal/application/translation/realtime.go: what of OpenAI's
-- realtime controls can go to Gemini Live. `json.Valid` and whether base64 decodes are arguments.
use text.Mathlib.Text.{starts_with}
use kokekokkor.Common.{
  String, Bool, false, not, ◌&&◌, ◌||◌, Option, none, some, List, [], ◌∷◌, ok, ◌>>=◌, ◌>>◌, ◌==◌,
  string_eq, if◌then◌else◌,
}
use kokekokkor.Llm.{
  RawMessage, Metadata, role_user, role_assistant, Blocks, no_blocks, more_blocks, Message, Tool,
  ToolChoice, tool_choice_auto, tool_choice_required, tool_choice_none, tool_choice_named,
}
use kokekokkor.Translation.{
  Checked, passed, unsupported, refuse_if, text_arg, block_arg, check_blocks, is_text,
}
use kokekokkor.Translation.Responses.{is_nonempty}

abbrev pub realtime_unknown : String
realtime_unknown = "unknown"

abbrev pub realtime_session_start : String
realtime_session_start = "session_start"

abbrev pub realtime_session_update : String
realtime_session_update = "session_update"

abbrev pub realtime_audio_append : String
realtime_audio_append = "input_audio_append"

abbrev pub realtime_audio_commit : String
realtime_audio_commit = "input_audio_commit"

abbrev pub realtime_audio_clear : String
realtime_audio_clear = "input_audio_clear"

abbrev pub realtime_item_create : String
realtime_item_create = "item_create"

abbrev pub realtime_response_create : String
realtime_response_create = "response_create"

abbrev pub realtime_response_cancel : String
realtime_response_cancel = "response_cancel"

pub record RealtimeSessionConfig : Type 0 where
  pub model : String
  pub instructions : String
  pub output_modalities : List String
  pub input_audio_media_type : String
  pub output_audio_media_type : String
  pub tools : List Tool
  pub tool_choice : Option ToolChoice
  pub metadata : Metadata

-- `llm.ToolResultBlock`, as a struct of its own.
pub record ToolResult : Type 0 where
  pub tool_call_id : String
  pub name : String
  pub content : Blocks
  pub is_error : Bool

pub record RealtimeEvent : Type 0 where
  pub kind : String
  pub event_id : String
  pub wire_type : String
  pub session : RawMessage
  pub session_config : Option RealtimeSessionConfig
  pub item : RawMessage
  pub message : Option Message
  pub tool_result : Option ToolResult
  pub audio : String
  pub response : RawMessage
  pub metadata : Metadata

abbrev pub declares : String → List Tool → Bool
declares name [] = false
declares name (tool ∷ tools) = tool.name == name || declares name tools

unfoldable pub check_realtime_choice : List Tool → Option ToolChoice → Checked (Unit {0})
check_realtime_choice tools none = passed
check_realtime_choice tools (some choice) = do
  refuse_if choice.disable_parallel "parallel tool calls"
      "Gemini Live has no portable disable_parallel control" []
  (if choice.mode == tool_choice_auto
        || choice.mode == tool_choice_required
        || choice.mode == tool_choice_none
      then passed
      else if choice.mode == tool_choice_named
      then refuse_if (not (declares choice.name tools)) "realtime tool choice"
          "named tool %q is not declared" (text_arg choice.name ∷ [])
      else unsupported "realtime tool choice" "mode %q has no Gemini Live mapping"
          (text_arg choice.mode ∷ []))

-- The one output modality, where there is exactly one and it is a text or audio.
unfoldable pub output_modality : List String → Checked String
output_modality (modality ∷ []) =
    if modality == "text" || modality == "audio"
    then ok modality
    else unsupported "realtime modalities"
        "Gemini translation requires exactly one text or audio output modality" []
output_modality [] =
    unsupported "realtime modalities"
      "Gemini translation requires exactly one text or audio output modality" []
output_modality (_ ∷ _ ∷ _) =
    unsupported "realtime modalities"
      "Gemini translation requires exactly one text or audio output modality" []

unfoldable pub validate_gemini_realtime_message : Option Message → Checked (Unit {0})
unfolding check_blocks
validate_gemini_realtime_message none =
    unsupported "realtime item" "item is not a portable text message" []
validate_gemini_realtime_message (some message) = do
  refuse_if (is_nonempty message.metadata) "realtime item metadata"
      "item contains provider-specific fields" []
  refuse_if (not (message.role == role_user || message.role == role_assistant)) "realtime role"
      "role %q has no Gemini Live client-content mapping" (text_arg message.role ∷ [])
  check_blocks
      (λ block.
        refuse_if (not (is_text block)) "realtime content"
          "content block %T is not portable to Gemini Live text" (block_arg block ∷ []))
      message.content

abbrev check_one_result : Blocks → Checked (Unit {0})
check_one_result no_blocks =
    unsupported "realtime tool result"
      "Gemini Live function response requires one portable text result" []
check_one_result (more_blocks block no_blocks) =
    refuse_if (not (is_text block)) "realtime tool result" "content block %T is not portable"
      (block_arg block ∷ [])
check_one_result (more_blocks _ (more_blocks _ _)) =
    unsupported "realtime tool result"
      "Gemini Live function response requires one portable text result" []

unfoldable pub validate_gemini_realtime_tool_result : ToolResult → Checked (Unit {0})
validate_gemini_realtime_tool_result result = do
  refuse_if (result.tool_call_id == "") "realtime tool result"
      "function_call_output is missing call_id" []
  refuse_if result.is_error "realtime tool result"
      "OpenAI Realtime function_call_output does not carry a portable error flag" []
  check_one_result result.content

module _ (json_valid base64_valid : String → Bool) where
  unfoldable pub check_realtime_tools : List Tool → Checked (Unit {0})
  check_realtime_tools [] = passed
  check_realtime_tools (tool ∷ tools) =
      let rest = check_realtime_tools tools in
      refuse_if (tool.name == "" || tool.input_schema == "" || not (json_valid tool.input_schema))
        "realtime tools" "function tool must have a name and valid JSON schema" []
      >> (refuse_if (is_nonempty tool.metadata) "realtime tool metadata"
            "tool %q contains provider-specific fields" (text_arg tool.name ∷ [])
          >> rest)

  unfoldable pub validate_gemini_realtime_session :
      Option RealtimeSessionConfig → Checked (Unit {0})
  unfolding check_realtime_tools check_realtime_choice output_modality
  validate_gemini_realtime_session none =
      unsupported "realtime session" "session control has no portable configuration" []
  validate_gemini_realtime_session (some config) = do
    refuse_if (is_nonempty config.metadata) "realtime session metadata"
        "session contains provider-specific fields" []
    modality ← output_modality config.output_modalities
    refuse_if
        (not (config.input_audio_media_type == "")
          && not (starts_with config.input_audio_media_type "audio/pcm;rate="))
        "realtime input audio format" "%q is not raw PCM"
        (text_arg config.input_audio_media_type ∷ [])
    refuse_if
        (modality == "audio"
          && not (config.output_audio_media_type == "")
          && not (config.output_audio_media_type == "audio/pcm;rate=24000"))
        "realtime output audio format" "Gemini Live output is fixed at raw PCM 24kHz" []
    check_realtime_tools config.tools
    check_realtime_choice config.tools config.tool_choice

  unfoldable pub check_realtime_item : RealtimeEvent → Checked (Unit {0})
  unfolding validate_gemini_realtime_message validate_gemini_realtime_tool_result
  check_realtime_item event = elim event.tool_result [
    | none ↦ validate_gemini_realtime_message event.message
    | some result ↦ validate_gemini_realtime_tool_result result
  ]

  -- The switch on the event's type.
  unfoldable pub check_realtime_kind : RealtimeEvent → Checked (Unit {0})
  unfolding validate_gemini_realtime_session check_realtime_item
  check_realtime_kind event =
      if event.kind == realtime_session_start || event.kind == realtime_session_update
      then validate_gemini_realtime_session event.session_config
      else if event.kind == realtime_item_create
      then check_realtime_item event
      else if event.kind == realtime_response_create
      then refuse_if (not (event.response == "")) "realtime response configuration"
          "per-response OpenAI configuration has no portable Gemini Live mapping" []
      else if event.kind == realtime_audio_append
      then (if event.audio == ""
          then unsupported "realtime audio" "audio append is empty" []
          else refuse_if (not (base64_valid event.audio)) "realtime audio"
              "audio append is not valid base64" [])
      else if event.kind == realtime_audio_commit
      then passed
      else if event.kind == realtime_audio_clear
      then unsupported "realtime audio clear"
          "Gemini Live has no equivalent buffer-clear control under automatic activity detection" []
      else if event.kind == realtime_response_cancel
      then unsupported "realtime cancellation"
          "Gemini Live does not expose an equivalent response.cancel control" []
      else if event.kind == realtime_unknown
      then unsupported "realtime event" "OpenAI event %q has no Gemini Live mapping"
          (text_arg event.wire_type ∷ [])
      else unsupported "realtime event" "canonical event %q has no Gemini Live mapping"
          (text_arg event.kind ∷ [])

  unfoldable pub openai_realtime_to_gemini_text_event : RealtimeEvent → Checked (Unit {0})
  unfolding check_realtime_kind
  openai_realtime_to_gemini_text_event event = do
    refuse_if (is_nonempty event.metadata) "realtime event metadata"
        "event %q contains provider-specific fields" (text_arg event.wire_type ∷ [])
    check_realtime_kind event
