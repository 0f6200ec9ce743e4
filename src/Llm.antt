-- ===== src/Llm.antt =====
-- internal/domain/llm/types.go and stream.go: the protocol-neutral requests, responses and events.
-- A `json.RawMessage` is its text, a float64 its bits, an `int` an integer. A list of content blocks is
-- a type of its own, since tool results hold one; a nil interface value is a block.
pub mod Validate
pub mod Valid
pub mod Tools
pub mod Accepted
mod Tests
use kokekokkor.Common.{String, ℕ, Bool, Option, List}
use kokekokkor.Common.Map.{Map}

pub data ℤ : Type 0 where
  pos negsuc : ℕ → ℤ

abbrev pub RawMessage : Type 0
RawMessage = String

abbrev pub Metadata : Type 0
Metadata = Map String RawMessage

abbrev pub Role : Type 0
Role = String

abbrev pub role_system : Role
role_system = "system"

abbrev pub role_developer : Role
role_developer = "developer"

abbrev pub role_user : Role
role_user = "user"

abbrev pub role_assistant : Role
role_assistant = "assistant"

pub record UrlCitation : Type 0 where
  pub start_index : ℤ
  pub end_index : ℤ
  pub url : String
  pub title : String

abbrev pub media_source_url : String
media_source_url = "url"

abbrev pub media_source_base64 : String
media_source_base64 = "base64"

abbrev pub media_source_file : String
media_source_file = "file"

pub record MediaSource : Type 0 where
  pub kind : String
  pub url : String
  pub media_type : String
  pub content : String
  pub file_id : String

mutual
  pub data ContentBlock : Type 0 where
    text_block : String → List UrlCitation → ContentBlock
    web_search_call_block : List String → ContentBlock
    audio_block : String → ContentBlock
    image_block : MediaSource → String → ContentBlock
    document_block : MediaSource → String → String → ContentBlock
    tool_call_block : String → String → RawMessage → ContentBlock
    tool_result_block : String → String → Blocks → Bool → ContentBlock
    reasoning_block : String → String → String → Metadata → ContentBlock
    nil_block : ContentBlock

  pub data Blocks : Type 0 where
    no_blocks : Blocks
    more_blocks : ContentBlock → Blocks → Blocks

pub record Message : Type 0 where
  pub role : Role
  pub name : String
  pub content : Blocks
  pub metadata : Metadata

abbrev pub tool_kind_function : String
tool_kind_function = "function"

abbrev pub tool_kind_web_search : String
tool_kind_web_search = "web_search"

pub record Tool : Type 0 where
  pub kind : String
  pub name : String
  pub description : String
  pub input_schema : RawMessage
  pub metadata : Metadata

abbrev pub tool_choice_auto : String
tool_choice_auto = "auto"

abbrev pub tool_choice_required : String
tool_choice_required = "required"

abbrev pub tool_choice_none : String
tool_choice_none = "none"

abbrev pub tool_choice_named : String
tool_choice_named = "named"

pub record ToolChoice : Type 0 where
  pub mode : String
  pub name : String
  pub disable_parallel : Bool

pub record ReasoningConfig : Type 0 where
  pub enabled : Bool
  pub mode : String
  pub budget_tokens : ℤ
  pub effort : String
  pub summary : String
  pub metadata : Metadata

pub record ResponseFormat : Type 0 where
  pub name : String
  pub description : String
  pub json_schema : RawMessage
  pub strict : Bool

pub record ResponseState : Type 0 where
  pub previous_response_id : String
  pub conversation_id : String
  pub store : Bool
  pub background : Bool
  pub instruction_messages : ℤ

pub record Request : Type 0 where
  pub model : String
  pub messages : List Message
  pub tools : List Tool
  pub tool_choice : Option ToolChoice
  pub reasoning : Option ReasoningConfig
  pub response_format : Option ResponseFormat
  pub response_state : Option ResponseState
  pub max_output_tokens : Option ℤ
  pub temperature : Option ℕ
  pub top_p : Option ℕ
  pub stop : List String
  pub metadata : Metadata

pub record Usage : Type 0 where
  pub input_tokens : ℤ
  pub output_tokens : ℤ
  pub reasoning_tokens : ℤ
  pub cache_read_tokens : ℤ
  pub cache_write_tokens : ℤ
  pub metadata : Metadata

abbrev pub stop_end_turn : String
stop_end_turn = "end_turn"

abbrev pub stop_max_tokens : String
stop_max_tokens = "max_tokens"

abbrev pub stop_at_sequence : String
stop_at_sequence = "stop_sequence"

abbrev pub stop_tool_use : String
stop_tool_use = "tool_use"

abbrev pub stop_content_block : String
stop_content_block = "content_filter"

abbrev pub stop_unknown : String
stop_unknown = "unknown"

pub record Response : Type 0 where
  pub id : String
  pub created_at : ℤ
  pub previous_response_id : String
  pub conversation_id : String
  pub background : Bool
  pub store : Bool
  pub model : String
  pub content : Blocks
  pub stop_reason : String
  pub stop_sequence : String
  pub usage : Usage
  pub metadata : Metadata
