-- ===== src/Translation.antt =====
-- internal/application/translation: what a request, a response or a stream event must not hold for the
-- other protocol to take it. compatibility.go is here, the rest in the children. A message is kept as its
-- format and arguments; `encoding/json` is the record Json. A nil map is the empty one: the code writes to
-- a clone only where it holds the key "stream".
mod Lower
pub mod Reasoning
pub mod Portable
pub mod Requests
pub mod Instructions
pub mod Responses
pub mod Streams
pub mod Events
pub mod Realtime
mod Chains
pub mod Accepted
pub mod Conversation
pub mod Gathered
pub mod Kept
pub mod Streamed
mod Tests
use kokekokkor.Common.{
  String, ℕ, suc, Bool, true, false, not, ◌&&◌, ◌||◌, Option, none, some, List, [], ◌∷◌, map,
  Result, ok, err, ◌>>=◌, ◌>>◌, ◌==◌, string_eq, ℕ_eq, if◌then◌else◌,
}
use kokekokkor.Common.Text.{text_before}
use kokekokkor.Common.Map.{Map, keys, lookup, delete}
use kokekokkor.Llm.{
  ℤ, pos, negsuc, RawMessage, Metadata, ContentBlock, text_block, web_search_call_block,
  audio_block, image_block, document_block, tool_call_block, tool_result_block, reasoning_block,
  nil_block, Blocks, no_blocks, more_blocks, Message, Tool, tool_kind_web_search, Request,
}

-- `json.Unmarshal` into a variable that holds the second argument: the variable's value afterwards, or
-- `none` for an error. A `null` leaves a Boolean or a number as it was and makes a map nil.
pub record Json : Type 0 where
  pub unmarshal_bool : RawMessage → Bool → Option Bool
  pub unmarshal_int : RawMessage → ℤ → Option ℤ
  pub unmarshal_object : RawMessage → Option (Option (Map String RawMessage))

pub data Arg : Type 0 where
  text_arg : String → Arg
  number_arg : ℕ → Arg
  block_arg : ContentBlock → Arg

pub record CompatibilityError : Type 0 where
  pub feature : String
  pub reason : String
  pub arguments : List Arg

abbrev pub Checked {ℓ} : Type ℓ → Type ℓ
Checked A = Result CompatibilityError A

abbrev pub unsupported {ℓ} : {A : Type ℓ} → String → String → List Arg → Checked A
unsupported feature reason arguments =
    err (record { feature = feature; reason = reason; arguments = arguments })

abbrev pub passed : Checked (Unit {0})
passed = ok tt

-- `if bad { return unsupported(feature, reason) }`.
abbrev pub refuse_if : Bool → String → String → List Arg → Checked (Unit {0})
refuse_if bad feature reason arguments =
    if bad then unsupported feature reason arguments else passed

unfoldable insert_sorted : String → List String → List String
insert_sorted s [] = s ∷ []
insert_sorted s (t ∷ ts) =
    let rest = insert_sorted s ts in if text_before t s then t ∷ rest else s ∷ t ∷ ts

-- `sort.Strings`.
unfoldable sort_strings : List String → List String
unfolding insert_sorted
sort_strings [] = []
sort_strings (s ∷ ss) = insert_sorted s (sort_strings ss)

unfoldable pub reject_fields : String → Metadata → Checked (Unit {0})
unfolding sort_strings
reject_fields feature [] = passed
reject_fields feature (field ∷ fields) =
    unsupported feature "unsupported fields: %s"
      (map text_arg (sort_strings (keys (field ∷ fields))))

abbrev pub reject_metadata : Metadata → Checked (Unit {0})
reject_metadata metadata = reject_fields "provider extensions" metadata

abbrev pub is_one : Option ℤ → Bool
is_one (some (pos n)) = n == 1
is_one (some (negsuc _)) = false
is_one none = false

module _ (json : Json) where
  unfoldable pub consume_streaming : Metadata → Checked Metadata
  consume_streaming metadata = elim (lookup "stream" metadata) [
    | none ↦ ok metadata
    | some raw ↦ elim (json.unmarshal_bool raw false) [
      | none ↦ unsupported "stream" "stream must be a boolean" []
      | some true ↦
          unsupported "stream" "cross-protocol streaming is implemented in a later slice" []
      | some false ↦ ok (delete "stream" metadata)
    ]
  ]

  -- The check of "n", with the reason of the target.
  unfoldable pub consume_n : String → Metadata → Checked Metadata
  consume_n reason metadata = elim (lookup "n" metadata) [
    | none ↦ ok metadata
    | some raw ↦
        if is_one (json.unmarshal_int raw (pos 0))
        then ok (delete "n" metadata)
        else unsupported "n" reason []
  ]

unfoldable pub check_message_metadata : ℕ → List Message → Checked (Unit {0})
check_message_metadata i [] = passed
check_message_metadata i (message ∷ messages) =
    let rest = check_message_metadata (suc i) messages in
    elim message.metadata [
      | [] ↦ rest
      | _ ∷ _ ↦
          unsupported "message metadata" "message %d contains provider-specific metadata"
            (number_arg i ∷ [])
    ]

unfoldable pub check_tool_metadata : ℕ → List Tool → Checked (Unit {0})
check_tool_metadata i [] = passed
check_tool_metadata i (tool ∷ tools) =
    let rest = check_tool_metadata (suc i) tools in
    elim tool.metadata [
      | [] ↦ rest
      | _ ∷ _ ↦
          unsupported "tool metadata" "tool %d contains provider-specific metadata"
            (number_arg i ∷ [])
    ]

unfoldable pub reject_nested_metadata : Request → Checked (Unit {0})
reject_nested_metadata request =
    check_message_metadata 0 request.messages >> check_tool_metadata 0 request.tools

-- A loop over blocks that returns the first error.
unfoldable pub check_blocks : (ContentBlock → Checked (Unit {0})) → Blocks → Checked (Unit {0})
check_blocks check no_blocks = passed
check_blocks check (more_blocks block blocks) =
    let rest = check_blocks check blocks in check block >> rest

-- The same loop over the blocks of all messages.
unfoldable pub check_contents :
    (ContentBlock → Checked (Unit {0})) → List Message → Checked (Unit {0})
unfolding check_blocks
check_contents check [] = passed
check_contents check (message ∷ messages) =
    let rest = check_contents check messages in check_blocks check message.content >> rest

abbrev pub is_text : ContentBlock → Bool
is_text (text_block _ _) = true
is_text (web_search_call_block _) = false
is_text (audio_block _) = false
is_text (image_block _ _) = false
is_text (document_block _ _ _) = false
is_text (tool_call_block _ _ _) = false
is_text (tool_result_block _ _ _ _) = false
is_text (reasoning_block _ _ _ _) = false
is_text nil_block = false

abbrev pub has_web_search : List Tool → Bool
has_web_search [] = false
has_web_search (tool ∷ tools) = tool.kind == tool_kind_web_search || has_web_search tools
