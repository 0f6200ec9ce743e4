-- ===== src/State/Codec.antt =====
-- internal/domain/responsestate/codec.go: how messages are stored, as the structs that encoding/json
-- writes and reads, which is a parameter.
use kokekokkor.Common.{
  String, ℕ, suc, Bool, false, Option, none, some, List, [], ◌∷◌, Result, ok, err, ◌>>=◌, ◌==◌,
  string_eq, if◌then◌else◌,
}
use kokekokkor.Llm.{
  RawMessage, Metadata, Role, UrlCitation, MediaSource, ContentBlock, text_block, image_block,
  document_block, tool_call_block, tool_result_block, Blocks, no_blocks, more_blocks, Message,
}

-- In the order of the struct's fields: type, text, citations, source, name, context, id, arguments,
-- tool call's id, content, is_error.
mutual
  pub data BlockWire : Type 0 where
    block_wire :
        String
        → String
        → List UrlCitation
        → Option MediaSource
        → String
        → String
        → String
        → RawMessage
        → String
        → BlockWires
        → Bool
        → BlockWire

  pub data BlockWires : Type 0 where
    no_wires : BlockWires
    more_wires : BlockWire → BlockWires → BlockWires

pub record MessageWire : Type 0 where
  pub role : Role
  pub name : String
  pub content : BlockWires

pub data BlockFault : Type 0 where
  not_persistable : ContentBlock → BlockFault
  missing_source unsupported_wire : String → BlockFault

pub data CodecFault : Type 0 where
  nonportable_metadata : ℕ → CodecFault
  bad_block : ℕ → ℕ → BlockFault → CodecFault
  not_marshalled not_unmarshalled : String → CodecFault

-- json.Marshal and json.Unmarshal of the structs above, from and to `[]byte`.
pub record WireJson (Bytes : Type 0) : Type 0 where
  pub marshal : List MessageWire → Result String Bytes
  pub unmarshal : Bytes → Result String (List MessageWire)

unfoldable mutual
  pub marshal_block : ContentBlock → Result BlockFault BlockWire
  marshal_block (text_block text citations) =
      ok (block_wire "text" text citations none "" "" "" "" "" no_wires false)
  marshal_block (image_block source alt_text) =
      ok (block_wire "image" "" [] (some source) "" "" "" "" "" no_wires false)
  marshal_block (document_block source name context) =
      ok (block_wire "document" "" [] (some source) name context "" "" "" no_wires false)
  marshal_block (tool_call_block id name arguments) =
      ok (block_wire "tool_call" "" [] none name "" id arguments "" no_wires false)
  marshal_block (tool_result_block tool_call_id name content is_error) =
      marshal_blocks content >>= λ wires.
      ok (block_wire "tool_result" "" [] none name "" "" "" tool_call_id wires is_error)
  marshal_block block = err (not_persistable block)

  pub marshal_blocks : Blocks → Result BlockFault BlockWires
  marshal_blocks no_blocks = ok no_wires
  marshal_blocks (more_blocks block blocks) =
      marshal_block block >>= λ wire. marshal_blocks blocks >>= λ wires. ok (more_wires wire wires)

-- The error of a block, with the message's place and the block's.
abbrev pub at_block : {A : Type 0} → ℕ → ℕ → Result BlockFault A → Result CodecFault A
at_block i j (err e) = err (bad_block i j e)
at_block i j (ok value) = ok value

unfoldable pub marshal_content : ℕ → ℕ → Blocks → Result CodecFault BlockWires
unfolding marshal_block
marshal_content i j no_blocks = ok no_wires
marshal_content i j (more_blocks block blocks) = at_block i j (marshal_block block) >>= λ wire.
    marshal_content i (suc j) blocks >>= λ wires. ok (more_wires wire wires)

abbrev pub check_metadata : ℕ → Metadata → Result CodecFault (Unit {0})
check_metadata i [] = ok tt
check_metadata i (entry ∷ entries) = err (nonportable_metadata i)

unfoldable pub marshal_from : ℕ → List Message → Result CodecFault (List MessageWire)
unfolding marshal_content
marshal_from i [] = ok []
marshal_from i (message ∷ messages) = check_metadata i message.metadata >>= λ portable.
    marshal_content i 0 message.content >>= λ content. marshal_from (suc i) messages >>= λ wires.
    ok (record { role = message.role; name = message.name; content = content } ∷ wires)

abbrev pub marshalled : {Bytes : Type 0} → Result String Bytes → Result CodecFault Bytes
marshalled (err e) = err (not_marshalled e)
marshalled (ok payload) = ok payload

abbrev pub marshal_messages :
    {Bytes : Type 0} → WireJson Bytes → List Message → Result CodecFault Bytes
marshal_messages json messages =
    marshal_from 0 messages >>= λ wires. marshalled (json.marshal wires)

abbrev pub image_of : Option MediaSource → Result BlockFault ContentBlock
image_of none = err (missing_source "image")
image_of (some source) = ok (image_block source "")

abbrev pub document_of : Option MediaSource → String → String → Result BlockFault ContentBlock
document_of none name context = err (missing_source "document")
document_of (some source) name context = ok (document_block source name context)

unfoldable mutual
  pub unmarshal_block : BlockWire → Result BlockFault ContentBlock
  unmarshal_block
        (block_wire kind text citations source name context id arguments tool_call_id content
          is_error) =
      let nested = unmarshal_blocks content in
      if kind == "text"
      then ok (text_block text citations)
      else if kind == "image"
      then image_of source
      else if kind == "document"
      then document_of source name context
      else if kind == "tool_call"
      then ok (tool_call_block id name arguments)
      else if kind == "tool_result"
      then (nested >>= λ blocks. ok (tool_result_block tool_call_id name blocks is_error))
      else err (unsupported_wire kind)

  pub unmarshal_blocks : BlockWires → Result BlockFault Blocks
  unmarshal_blocks no_wires = ok no_blocks
  unmarshal_blocks (more_wires wire wires) = unmarshal_block wire >>= λ block.
      unmarshal_blocks wires >>= λ blocks. ok (more_blocks block blocks)

unfoldable pub unmarshal_content : ℕ → ℕ → BlockWires → Result CodecFault Blocks
unfolding unmarshal_block
unmarshal_content i j no_wires = ok no_blocks
unmarshal_content i j (more_wires wire wires) = at_block i j (unmarshal_block wire) >>= λ block.
    unmarshal_content i (suc j) wires >>= λ blocks. ok (more_blocks block blocks)

unfoldable pub unmarshal_from : ℕ → List MessageWire → Result CodecFault (List Message)
unfolding unmarshal_content
unmarshal_from i [] = ok []
unmarshal_from i (wire ∷ wires) = unmarshal_content i 0 wire.content >>= λ content.
    unmarshal_from (suc i) wires >>= λ messages.
    ok (record { role = wire.role; name = wire.name; content = content; metadata = [] } ∷ messages)

abbrev pub unmarshalled : Result String (List MessageWire) → Result CodecFault (List MessageWire)
unmarshalled (err e) = err (not_unmarshalled e)
unmarshalled (ok wires) = ok wires

abbrev pub unmarshal_messages :
    {Bytes : Type 0} → WireJson Bytes → Bytes → Result CodecFault (List Message)
unmarshal_messages json payload =
    unmarshalled (json.unmarshal payload) >>= λ wires. unmarshal_from 0 wires
