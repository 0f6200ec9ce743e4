-- ===== src/State/Wires.antt =====
-- What internal/domain/responsestate/codec.go relies on of encoding/json. A `json.RawMessage` that is not
-- empty must be JSON and is written compacted, all other fields come back as they were.
use kokekokkor.Common.{String, Bool, true, ◌&&◌, ◌||◌, List, [], ◌∷◌, map, ◌≡◌, ok, ◌==◌, string_eq}
use kokekokkor.State.Codec.{
  BlockWire, block_wire, BlockWires, no_wires, more_wires, MessageWire, WireJson,
}

module _ (valid : String → Bool) where
  abbrev pub is_raw : String → Bool
  is_raw raw = raw == "" || valid raw

  unfoldable mutual
    pub is_raw_wire : BlockWire → Bool
    is_raw_wire (block_wire _ _ _ _ _ _ _ arguments _ content _) =
        is_raw arguments && are_raw_wires content

    pub are_raw_wires : BlockWires → Bool
    are_raw_wires no_wires = true
    are_raw_wires (more_wires wire wires) = is_raw_wire wire && are_raw_wires wires

  unfoldable pub are_raw_messages : List MessageWire → Bool
  unfolding is_raw_wire
  are_raw_messages [] = true
  are_raw_messages (message ∷ messages) = are_raw_wires message.content && are_raw_messages messages

module _ (compact : String → String) where
  unfoldable mutual
    pub compact_wire : BlockWire → BlockWire
    compact_wire
          (block_wire kind text citations source name context id arguments tool_call_id content
            is_error) =
        block_wire kind text citations source name context id (compact arguments) tool_call_id
          (compact_wires content) is_error

    pub compact_wires : BlockWires → BlockWires
    compact_wires no_wires = no_wires
    compact_wires (more_wires wire wires) = more_wires (compact_wire wire) (compact_wires wires)

  abbrev pub compact_message : MessageWire → MessageWire
  compact_message message = record message { content = compact_wires message.content }

-- `valid` is json.Valid, and `compact` how a raw message is written, of an empty one nothing.
pub record JsonLaws {Bytes : Type 0} (json : WireJson Bytes) (valid : String → Bool)
    (compact : String → String) : Type 0 where
  pub accepts :
      (wires : List MessageWire)
      → are_raw_messages valid wires ≡ true
      → (payload : Bytes) × (json.marshal wires ≡ ok payload)
  pub refuses :
      (wires : List MessageWire) (payload : Bytes)
      → json.marshal wires ≡ ok payload
      → are_raw_messages valid wires ≡ true
  pub reads :
      (wires : List MessageWire) (payload : Bytes)
      → json.marshal wires ≡ ok payload
      → json.unmarshal payload ≡ ok (map (compact_message compact) wires)
