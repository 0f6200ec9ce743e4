-- ===== src/State/Restored.antt =====
-- What internal/domain/responsestate/codec.go gives back of stored messages.
use kokekokkor.Common.{
  String, ℕ, suc, Bool, true, ◌&&◌, List, [], ◌∷◌, map, All, ◌≡◌, refl, sym, ap, subst, Result, ok,
  err, >>=-ok, >>=-eq-ok, string_eq, arith,
}
use kokekokkor.Llm.{
  Metadata, ContentBlock, text_block, image_block, document_block, tool_call_block,
  tool_result_block, Blocks, no_blocks, more_blocks, Message,
}
use kokekokkor.State.Codec.{
  BlockWire, BlockWires, more_wires, MessageWire, BlockFault, WireJson, at_block, check_metadata,
  marshal_block, marshal_blocks, marshal_content, marshal_from, marshalled, marshal_messages,
  unmarshal_block, unmarshal_blocks, unmarshal_content, unmarshal_from, unmarshalled,
  unmarshal_messages,
}
use kokekokkor.State.Wires.{
  is_raw, is_raw_wire, are_raw_wires, are_raw_messages, compact_wire, compact_wires,
  compact_message, JsonLaws,
}

ok-injective :
    {E A : Type 0} {value other : A} → Path (Result E A) (ok value) (ok other) → value ≡ other
ok-injective e = cc

at_block-ok :
    {A : Type 0} (i j : ℕ) (r : Result BlockFault A) {value : A}
    → at_block i j r ≡ ok value
    → r ≡ ok value
at_block-ok i j (ok value) e = cc
at_block-ok i j (err fault) e = cc

check_metadata-none :
    (i : ℕ) (metadata : Metadata) → check_metadata i metadata ≡ ok tt → metadata ≡ []
check_metadata-none i [] e = refl
check_metadata-none i (entry ∷ entries) e = cc

both_raw : (b c : Bool) → (b && c) ≡ true → (b ≡ true) × (c ≡ true)
both_raw b c h = ground (arith, h)

raw_both : (b c : Bool) → b ≡ true → c ≡ true → (b && c) ≡ true
raw_both b c h k = ground (arith, h, k)

module _ (valid : String → Bool) where
  -- The blocks that can be stored, at every depth: the arguments of a tool call are JSON or empty.
  unfoldable mutual
    pub IsPersistable : ContentBlock → Type 0
    IsPersistable (text_block _ _) = Unit
    IsPersistable (image_block _ _) = Unit
    IsPersistable (document_block _ _ _) = Unit
    IsPersistable (tool_call_block _ _ arguments) = is_raw valid arguments ≡ true
    IsPersistable (tool_result_block _ _ content _) = ArePersistable content
    IsPersistable _ = ⊥

    pub ArePersistable : Blocks → Type 0
    ArePersistable no_blocks = Unit
    ArePersistable (more_blocks block blocks) = IsPersistable block × ArePersistable blocks

  -- No provider's fields, and blocks that can be stored.
  abbrev pub IsStorable : Message → Type 0
  IsStorable message = (message.metadata ≡ []) × ArePersistable message.content

  mutual
    unfolding IsPersistable marshal_block is_raw_wire

    marshal_block-IsPersistable :
        (block : ContentBlock) (wire : BlockWire)
        → marshal_block block ≡ ok wire
        → is_raw_wire valid wire ≡ true
        → IsPersistable block
    marshal_block-IsPersistable (text_block text citations) wire e raw = tt
    marshal_block-IsPersistable (image_block source alt_text) wire e raw = tt
    marshal_block-IsPersistable (document_block source name context) wire e raw = tt
    marshal_block-IsPersistable (tool_call_block id name arguments) wire e raw =
        let here = subst (λ w. is_raw_wire valid w ≡ true) (sym (ok-injective e)) raw in
        ground (arith, here)
    marshal_block-IsPersistable (tool_result_block tool_call_id name content is_error) wire e raw =
        let (wires, there, rest) = >>=-eq-ok (marshal_blocks content) _ e in
        marshal_blocks-ArePersistable content wires there
          (subst (λ w. is_raw_wire valid w ≡ true) (sym (ok-injective rest)) raw)
    marshal_block-IsPersistable block wire e raw = cc

    marshal_blocks-ArePersistable :
        (blocks : Blocks) (wires : BlockWires)
        → marshal_blocks blocks ≡ ok wires
        → are_raw_wires valid wires ≡ true
        → ArePersistable blocks
    marshal_blocks-ArePersistable no_blocks wires e raw = tt
    marshal_blocks-ArePersistable (more_blocks block blocks) wires e raw =
        let (first, there, rest) = >>=-eq-ok (marshal_block block) _ e in
        let (others, all_there, end) = >>=-eq-ok (marshal_blocks blocks) _ rest in
        let (one, more) =
          both_raw (is_raw_wire valid first) (are_raw_wires valid others)
            (subst (λ w. are_raw_wires valid w ≡ true) (sym (ok-injective end)) raw) in
        (
          marshal_block-IsPersistable block first there one,
          marshal_blocks-ArePersistable blocks others all_there more,
        )

  marshal_content-ArePersistable :
      (i j : ℕ) (blocks : Blocks) (wires : BlockWires)
      → marshal_content i j blocks ≡ ok wires
      → are_raw_wires valid wires ≡ true
      → ArePersistable blocks
  unfolding IsPersistable marshal_content is_raw_wire
  marshal_content-ArePersistable i j no_blocks wires e raw = tt
  marshal_content-ArePersistable i j (more_blocks block blocks) wires e raw =
      let (first, there, rest) = >>=-eq-ok (at_block i j (marshal_block block)) _ e in
      let (others, all_there, end) = >>=-eq-ok (marshal_content i (suc j) blocks) _ rest in
      let (one, more) =
        both_raw (is_raw_wire valid first) (are_raw_wires valid others)
          (subst (λ w. are_raw_wires valid w ≡ true) (sym (ok-injective end)) raw) in
      (
        marshal_block-IsPersistable block first (at_block-ok i j (marshal_block block) there) one,
        marshal_content-ArePersistable i (suc j) blocks others all_there more,
      )

  marshal_from-IsStorable :
      (i : ℕ) (messages : List Message) (wires : List MessageWire)
      → marshal_from i messages ≡ ok wires
      → are_raw_messages valid wires ≡ true
      → All IsStorable messages
  unfolding marshal_from are_raw_messages
  marshal_from-IsStorable i [] wires e raw = tt
  marshal_from-IsStorable i (message ∷ messages) wires e raw =
      let (portable, bare, rest) = >>=-eq-ok (check_metadata i message.metadata) _ e in
      let (content, there, more) = >>=-eq-ok (marshal_content i 0 message.content) _ rest in
      let (others, all_there, end) = >>=-eq-ok (marshal_from (suc i) messages) _ more in
      let (one, all) =
        both_raw (are_raw_wires valid content) (are_raw_messages valid others)
          (subst (λ w. are_raw_messages valid w ≡ true) (sym (ok-injective end)) raw) in
      (
        (
          check_metadata-none i message.metadata bare,
          marshal_content-ArePersistable i 0 message.content content there one,
        ),
        marshal_from-IsStorable (suc i) messages others all_there all,
      )

module _ (compact : String → String) where
  -- The same blocks, images without their alternative text and arguments compacted.
  unfoldable mutual
    pub restored_block : ContentBlock → ContentBlock
    restored_block (image_block source alt_text) = image_block source ""
    restored_block (tool_call_block id name arguments) = tool_call_block id name (compact arguments)
    restored_block (tool_result_block tool_call_id name content is_error) =
        tool_result_block tool_call_id name (restored_blocks content) is_error
    restored_block block = block

    pub restored_blocks : Blocks → Blocks
    restored_blocks no_blocks = no_blocks
    restored_blocks (more_blocks block blocks) =
        more_blocks (restored_block block) (restored_blocks blocks)

  abbrev pub restored : Message → Message
  restored message = record message { content = restored_blocks message.content }

  abbrev with_fields : Message → Metadata → Message
  with_fields message fields = record (restored message) { metadata = fields }

  module _ (valid : String → Bool) where
    mutual
      unfolding IsPersistable marshal_block unmarshal_block restored_block is_raw_wire compact_wire

      restore_block :
          (block : ContentBlock)
          → IsPersistable valid block
          → (wire : BlockWire) × (marshal_block block ≡ ok wire)
            × (is_raw_wire valid wire ≡ true)
            × (unmarshal_block (compact_wire compact wire) ≡ ok (restored_block block))
      restore_block (text_block text citations) p = (_, refl, refl, refl)
      restore_block (image_block source alt_text) p = (_, refl, refl, refl)
      restore_block (document_block source name context) p = (_, refl, refl, refl)
      restore_block (tool_call_block id name arguments) p = (_, refl, ground (arith, p), refl)
      restore_block (tool_result_block tool_call_id name content is_error) p =
          let (wires, there, raw, back) = restore_blocks content p in
          (
            _,
            >>=-ok (marshal_blocks content) _ there refl,
            raw,
            >>=-ok (unmarshal_blocks (compact_wires compact wires)) _ back refl,
          )
      restore_block block p = elim p [ ]

      restore_blocks :
          (blocks : Blocks)
          → ArePersistable valid blocks
          → (wires : BlockWires) × (marshal_blocks blocks ≡ ok wires)
            × (are_raw_wires valid wires ≡ true)
            × (unmarshal_blocks (compact_wires compact wires) ≡ ok (restored_blocks blocks))
      restore_blocks no_blocks p = (_, refl, refl, refl)
      restore_blocks (more_blocks block blocks) (p, ps) =
          let (wire, there, raw, back) = restore_block block p in
          let (wires, all_there, all_raw, all_back) = restore_blocks blocks ps in
          (
            more_wires wire wires,
            >>=-ok (marshal_block block) _ there (>>=-ok (marshal_blocks blocks) _ all_there refl),
            raw_both (is_raw_wire valid wire) (are_raw_wires valid wires) raw all_raw,
            >>=-ok (unmarshal_block (compact_wire compact wire)) _ back
                (>>=-ok (unmarshal_blocks (compact_wires compact wires)) _ all_back refl),
          )

    restore_content :
        (i j : ℕ) (blocks : Blocks)
        → ArePersistable valid blocks
        → (wires : BlockWires) × (marshal_content i j blocks ≡ ok wires)
          × (are_raw_wires valid wires ≡ true)
          × (unmarshal_content i j (compact_wires compact wires) ≡ ok (restored_blocks blocks))
    unfolding IsPersistable marshal_content unmarshal_content restored_block is_raw_wire
        compact_wire
    restore_content i j no_blocks p = (_, refl, refl, refl)
    restore_content i j (more_blocks block blocks) (p, ps) =
        let (wire, there, raw, back) = restore_block block p in
        let (wires, all_there, all_raw, all_back) = restore_content i (suc j) blocks ps in
        (
          more_wires wire wires,
          >>=-ok (at_block i j (marshal_block block)) _ (ap (at_block i j) there)
              (>>=-ok (marshal_content i (suc j) blocks) _ all_there refl),
          raw_both (is_raw_wire valid wire) (are_raw_wires valid wires) raw all_raw,
          >>=-ok (at_block i j (unmarshal_block (compact_wire compact wire))) _
              (ap (at_block i j) back)
              (>>=-ok (unmarshal_content i (suc j) (compact_wires compact wires)) _ all_back refl),
        )

    restore_from :
        (i : ℕ) (messages : List Message)
        → All (IsStorable valid) messages
        → (wires : List MessageWire) × (marshal_from i messages ≡ ok wires)
          × (are_raw_messages valid wires ≡ true)
          × (unmarshal_from i (map (compact_message compact) wires) ≡ ok (map restored messages))
    unfolding marshal_from unmarshal_from are_raw_messages
    restore_from i [] p = (_, refl, refl, refl)
    restore_from i (message ∷ messages) ((bare, p), ps) =
        let (content, there, raw, back) = restore_content i 0 message.content p in
        let (wires, all_there, all_raw, all_back) = restore_from (suc i) messages ps in
        let wire : MessageWire = record {
          role = message.role;
          name = message.name;
          content = content;
        } in
        (
          wire ∷ wires,
          >>=-ok (check_metadata i message.metadata) _ (ap (check_metadata i) bare) (
              >>=-ok (marshal_content i 0 message.content) _ there
                (>>=-ok (marshal_from (suc i) messages) _ all_there refl)),
          raw_both (are_raw_wires valid content) (are_raw_messages valid wires) raw all_raw,
          >>=-ok (unmarshal_content i 0 (compact_wires compact content)) _ back (
              >>=-ok (unmarshal_from (suc i) (map (compact_message compact) wires)) _ all_back (
                ap (λ fields. ok (with_fields message fields ∷ map restored messages)) (sym bare))),
        )

marshalled-ok :
    {Bytes : Type 0} (r : Result String Bytes) {payload : Bytes}
    → marshalled r ≡ ok payload
    → r ≡ ok payload
marshalled-ok (ok payload) e = cc
marshalled-ok (err fault) e = cc

-- What is written is read back.
abbrev pub Restores : {Bytes : Type 0} → WireJson Bytes → (String → String) → List Message → Type 0
Restores {Bytes} json compact messages =
    (payload : Bytes) × (marshal_messages json messages ≡ ok payload)
    × (unmarshal_messages json payload ≡ ok (map (restored compact) messages))

module _ {Bytes : Type 0} (json : WireJson Bytes) (valid : String → Bool)
    (compact : String → String) (laws : JsonLaws json valid compact) where
  -- Over an encoding/json that refuses what is not JSON and reads back what it wrote, raw messages
  -- compacted: MarshalMessages takes exactly the messages without provider's fields whose blocks, at
  -- every depth, are text, images, documents, tool results and tool calls with arguments that are JSON
  -- or empty, and of what it writes UnmarshalMessages makes the same messages, images without their
  -- alternative text and arguments compacted.
  pub unmarshal-marshal :
      (messages : List Message)
      → (All (IsStorable valid) messages → Restores json compact messages)
        × ((payload : Bytes)
            → marshal_messages json messages ≡ ok payload
            → All (IsStorable valid) messages)
  unmarshal-marshal messages = (
    λ storable.
        (let (wires, there, raw, back) = restore_from compact valid 0 messages storable in
          let (payload, written) = laws.accepts wires raw in
          (
            payload,
            >>=-ok (marshal_from 0 messages) _ there (ap marshalled written),
            >>=-ok (unmarshalled (json.unmarshal payload)) _
                (ap unmarshalled (laws.reads wires payload written)) back,
          )),
    λ payload e.
        (let (wires, there, written) = >>=-eq-ok (marshal_from 0 messages) _ e in
          marshal_from-IsStorable valid 0 messages wires there
            (laws.refuses wires payload (marshalled-ok (json.marshal wires) written))),
  )
