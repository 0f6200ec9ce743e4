-- ===== src/Translation/Conversation.antt =====
-- Which conversations the translation of Chat Completions to Gemini of
-- internal/application/translation/gemini.go accepts: texts of the system, then turns of Gemini's blocks.
use kokekokkor.Common.{
  String, ℕ, suc, true, false, not, Option, none, some, List, [], ◌∷◌, ◌≡◌, ◌≢◌, refl, sym, ap, ◌∙◌,
  ◌↔◌, ◌⊎◌, inl, inr, All, ok, ◌==◌, string_eq, eq_iff, arith,
}
use kokekokkor.Common.Map.{Map, delete}
use kokekokkor.Llm.{
  RawMessage, role_system, role_developer, MediaSource, media_source_base64, ContentBlock,
  text_block, web_search_call_block, audio_block, image_block, document_block, tool_call_block,
  tool_result_block, reasoning_block, nil_block, Blocks, no_blocks, more_blocks, Message,
  ReasoningConfig, Request,
}
use kokekokkor.Translation.{Json, Checked, passed, refuse_if, number_arg, check_blocks, is_text}
use kokekokkor.Translation.Reasoning.{openai_reasoning_to_gemini}
use kokekokkor.Translation.Portable.{is_object, check_one_text, check_openai_block_for_gemini}
use kokekokkor.Translation.Requests.{
  disables_parallel, check_system_text, check_openai_messages, openai_to_gemini_request,
}
use kokekokkor.Translation.Chains.{
  value_iff, bind_iff, check_iff, refuse_iff, unless_iff, branch_iff, differs_iff, reject_iff,
  ok_iff, HasOnly, IsOff, IsSingle, consume_streaming_iff, consume_n_iff, IsPlain, nested_iff,
}
use kokekokkor.Translation.Accepted.{consumed_iff, IsSingle-delete}

abbrev pub AllBlocks : (ContentBlock → Type 0) → Blocks → Type 0
AllBlocks P no_blocks = Unit
AllBlocks P (more_blocks block blocks) = P block × AllBlocks P blocks

abbrev pub IsText : ContentBlock → Type 0
IsText block = is_text block ≡ true

abbrev IsOneText : Blocks → Type 0
IsOneText no_blocks = ⊥
IsOneText (more_blocks block no_blocks) = IsText block
IsOneText (more_blocks block (more_blocks _ _)) = ⊥

-- A call's arguments are a JSON object.
abbrev IsObject : Json → RawMessage → Type 0
IsObject json raw =
    (fields : Map String RawMessage) × (json.unmarshal_object raw ≡ some (some fields))

-- What a block must be for Gemini: media inline, arguments an object, a result one text and no error.
abbrev pub IsForGemini : Json → ContentBlock → Type 0
IsForGemini json (image_block source _) = source.kind ≡ media_source_base64
IsForGemini json (document_block source _ _) = source.kind ≡ media_source_base64
IsForGemini json (reasoning_block _ _ _ _) = ⊥
IsForGemini json (tool_call_block _ _ arguments) = IsObject json arguments
IsForGemini json (tool_result_block _ _ content is_error) = (is_error ≡ false) × IsOneText content
IsForGemini json _ = Unit

-- A message of the conversation after the system's.
abbrev pub IsTurn : Json → Message → Type 0
IsTurn json message =
    (message.role ≢ role_developer)
    × (message.role ≢ role_system)
    × AllBlocks (IsForGemini json) message.content

abbrev pub IsSystemText : Message → Type 0
IsSystemText message = (message.role ≡ role_system) × AllBlocks IsText message.content

-- System messages of texts alone, then turns alone.
abbrev pub IsConversation : Json → List Message → Type 0
IsConversation json [] = Unit
IsConversation json (message ∷ messages) =
    (IsSystemText message × IsConversation json messages) ⊎ All (IsTurn json) (message ∷ messages)

pub blocks_iff :
    (check : ContentBlock → Checked (Unit {0})) (P : ContentBlock → Type 0)
    → ((block : ContentBlock) → (check block ≡ passed) ↔ P block)
    → (blocks : Blocks) → (check_blocks check blocks ≡ passed) ↔ AllBlocks P blocks
unfolding check_blocks
blocks_iff check P each no_blocks = (λ e. tt, λ h. refl)
blocks_iff check P each (more_blocks block blocks) =
    check_iff (check block) _ (each block) (blocks_iff check P each blocks)

base64_iff :
    (source : MediaSource) (feature reason : String)
    → (refuse_if (not (source.kind == media_source_base64)) feature reason [] ≡ passed)
      ↔ (source.kind ≡ media_source_base64)
base64_iff source feature reason = ground (arith, eq_iff source.kind media_source_base64)

object_iff :
    (object : Option (Option (Map String RawMessage))) (feature reason : String)
    → (refuse_if (not (is_object object)) feature reason [] ≡ passed)
      ↔ ((fields : Map String RawMessage) × (object ≡ some (some fields)))
object_iff none feature reason = (λ e. cc, λ h. cc)
object_iff (some none) feature reason = (λ e. cc, λ h. cc)
object_iff (some (some fields)) feature reason = (λ e. (fields, refl), λ h. refl)

check_one_text_iff :
    (feature short kind : String) (content : Blocks)
    → (check_one_text feature short kind content ≡ passed) ↔ IsOneText content
check_one_text_iff feature short kind no_blocks = (λ e. cc, λ h. absurd h)
check_one_text_iff feature short kind (more_blocks block no_blocks) = ground (arith)
check_one_text_iff feature short kind (more_blocks block (more_blocks _ _)) =
    (λ e. cc, λ h. absurd h)

pub block_iff :
    (json : Json) (block : ContentBlock)
    → (check_openai_block_for_gemini json block ≡ passed) ↔ IsForGemini json block
unfolding check_openai_block_for_gemini
block_iff json (text_block _ _) = (λ e. tt, λ h. refl)
block_iff json (web_search_call_block _) = (λ e. tt, λ h. refl)
block_iff json (audio_block _) = (λ e. tt, λ h. refl)
block_iff json nil_block = (λ e. tt, λ h. refl)
block_iff json (image_block source _) = base64_iff source _ _
block_iff json (document_block source _ _) = base64_iff source _ _
block_iff json (reasoning_block _ _ _ _) = (λ e. cc, λ h. absurd h)
block_iff json (tool_call_block _ _ arguments) = object_iff (json.unmarshal_object arguments) _ _
block_iff json (tool_result_block _ _ content is_error) =
    check_iff _ _ (refuse_iff is_error _ _ _) (check_one_text_iff _ _ _ content)

pub texts_iff :
    (feature reason : String) (i : ℕ) (blocks : Blocks)
    → (check_system_text feature reason i blocks ≡ passed) ↔ AllBlocks IsText blocks
texts_iff feature reason i =
    blocks_iff (λ b. refuse_if (not (is_text b)) feature reason (number_arg i ∷ [])) IsText
      λ b.
        (let (into, back) = refuse_iff (not (is_text b)) feature reason (number_arg i ∷ []) in
          (λ e. ground (arith, into e), λ h. back (ground (arith, h))))

pub contents_iff :
    (json : Json) (blocks : Blocks)
    → (check_blocks (check_openai_block_for_gemini json) blocks ≡ passed)
      ↔ AllBlocks (IsForGemini json) blocks
contents_iff json =
    blocks_iff (check_openai_block_for_gemini json) (IsForGemini json) (block_iff json)

-- Texts are fit for Gemini.
texts-AllBlocks :
    (json : Json) (blocks : Blocks) → AllBlocks IsText blocks → AllBlocks (IsForGemini json) blocks
texts-AllBlocks json no_blocks h = tt
texts-AllBlocks json (more_blocks (text_block _ _) blocks) h = (tt, texts-AllBlocks json blocks h.1)
texts-AllBlocks json (more_blocks (web_search_call_block _) _) h = (let wrong = h.0 in cc)
texts-AllBlocks json (more_blocks (audio_block _) _) h = (let wrong = h.0 in cc)
texts-AllBlocks json (more_blocks (image_block _ _) _) h = (let wrong = h.0 in cc)
texts-AllBlocks json (more_blocks (document_block _ _ _) _) h = (let wrong = h.0 in cc)
texts-AllBlocks json (more_blocks (tool_call_block _ _ _) _) h = (let wrong = h.0 in cc)
texts-AllBlocks json (more_blocks (tool_result_block _ _ _ _) _) h = (let wrong = h.0 in cc)
texts-AllBlocks json (more_blocks (reasoning_block _ _ _ _) _) h = (let wrong = h.0 in cc)
texts-AllBlocks json (more_blocks nil_block _) h = (let wrong = h.0 in cc)

later_messages_iff :
    (json : Json) (i : ℕ) (messages : List Message)
    → (check_openai_messages json i true messages ≡ passed) ↔ All (IsTurn json) messages
unfolding check_openai_messages
later_messages_iff json i [] = (λ e. tt, λ h. refl)
later_messages_iff json i (message ∷ messages) =
    let (into, back) =
      unless_iff (message.role == role_developer) _ _ (differs_iff message.role role_developer) (
        unless_iff (message.role == role_system) _ _ (differs_iff message.role role_system) (
          check_iff _ _ (contents_iff json message.content)
            (later_messages_iff json (suc i) messages))) in
    (
      λ e. (let h = into e in ((h.0, h.1.0, h.1.1.0), h.1.1.1)),
      λ h. back (h.0.0, (h.0.1, (h.0.2, h.1))),
    )

system-≢-developer : (role : String) → role ≡ role_system → role ≢ role_developer
system-≢-developer role system developer =
    let both = ap (λ r. r == role_developer) (sym system ∙ developer) in cc

pub turns-IsConversation :
    (json : Json) (messages : List Message)
    → All (IsTurn json) messages
    → IsConversation json messages
turns-IsConversation json [] all = tt
turns-IsConversation json (message ∷ messages) all = inr all

check_openai_messages_iff :
    (json : Json) (i : ℕ) (messages : List Message)
    → (check_openai_messages json i false messages ≡ passed) ↔ IsConversation json messages
unfolding check_openai_messages
check_openai_messages_iff json i [] = (λ e. tt, λ h. refl)
check_openai_messages_iff json i (message ∷ messages) =
    let (into, back) =
      unless_iff (message.role == role_developer) _ _ (differs_iff message.role role_developer) (
        branch_iff (message.role == role_system) _ _ (eq_iff message.role role_system)
          (check_iff _ _ (texts_iff _ _ i message.content) (
            check_iff _ _ (contents_iff json message.content)
              (check_openai_messages_iff json (suc i) messages)))
          (differs_iff message.role role_system)
          (check_iff _ _ (contents_iff json message.content)
            (later_messages_iff json (suc i) messages))) in
    (
      λ e.
          (let (free, branch) = into e in
            elim branch [
              | inl h ↦ inl ((h.0, h.1.0), h.1.1.1)
              | inr h ↦ inr ((free, h.0, h.1.0), h.1.1)
            ]),
      λ h. elim h [
        | inl (h, rest) ↦
            let (system, texts) = h in
            back (
              system-≢-developer message.role system,
              inl (system, (texts, (texts-AllBlocks json message.content texts, rest))),
            )
        | inr (h, rest) ↦ let (free, other, blocks) = h in back (free, inr (other, (blocks, rest)))
      ],
    )

-- What a request for Gemini must be: not streamed, one candidate, no other fields, parallel tool calls
-- allowed, a conversation of that form.
abbrev pub IsRequestForGemini : Json → Request → Type 0
IsRequestForGemini json request =
    IsOff json "stream" request.metadata
    × IsSingle json request.metadata
    × HasOnly ("stream" ∷ "n" ∷ []) request.metadata
    × (disables_parallel request.tool_choice ≡ false)
    × IsPlain request
    × IsConversation json request.messages

-- A request is accepted exactly if it is of that form and its reasoning settings have a counterpart; then
-- only these and the extra fields change.
pub openai_to_gemini_request_iff :
    (json : Json) (request end : Request)
    → (openai_to_gemini_request json request ≡ ok end) ↔ (
        IsRequestForGemini json request
        × ((reasoning : Option ReasoningConfig) × (openai_reasoning_to_gemini request.reasoning
              ≡ ok reasoning)
            × (record request { reasoning = reasoning; metadata = [] } ≡ end)))
unfolding openai_to_gemini_request
openai_to_gemini_request_iff json request end =
    let metadata = request.metadata in
    let (into, back) =
      value_iff _ _ (delete "stream" metadata) (consume_streaming_iff json metadata) (
        value_iff _ _ (delete "n" (delete "stream" metadata))
          (consume_n_iff json _ (delete "stream" metadata))
          (check_iff _ _ (reject_iff "provider extensions" (delete "n" (delete "stream" metadata)))
            (bind_iff (openai_reasoning_to_gemini request.reasoning) _ λ reasoning.
              check_iff _ _ (refuse_iff (disables_parallel request.tool_choice) _ _ _) (
                check_iff _ _ (nested_iff request) (
                  check_iff _ _ (check_openai_messages_iff json 0 request.messages)
                    (ok_iff _ end)))))) in
    let single = IsSingle-delete json metadata in
    let only = consumed_iff metadata in
    (
      λ e.
          (let h = into e in
            let rest = h.1.1.1 in
            (
              (h.0, single.0 h.1.0, only.0 h.1.1.0, rest.2.0, rest.2.1.0, rest.2.1.1.0),
              (rest.0, rest.1, rest.2.1.1.1),
            )),
      λ h. back (
        h.0.0,
        (single.1 h.0.1, (only.1 h.0.2, (h.1.0, h.1.1, (h.0.3, (h.0.4, (h.0.5, h.1.2)))))),
      ),
    )
