-- ===== src/Translation/Gathered.antt =====
-- What the translation of a Responses request to Gemini of
-- internal/application/translation/responses_gemini.go makes of the messages.
use kokekokkor.Common.{
  ℕ, suc, true, false, not, ◌&&◌, ◌||◌, Option, List, [], ◌∷◌, ◌++◌, ◌≡◌, ◌≢◌, refl, sym, ap, subst,
  ◌↔◌, ◌⊎◌, inl, inr, All, ok, ◌==◌, string_eq, eq_iff, arith,
}
use mathlib.Core.List.{append_assoc, append-nil}
use kokekokkor.Llm.{
  Role, role_system, role_developer, ContentBlock, Blocks, no_blocks, more_blocks, Message,
  ToolChoice, ReasoningConfig, Request,
}
use kokekokkor.Translation.{Json, reject_metadata, consume_streaming, has_web_search}
use kokekokkor.Translation.Reasoning.{openai_reasoning_to_gemini}
use kokekokkor.Translation.Requests.{disables_parallel}
use kokekokkor.Translation.Instructions.{
  append_blocks, is_instruction, with_instructions, search_tool_choice,
  consume_responses_stateless_flags, normalize, responses_to_gemini_request,
}
use kokekokkor.Translation.Chains.{
  itself, bind_iff, check_iff, refuse_iff, nested_iff, ok_iff, unless_iff, branch_iff,
}
use kokekokkor.Translation.Conversation.{
  AllBlocks, IsText, IsTurn, IsConversation, contents_iff, texts_iff, turns-IsConversation,
}

-- The contents of messages, one after the other.
abbrev pub contents : List Message → Blocks
contents [] = no_blocks
contents (message ∷ messages) = append_blocks message.content (contents messages)

append_blocks-none : (a : Blocks) → append_blocks a no_blocks ≡ a
append_blocks-none no_blocks = refl
append_blocks-none (more_blocks block a) = ap (more_blocks block) (append_blocks-none a)

append_blocks_assoc :
    (a b c : Blocks) → append_blocks (append_blocks a b) c ≡ append_blocks a (append_blocks b c)
append_blocks_assoc no_blocks b c = refl
append_blocks_assoc (more_blocks block a) b c = ap (more_blocks block) (append_blocks_assoc a b c)

append_blocks-AllBlocks :
    (P : ContentBlock → Type 0) (a b : Blocks)
    → AllBlocks P a
    → AllBlocks P b
    → AllBlocks P (append_blocks a b)
append_blocks-AllBlocks P no_blocks b h k = k
append_blocks-AllBlocks P (more_blocks block a) b h k = (h.0, append_blocks-AllBlocks P a b h.1 k)

turn_iff :
    (message : Message)
    → (is_instruction message ≡ false)
      ↔ ((message.role ≢ role_developer) × (message.role ≢ role_system))
turn_iff message =
    ground (arith, eq_iff message.role role_developer, eq_iff message.role role_system)

-- After the first turn every message is one, and is kept in its place.
later_iff :
    (json : Json) (i : ℕ) (role : Role) (instructions : Blocks) (kept messages : List Message)
    (end : List Message × Blocks)
    → (normalize json i true role instructions kept messages ≡ ok end)
      ↔ (All (IsTurn json) messages × ((kept ++ messages, instructions) ≡ end))
unfolding normalize
later_iff json i role instructions kept [] end =
    let (into, back) = ok_iff (kept, instructions) end in
    rw (append-nil kept) (λ e. (tt, into e), λ h. back h.1)
later_iff json i role instructions kept (message ∷ messages) end =
    let (into, back) = unless_iff (is_instruction message) _ _ (turn_iff message) (
      check_iff _ _ (contents_iff json message.content)
        (later_iff json (suc i) role instructions (kept ++ message ∷ []) messages end)) in
    let same = append_assoc kept (message ∷ []) messages in
    (
      λ e.
          (let h = into e in
            (((h.0.0, h.0.1, h.1.0), h.1.1.0), subst (λ l. (l, instructions) ≡ end) same h.1.1.1)),
      λ h. back (
        (h.0.0.0, h.0.0.1),
        (h.0.0.2, (h.0.1, subst (λ l. (l, instructions) ≡ end) (sym same) h.1)),
      ),
    )

-- An instruction of the role, made of texts.
abbrev pub IsInstruction : Role → Message → Type 0
IsInstruction role message =
    (message.role ≡ role) × (is_instruction message ≡ true) × AllBlocks IsText message.content

-- The messages are instructions of one role, then turns; these are kept and those are gathered.
abbrev IsGathered :
    Json → Role → Blocks → List Message → List Message → List Message × Blocks → Type 0
IsGathered json role instructions kept messages end =
    (first rest : List Message) × (shared : Role) × ((role ≡ "") ⊎ (role ≡ shared))
    × All (IsInstruction shared) first
    × All (IsTurn json) rest
    × (messages ≡ first ++ rest)
    × ((kept ++ rest, append_blocks instructions (contents first)) ≡ end)

shared_iff :
    (role other : Role)
    → ((not (role == "") && not (role == other)) ≡ false) ↔ ((role ≡ "") ⊎ (role ≡ other))
shared_iff role other = ground (arith, eq_iff role "", eq_iff role other)

no_empty :
    (message : Message) (shared : Role)
    → is_instruction message ≡ true
    → (message.role ≡ "") ⊎ (message.role ≡ shared)
    → message.role ≡ shared
no_empty message shared instruction (inl empty) =
    let none_is = ap (λ r. r == role_system || r == role_developer) empty in
    ground (arith, none_is, instruction)
no_empty message shared instruction (inr same) = same

normalize-IsGathered :
    (json : Json) (i : ℕ) (role : Role) (instructions : Blocks) (kept messages : List Message)
    (end : List Message × Blocks)
    → normalize json i false role instructions kept messages ≡ ok end
    → IsGathered json role instructions kept messages end
unfolding normalize
normalize-IsGathered json i role instructions kept [] end e = (
  [],
  [],
  role,
  inr refl,
  tt,
  tt,
  refl,
  rw (append-nil kept, append_blocks-none instructions) ((ok_iff (kept, instructions) end).0 e),
)
normalize-IsGathered json i role instructions kept (message ∷ messages) end e =
    let (into, _) =
      branch_iff (is_instruction message) _ _ itself
        (unless_iff (not (role == "") && not (role == message.role)) _ _
          (shared_iff role message.role) (check_iff _ _ (texts_iff _ _ i message.content) itself))
        itself
        (unless_iff (is_instruction message) _ _ (turn_iff message) (
          check_iff _ _ (contents_iff json message.content)
            (later_iff json (suc i) role instructions (kept ++ message ∷ []) messages end))) in
    elim (into e) [
      | inl h ↦
          let (first, rest, shared, fits, all, turns, split, gathered) =
            normalize-IsGathered json (suc i) message.role
              (append_blocks instructions message.content) kept messages end h.1.1.1 in
          let same = no_empty message shared h.0 fits in
          (
            message ∷ first,
            rest,
            shared,
            subst (λ s. (role ≡ "") ⊎ (role ≡ s)) same h.1.0,
            ((same, h.0, h.1.1.0), all),
            turns,
            ap (λ l. message ∷ l) split,
            subst (λ b. (kept ++ rest, b) ≡ end)
                (append_blocks_assoc instructions message.content (contents first)) gathered,
          )
      | inr h ↦ (
        [],
        message ∷ messages,
        role,
        inr refl,
        tt,
        ((h.1.0.0, h.1.0.1, h.1.1.0), h.1.1.1.0),
        refl,
        rw (append_blocks-none instructions) (
            subst (λ l. (l, instructions) ≡ end) (append_assoc kept (message ∷ []) messages)
              h.1.1.1.1),
      )
    ]

with_instructions-IsConversation :
    (json : Json) (instructions : Blocks) (turns : List Message)
    → AllBlocks IsText instructions
    → All (IsTurn json) turns
    → IsConversation json (with_instructions instructions turns)
with_instructions-IsConversation json no_blocks turns texts all =
    turns-IsConversation json turns all
with_instructions-IsConversation json (more_blocks first others) turns texts all =
    inl ((refl, texts), turns-IsConversation json turns all)

contents-AllBlocks :
    (role : Role) (messages : List Message)
    → All (IsInstruction role) messages
    → AllBlocks IsText (contents messages)
contents-AllBlocks role [] all = tt
contents-AllBlocks role (message ∷ messages) all =
    append_blocks-AllBlocks IsText message.content (contents messages) all.0.2
      (contents-AllBlocks role messages all.1)

-- What an accepted request becomes.
abbrev pub IsForSystemInstruction : Json → Request → Request → Type 0
IsForSystemInstruction json request end =
    (first rest : List Message) × (role : Role) × (request.messages ≡ first ++ rest)
    × All (IsInstruction role) first
    × All (IsTurn json) rest
    × IsConversation json end.messages
    × (reasoning : Option ReasoningConfig) × (tool_choice : Option ToolChoice) × (record request {
      messages = with_instructions (contents first) rest;
      reasoning = reasoning;
      tool_choice = tool_choice;
      metadata = [];
    }
        ≡ end)

-- An accepted request's messages are instructions of one role, made of texts, and then turns; the result
-- has the instructions' contents, in order, as one system message and the turns as they were, which is a
-- conversation for Gemini, and changes nothing else but reasoning, tool choice and extra fields.
pub responses_to_gemini_request-IsForSystemInstruction :
    (json : Json) (request end : Request)
    → responses_to_gemini_request json request ≡ ok end
    → IsForSystemInstruction json request end
unfolding responses_to_gemini_request
responses_to_gemini_request-IsForSystemInstruction json request end e =
    let (into, _) = bind_iff (consume_responses_stateless_flags json request.metadata) _ λ metadata.
      bind_iff (consume_streaming json metadata) _ λ left.
        check_iff (reject_metadata left) _ itself (
          bind_iff (openai_reasoning_to_gemini request.reasoning) _ λ reasoning.
            bind_iff (search_tool_choice (has_web_search request.tools) request.tool_choice) _
              λ tool_choice. check_iff _ _ (refuse_iff (disables_parallel tool_choice) _ _ _) (
                check_iff _ _ (nested_iff request) (
                  bind_iff (normalize json 0 false "" no_blocks [] request.messages) _
                    λ result. ok_iff _ end))) in
    let (metadata, consumed, h) = into e in
    let (left, streamed, h) = h in
    let (rejected, h) = h in
    let (reasoning, mapped, h) = h in
    let (tool_choice, chosen, h) = h in
    let (result, normalized, built) = h.1.1 in
    let (first, rest, role, fits, instructions, turns, split, gathered) =
      normalize-IsGathered json 0 "" no_blocks [] request.messages result normalized in
    let made =
      subst
        (λ r.
          record request {
            messages = with_instructions r.1 r.0;
            reasoning = reasoning;
            tool_choice = tool_choice;
            metadata = [];
          }
          ≡ end)
        (sym gathered) built in
    let texts = contents-AllBlocks role first instructions in
    let valid = with_instructions-IsConversation json (contents first) rest texts turns in
    (
      first,
      rest,
      role,
      split,
      instructions,
      turns,
      subst (λ r. IsConversation json r.messages) made valid,
      reasoning,
      tool_choice,
      made,
    )
