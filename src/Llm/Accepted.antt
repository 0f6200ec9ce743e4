-- ===== src/Llm/Accepted.antt =====
-- The requests that Request.Validate of internal/domain/llm/validate.go accepts.
use kokekokkor.Common.{
  String, ℕ, suc, ◌≤◌, ◌≡◌, refl, ap, Bool, true, false, ◌||◌, Option, none, some, List, [], ◌∷◌,
  length, All, Result, ok, err, ◌>>◌, ◌==◌, string_eq, eq_iff, Bool-cases, Result-cases, ◌↔◌, ◌⊎◌,
  inl, inr, arith,
}
use kokekokkor.Llm.{
  pos, role_system, role_developer, role_user, role_assistant, Blocks, no_blocks, more_blocks,
  Message, ToolChoice, tool_choice_auto, tool_choice_required, tool_choice_none, tool_choice_named,
  ResponseFormat, ResponseState, Request,
}
use kokekokkor.Llm.Validate.{
  is_role, is_negative, is_below, is_bad_json, validate_content, check_content, check_messages,
  check_tools, check_tool_choice, check_response_format, check_response_state, validate,
}
use kokekokkor.Llm.Tools.{IsFunction, IsSearch, function_names, AreNew, tools_sound, tools_complete}
use kokekokkor.Llm.Valid.{IsNamed, IsJson, AreContents, validate_content_iff, ℤ-cases}

abbrev pub IsRole : String → Type 0
IsRole r = (r ≡ role_system) ⊎ (r ≡ role_developer) ⊎ (r ≡ role_user) ⊎ (r ≡ role_assistant)

is_role-IsRole : (r : String) → (is_role r ≡ true) ↔ IsRole r
unfolding is_role
is_role-IsRole r = (
  λ e. ground (
    arith,
    e,
    eq_iff r role_system,
    eq_iff r role_developer,
    eq_iff r role_user,
    eq_iff r role_assistant,
  ),
  λ h. ground (
    arith,
    h,
    eq_iff r role_system,
    eq_iff r role_developer,
    eq_iff r role_user,
    eq_iff r role_assistant,
  ),
)

-- What follows a check that was passed.
then_iff :
    {F : Type 0} {P Q : Type 0} (first rest : Result F (Unit {0}))
    → (first ≡ ok tt) ↔ P
    → (rest ≡ ok tt) ↔ Q
    → ((first >> rest) ≡ ok tt) ↔ (P × Q)
then_iff (ok _) rest (into, back) (rest_into, rest_back) =
    (λ e. (into refl, rest_into e), λ h. rest_back h.1)
then_iff (err e) rest (into, back) (rest_into, rest_back) =
    (λ e. cc, λ h. (let bad = back h.0 in cc))

module _ (json_valid : String → Bool) where
  content_iff :
      (i j : ℕ) (blocks : Blocks)
      → (check_content json_valid i j blocks ≡ ok tt) ↔ AreContents json_valid blocks
  unfolding check_content AreContents
  content_iff i j no_blocks = (λ e. tt, λ h. refl)
  content_iff i j (more_blocks block blocks) =
      let (into, back) = validate_content_iff json_valid block in
      let (all_into, all_back) = content_iff i (suc j) blocks in
      (
        λ e. elim (Result-cases (validate_content json_valid block)) [
          | inr (x, bad) ↦ ground (arith, e, bad)
          | inl (_, good) ↦ (into good, all_into (ground (arith, e, good)))
        ],
        λ h. (let good = back h.0 in let rest = all_back h.1 in ground (arith, good, rest)),
      )

  abbrev pub IsMessage : Message → Type 0
  IsMessage m = IsRole m.role × AreContents json_valid m.content

  messages_iff :
      (i : ℕ) (messages : List Message)
      → (check_messages json_valid i messages ≡ ok tt) ↔ All IsMessage messages
  unfolding check_messages
  messages_iff i [] = (λ e. tt, λ h. refl)
  messages_iff i (m ∷ messages) =
      let (role_into, role_back) = is_role-IsRole m.role in
      let both =
        then_iff (check_content json_valid i 0 m.content)
          (check_messages json_valid (suc i) messages) (content_iff i 0 m.content)
          (messages_iff (suc i) messages) in
      (
        λ e. elim (Bool-cases (is_role m.role)) [
          | inr bad ↦ ground (arith, e, bad)
          | inl good ↦
              let (one, all) = both.0 (ground (arith, e, good)) in ((role_into good, one), all)
        ],
        λ h.
            (let good = role_back h.0.0 in
              let rest = both.1 (h.0.1, h.1) in rw (good, check_messages) rest),
      )

-- A mode that is known, and a name for the one that names a tool.
abbrev pub IsChoice : Option ToolChoice → Type 0
IsChoice none = Unit
IsChoice (some c) =
    (c.mode ≡ tool_choice_auto)
    ⊎ (c.mode ≡ tool_choice_required)
    ⊎ (c.mode ≡ tool_choice_none)
    ⊎ ((c.mode ≡ tool_choice_named) × IsNamed c.name)

check_tool_choice-IsChoice : (c : Option ToolChoice) → (check_tool_choice c ≡ ok tt) ↔ IsChoice c
unfolding check_tool_choice
check_tool_choice-IsChoice none = (λ e. tt, λ h. refl)
check_tool_choice-IsChoice (some c) = (
  λ e. ground (
    arith,
    e,
    eq_iff c.mode tool_choice_auto,
    eq_iff c.mode tool_choice_required,
    eq_iff c.mode tool_choice_none,
    eq_iff c.mode tool_choice_named,
  ),
  λ h. elim h [
    | inl mode ↦ known (ap is_known mode)
    | inr (inl mode) ↦ known (ap is_known mode)
    | inr (inr (inl mode)) ↦ known (ap is_known mode)
    | inr (inr (inr (mode, named))) ↦
        let other : is_known c.mode ≡ false = ap is_known mode in
        let this : (c.mode == tool_choice_named) ≡ true = ap (λ m. m == tool_choice_named) mode in
        rw (check_tool_choice, other, this, named)
  ],
)
  where
    is_known : String → Bool
    is_known m = m == tool_choice_auto || m == tool_choice_required || m == tool_choice_none

    known : is_known c.mode ≡ true → check_tool_choice (some c) ≡ ok tt
    known e = rw (check_tool_choice, e)

abbrev pub IsFormat : (String → Bool) → Option ResponseFormat → Type 0
IsFormat json_valid none = Unit
IsFormat json_valid (some f) = IsJson json_valid f.json_schema

check_response_format-IsFormat :
    (json_valid : String → Bool) (f : Option ResponseFormat)
    → (check_response_format json_valid f ≡ ok tt) ↔ IsFormat json_valid f
unfolding check_response_format is_bad_json
check_response_format-IsFormat json_valid none = (λ e. tt, λ h. refl)
check_response_format-IsFormat json_valid (some f) =
    (λ e. ground (arith, e), λ h. ground (arith, h))

-- One reference to earlier content at most, and a boundary within the messages.
abbrev pub IsState : ℕ → Option ResponseState → Type 0
IsState messages none = Unit
IsState messages (some s) =
    ((s.previous_response_id ≡ "") ⊎ (s.conversation_id ≡ ""))
    × (k : ℕ) × (s.instruction_messages ≡ pos k)
    × (k ≤ messages)

check_response_state-IsState :
    (messages : ℕ) (s : Option ResponseState)
    → (check_response_state messages s ≡ ok tt) ↔ IsState messages s
unfolding check_response_state is_negative is_below
check_response_state-IsState messages none = (λ e. tt, λ h. refl)
check_response_state-IsState messages (some s) = (
  λ e. elim (ℤ-cases s.instruction_messages) [
    | inr (k, below) ↦ ground (arith, e, below)
    | inl (k, at) ↦
        let facts : ((s.previous_response_id ≡ "") ⊎ (s.conversation_id ≡ "")) × (k ≤ messages) =
          ground (arith, e, at, eq_iff s.previous_response_id "", eq_iff s.conversation_id "") in
        (facts.0, k, at, facts.1)
  ],
  λ h.
      (let (one, k, at, low) = h in
        ground
          (arith, one, at, low, eq_iff s.previous_response_id "", eq_iff s.conversation_id "")),
)

-- A request that Validate accepts: known roles and well-formed content at every depth, well-formed
-- tools whose function names differ, a known tool choice, a JSON response schema, a consistent state.
abbrev pub IsAcceptable : (String → Bool) → Request → Type 0
IsAcceptable json_valid r =
    All (IsMessage json_valid) r.messages
    × ((All (λ t. IsFunction json_valid t ⊎ IsSearch t) r.tools
          × AreNew [] (function_names r.tools))
        × (IsChoice r.tool_choice
            × (IsFormat json_valid r.response_format
                × IsState (length r.messages) r.response_state)))

-- Validate accepts exactly the acceptable requests.
pub validate-IsAcceptable :
    (json_valid : String → Bool) (r : Request)
    → (validate json_valid r ≡ ok tt) ↔ IsAcceptable json_valid r
unfolding validate
validate-IsAcceptable v r =
    then_iff (check_messages v 0 r.messages) _ (messages_iff v 0 r.messages) (
      then_iff (check_tools v 0 [] r.tools) _
        (tools_sound v 0 [] r.tools, λ h. tools_complete v 0 [] r.tools h.0 h.1)
        (then_iff (check_tool_choice r.tool_choice) _ (check_tool_choice-IsChoice r.tool_choice) (
          then_iff (check_response_format v r.response_format) _
            (check_response_format-IsFormat v r.response_format)
            (check_response_state-IsState (length r.messages) r.response_state))))
