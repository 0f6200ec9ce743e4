-- ===== src/Translation/Reasoning.antt =====
-- internal/application/translation/reasoning.go: reasoning settings and reasoning blocks.
use kokekokkor.Common.{
  String, Bool, ◌||◌, true, false, Option, none, some, [], ◌∷◌, ok, ◌>>=◌, ◌>>◌, ltb, ◌==◌,
  string_eq, if◌then◌else◌,
}
use kokekokkor.Llm.{
  ℤ, pos, negsuc, ReasoningConfig, reasoning_block, Blocks, no_blocks, more_blocks, Metadata,
}
use kokekokkor.Translation.{Checked, passed, unsupported, text_arg, reject_fields}
use kokekokkor.Translation.Lower.{to_lower}

abbrev pub reject_reasoning_metadata : Metadata → Checked (Unit {0})
reject_reasoning_metadata metadata = reject_fields "reasoning extensions" metadata

unfoldable pub validate_portable_summary : String → Checked (Unit {0})
validate_portable_summary summary =
    if summary == ""
      || summary == "none"
      || summary == "auto"
      || summary == "concise"
      || summary == "detailed"
    then passed
    else unsupported "reasoning summary" "unsupported summary mode %s" (text_arg summary ∷ [])

abbrev pub summary_of : ReasoningConfig → String
summary_of r = if r.summary == "" then "none" else r.summary

-- The clone that the code starts from.
abbrev pub plain : ReasoningConfig → ReasoningConfig
plain r = record r { metadata = []; summary = summary_of r }

abbrev pub is_positive : ℤ → Bool
is_positive (pos n) = ltb 0 n
is_positive (negsuc n) = false

abbrev pub anthropic_mode : ReasoningConfig → String
anthropic_mode r = if is_positive r.budget_tokens then "enabled" else "adaptive"

abbrev with_effort : ReasoningConfig → String → ReasoningConfig
with_effort r effort = record (plain r) { effort = effort; enabled = true; mode = anthropic_mode r }

-- The switch on the lower case of the effort.
unfoldable pub anthropic_effort : ReasoningConfig → String → Checked ReasoningConfig
anthropic_effort r effort =
    if effort == ""
    then ok (with_effort r r.effort)
    else if effort == "none"
    then ok (record (plain r) { enabled = false; mode = "disabled"; effort = ""; summary = "none" })
    else if effort == "minimal"
    then ok (with_effort r "low")
    else if effort == "low"
        || effort == "medium"
        || effort == "high"
        || effort == "xhigh"
        || effort == "max"
    then ok (with_effort r effort)
    else unsupported "reasoning effort" "Anthropic cannot represent OpenAI effort %s"
        (text_arg r.effort ∷ [])

unfoldable pub gemini_effort : ReasoningConfig → String → Checked ReasoningConfig
gemini_effort r effort =
    if effort == ""
    then ok (plain r)
    else if effort == "none"
    then ok
        (record (plain r) { enabled = false; mode = "disabled"; effort = "none"; summary = "none" })
    else if effort == "minimal" || effort == "low" || effort == "medium" || effort == "high"
    then ok (record (plain r) { enabled = true; effort = effort })
    else if effort == "xhigh" || effort == "max"
    then ok (record (plain r) { enabled = true; effort = "high" })
    else unsupported "reasoning effort" "Gemini cannot represent OpenAI effort %s"
        (text_arg r.effort ∷ [])

unfoldable pub openai_reasoning_to_anthropic :
    Option ReasoningConfig → Checked (Option ReasoningConfig)
unfolding to_lower validate_portable_summary anthropic_effort
openai_reasoning_to_anthropic none = ok none
openai_reasoning_to_anthropic (some r) = do
  reject_reasoning_metadata r.metadata
  validate_portable_summary (summary_of r)
  result ← anthropic_effort r (to_lower r.effort)
  ok (some result)

unfoldable pub openai_reasoning_to_gemini :
    Option ReasoningConfig → Checked (Option ReasoningConfig)
unfolding to_lower validate_portable_summary gemini_effort
openai_reasoning_to_gemini none = ok none
openai_reasoning_to_gemini (some r) = do
  reject_reasoning_metadata r.metadata
  validate_portable_summary (summary_of r)
  result ← gemini_effort r (to_lower r.effort)
  ok (some result)

unfoldable pub strip_reasoning_blocks : Blocks → Blocks
strip_reasoning_blocks no_blocks = no_blocks
strip_reasoning_blocks (more_blocks (reasoning_block _ _ _ _) blocks) =
    strip_reasoning_blocks blocks
strip_reasoning_blocks (more_blocks block blocks) =
    more_blocks block (strip_reasoning_blocks blocks)

-- A reasoning block becomes its summary text, or nothing where that is empty.
unfoldable pub reasoning_summaries_for_responses : Blocks → Checked Blocks
reasoning_summaries_for_responses no_blocks = ok no_blocks
reasoning_summaries_for_responses (more_blocks (reasoning_block text _ _ metadata) blocks) =
    let rest = reasoning_summaries_for_responses blocks in
    reject_reasoning_metadata metadata
    >> (rest >>= λ kept.
        ok (if text == "" then kept else more_blocks (reasoning_block text "" "" []) kept))
reasoning_summaries_for_responses (more_blocks block blocks) =
    reasoning_summaries_for_responses blocks >>= λ kept. ok (more_blocks block kept)
