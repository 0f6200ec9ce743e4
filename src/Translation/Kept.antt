-- ===== src/Translation/Kept.antt =====
-- What the response translations of internal/application/translation keep of a response that holds
-- reasoning: compatibility.go, gemini.go, responses_compatibility.go and responses_gemini.go.
use kokekokkor.Common.{
  not, [], ◌≡◌, ◌≢◌, refl, subst, ok, if_split, Bool, true, false, String, eq_iff, ◌⊎◌, inl, inr,
  ◌==◌, string_eq,
}
use kokekokkor.Llm.{
  pos, Metadata, ContentBlock, reasoning_block, Blocks, no_blocks, more_blocks, Response,
  stop_unknown,
}
use kokekokkor.Stream.Anthropic.{ℤ_eq}
use kokekokkor.Translation.{check_blocks}
use kokekokkor.Translation.Reasoning.{
  strip_reasoning_blocks, reasoning_summaries_for_responses, reject_reasoning_metadata,
}
use kokekokkor.Translation.Responses.{
  bare, anthropic_to_openai_response, gemini_to_openai_response, anthropic_to_responses_response,
  gemini_to_responses_response, reject_response_metadata, check_gemini_output,
  check_anthropic_responses_output, check_gemini_responses_output,
}
use kokekokkor.Translation.Chains.{itself, bind_iff, check_iff, refuse_iff, differs_iff, ok_iff}

abbrev IsVisible : ContentBlock → Type 0
IsVisible (reasoning_block _ _ _ _) = ⊥
IsVisible _ = Unit

-- The second list is the first with all other blocks in place and reasoning dropped or, where `summaries`
-- are kept, left as its text alone: no signature, no redacted data, no provider's fields. Only a summary
-- without text is dropped then.
pub data IsKeptFrom (summaries : Bool) : Blocks → Blocks → Type 0 where
  nothing : IsKeptFrom summaries no_blocks no_blocks
  visible :
      (block : ContentBlock) (given kept : Blocks)
      → IsVisible block
      → IsKeptFrom summaries given kept
      → IsKeptFrom summaries (more_blocks block given) (more_blocks block kept)
  dropped :
      (text signature redacted : String) (metadata : Metadata) (given kept : Blocks)
      → (summaries ≡ false) ⊎ (text ≡ "")
      → IsKeptFrom summaries given kept
      → IsKeptFrom summaries
          (more_blocks (reasoning_block text signature redacted metadata) given)
          kept
  summary :
      (text signature redacted : String) (metadata : Metadata) (given kept : Blocks)
      → summaries ≡ true
      → IsKeptFrom summaries given kept
      → IsKeptFrom summaries
          (more_blocks (reasoning_block text signature redacted metadata) given)
          (more_blocks (reasoning_block text "" "" []) kept)

-- The content is kept, and nothing else changes but the extra fields, which go.
abbrev pub IsKept : Bool → Response → Response → Type 0
IsKept summaries response end =
    IsKeptFrom summaries response.content end.content
    × (response.stop_reason ≢ stop_unknown)
    × ((record response {
      content = end.content;
      usage = record (response.usage) { metadata = [] };
      metadata = [];
    })
        ≡ end)

strip_reasoning_blocks-IsKeptFrom :
    (given : Blocks) → IsKeptFrom false given (strip_reasoning_blocks given)
unfolding strip_reasoning_blocks
strip_reasoning_blocks-IsKeptFrom no_blocks = nothing
strip_reasoning_blocks-IsKeptFrom
      (more_blocks (reasoning_block text signature redacted metadata) others) =
    dropped text signature redacted metadata others _ (inl refl)
      (strip_reasoning_blocks-IsKeptFrom others)
strip_reasoning_blocks-IsKeptFrom (more_blocks block others) =
    visible block others _ tt (strip_reasoning_blocks-IsKeptFrom others)

summaries-IsKeptFrom :
    (given end : Blocks)
    → reasoning_summaries_for_responses given ≡ ok end
    → IsKeptFrom true given end
unfolding reasoning_summaries_for_responses
summaries-IsKeptFrom no_blocks end e =
    subst (IsKeptFrom true no_blocks) ((ok_iff no_blocks end).0 e) nothing
summaries-IsKeptFrom (more_blocks (reasoning_block text signature redacted metadata) others) end e =
    let (into, _) =
      check_iff (reject_reasoning_metadata metadata) _ itself
        (bind_iff (reasoning_summaries_for_responses others) _ λ kept. ok_iff _ end) in
    let (clean, h) = into e in
    let (kept, rest, made) = h in
    let all = summaries-IsKeptFrom others kept rest in
    let given : Blocks = more_blocks (reasoning_block text signature redacted metadata) others in
    subst (IsKeptFrom true given) made (
      if_split (IsKeptFrom true given) (text == "")
        (λ blank.
          dropped text signature redacted metadata others kept (inr ((eq_iff text "").0 blank)) all)
        λ full. summary text signature redacted metadata others kept refl all)
summaries-IsKeptFrom (more_blocks block others) end e =
    let (into, _) =
      bind_iff (reasoning_summaries_for_responses others) _
        λ kept. ok_iff (more_blocks block kept) end in
    let (kept, rest, made) = into e in
    subst (IsKeptFrom true (more_blocks block others)) made
      (visible block others kept tt (summaries-IsKeptFrom others kept rest))

stripped-IsKept :
    (response end : Response)
    → response.stop_reason ≢ stop_unknown
    → bare response (strip_reasoning_blocks response.content) ≡ end
    → IsKept false response end
stripped-IsKept response end known made =
    subst (IsKept false response) made
      (strip_reasoning_blocks-IsKeptFrom response.content, known, refl)

summarised-IsKept :
    (response end : Response) (content : Blocks)
    → response.stop_reason ≢ stop_unknown
    → reasoning_summaries_for_responses response.content ≡ ok content
    → bare response content ≡ end
    → IsKept true response end
summarised-IsKept response end content known summaries made =
    subst (IsKept true response) made
      (summaries-IsKeptFrom response.content content summaries, known, refl)

-- Whichever of the four translations takes a response that may hold reasoning, all other blocks of its
-- content stay, in order. Of the reasoning the translations to Chat Completions keep nothing and those
-- to Responses the text of each block that has one, without a provider's state. Nothing else changes
-- but the extra fields, and an unknown stop reason is never taken.
pub responses-IsKept :
    (response end : Response)
    → ((anthropic_to_openai_response response ≡ ok end)
          ⊎ (gemini_to_openai_response response ≡ ok end)
        → IsKept false response end)
      × ((anthropic_to_responses_response response ≡ ok end)
            ⊎ (gemini_to_responses_response response ≡ ok end)
          → IsKept true response end)
unfolding anthropic_to_openai_response gemini_to_openai_response anthropic_to_responses_response
    gemini_to_responses_response
responses-IsKept response end =
    let stop = differs_iff response.stop_reason stop_unknown in
    (
      λ taken. elim taken [
        | inl e ↦
            let (into, _) = check_iff (reject_response_metadata response) _ itself (
              check_iff _ _ (refuse_iff (not (response.usage.cache_write_tokens == pos 0)) _ _ _) (
                check_iff _ _ (refuse_iff (response.stop_reason == stop_unknown) _ _ _)
                  (ok_iff _ end))) in
            let h = into e in stripped-IsKept response end (stop.0 h.1.1.0) h.1.1.1
        | inr e ↦
            let (into, _) = check_iff (reject_response_metadata response) _ itself (
              check_iff _ _ (refuse_iff (not (response.usage.cache_write_tokens == pos 0)) _ _ _) (
                check_iff _ _ (refuse_iff (response.stop_reason == stop_unknown) _ _ _) (
                  check_iff (check_blocks check_gemini_output response.content) _ itself
                    (ok_iff _ end)))) in
            let h = into e in stripped-IsKept response end (stop.0 h.1.1.0) h.1.1.1.1
      ],
      λ taken. elim taken [
        | inl e ↦
            let (into, _) = check_iff (reject_response_metadata response) _ itself (
              check_iff _ _ (refuse_iff (response.stop_reason == stop_unknown) _ _ _) (
                check_iff (check_blocks check_anthropic_responses_output response.content) _ itself
                  (bind_iff (reasoning_summaries_for_responses response.content) _
                    λ content. ok_iff _ end))) in
            let (clean, h) = into e in
            let (content, summaries, made) = h.1.1 in
            summarised-IsKept response end content (stop.0 h.0) summaries made
        | inr e ↦
            let (into, _) = check_iff (reject_response_metadata response) _ itself (
              check_iff _ _ (refuse_iff (not (response.usage.cache_write_tokens == pos 0)) _ _ _) (
                check_iff _ _ (refuse_iff (response.stop_reason == stop_unknown) _ _ _) (
                  check_iff (check_blocks check_gemini_responses_output response.content) _ itself (
                    bind_iff (reasoning_summaries_for_responses response.content) _
                      λ content. ok_iff _ end)))) in
            let h = into e in
            let (content, summaries, made) = h.1.1.1.1 in
            summarised-IsKept response end content (stop.0 h.1.1.0) summaries made
      ],
    )
