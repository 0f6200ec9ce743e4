-- ===== src/Translation/Accepted.antt =====
-- Which requests of Chat Completions the translation to Anthropic of
-- internal/application/translation/compatibility.go accepts, and what it makes of them.
use kokekokkor.Common.{false, Option, [], ◌∷◌, ◌≡◌, sym, ◌∙◌, ◌↔◌, ok, string_eq}
use kokekokkor.Common.Map.{lookup, delete, lookup-delete}
use kokekokkor.Llm.{ReasoningConfig, Metadata, Request}
use kokekokkor.Translation.{Json}
use kokekokkor.Translation.Reasoning.{openai_reasoning_to_anthropic}
use kokekokkor.Translation.Requests.{is_none, openai_to_anthropic_request}
use kokekokkor.Translation.Chains.{
  value_iff, bind_iff, ok_iff, check_iff, refuse_iff, reject_iff, HasOnly, HasOnly-none,
  HasOnly-delete, IsOff, IsSingle, consume_streaming_iff, consume_n_iff, IsPlain, nested_iff,
}

-- Nothing but "stream" and "n" besides the portable fields, not streamed, one message, a token limit.
abbrev pub IsForAnthropic : Json → Request → Type 0
IsForAnthropic json request =
    IsOff json "stream" request.metadata
    × IsSingle json request.metadata
    × HasOnly ("stream" ∷ "n" ∷ []) request.metadata
    × (is_none request.max_output_tokens ≡ false)
    × IsPlain request

-- The fields that are left once "stream" and "n" are consumed.
pub consumed_iff :
    (metadata : Metadata)
    → (delete "n" (delete "stream" metadata) ≡ []) ↔ HasOnly ("stream" ∷ "n" ∷ []) metadata
consumed_iff metadata =
    let (a, b) = HasOnly-none (delete "n" (delete "stream" metadata)) in
    let (c, d) = HasOnly-delete "n" [] (delete "stream" metadata) in
    let (f, g) = HasOnly-delete "stream" ("n" ∷ []) metadata in (λ e. f (c (a e)), λ h. b (d (g h)))

pub IsSingle-delete :
    (json : Json) (metadata : Metadata)
    → IsSingle json (delete "stream" metadata) ↔ IsSingle json metadata
IsSingle-delete json metadata =
    let same : lookup "n" (delete "stream" metadata) ≡ lookup "n" metadata =
      lookup-delete "stream" "n" metadata in
    (λ h raw found. h raw (same ∙ found), λ h raw found. h raw (sym same ∙ found))

-- A request is accepted exactly if it is portable and its reasoning settings have a counterpart; then
-- only these and the extra fields change.
pub openai_to_anthropic_request_iff :
    (json : Json) (request end : Request)
    → (openai_to_anthropic_request json request ≡ ok end) ↔ (
        IsForAnthropic json request
        × ((reasoning : Option ReasoningConfig) × (openai_reasoning_to_anthropic request.reasoning
              ≡ ok reasoning)
            × (record request { reasoning = reasoning; metadata = [] } ≡ end)))
unfolding openai_to_anthropic_request
openai_to_anthropic_request_iff json request end =
    let metadata = request.metadata in
    let (into, back) =
      value_iff _ _ (delete "stream" metadata) (consume_streaming_iff json metadata) (
        value_iff _ _ (delete "n" (delete "stream" metadata))
          (consume_n_iff json _ (delete "stream" metadata))
          (check_iff _ _ (reject_iff "provider extensions" (delete "n" (delete "stream" metadata)))
            (check_iff _ _ (refuse_iff (is_none request.max_output_tokens) _ _ _) (
              bind_iff (openai_reasoning_to_anthropic request.reasoning) _
                λ reasoning. check_iff _ _ (nested_iff request) (ok_iff _ end))))) in
    let single = IsSingle-delete json metadata in
    let only = consumed_iff metadata in
    (
      λ e.
          (let h = into e in
            (
              (h.0, single.0 h.1.0, only.0 h.1.1.0, h.1.1.1.0, h.1.1.1.1.2.0),
              (h.1.1.1.1.0, h.1.1.1.1.1, h.1.1.1.1.2.1),
            )),
      λ h. back (h.0.0, (single.1 h.0.1, (only.1 h.0.2, (h.0.3, (h.1.0, h.1.1, (h.0.4, h.1.2)))))),
    )
