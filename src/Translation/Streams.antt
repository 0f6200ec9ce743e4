-- ===== src/Translation/Streams.antt =====
-- The streaming requests of internal/application/translation: stream_compatibility.go,
-- responses_stream.go, gemini_stream.go and anthropic_gemini_stream.go.
use kokekokkor.Common.{
  String, Bool, true, false, Option, none, some, [], ◌∷◌, ok, ◌>>=◌, ◌>>◌, ◌==◌, string_eq,
  if◌then◌else◌,
}
use kokekokkor.Common.Map.{Map, lookup, insert, delete}
use kokekokkor.Llm.{RawMessage, Metadata, Request}
use kokekokkor.Translation.{Json, Checked, passed, unsupported, refuse_if, text_arg, has_web_search}
use kokekokkor.Translation.Requests.{
  is_none, openai_to_anthropic_request, anthropic_to_openai_request, openai_to_gemini_request,
  anthropic_to_gemini_request, gemini_to_openai_request, gemini_to_anthropic_request,
}
use kokekokkor.Translation.Instructions.{
  responses_to_anthropic_request, responses_to_gemini_request,
}

pub record OpenAiStreamOptions : Type 0 where
  pub include_usage : Bool

pub record ResponsesStreamOptions : Type 0 where
  pub include_obfuscation : Bool
  pub buffer_refusals : Bool

abbrev pub streaming : Metadata
streaming = ("stream", "true") ∷ []

abbrev pub streaming_with_usage : Metadata
streaming_with_usage = ("stream", "true") ∷ ("stream_options", "{\"include_usage\":true}") ∷ []

-- The clone in which "stream" is turned off for the checks of a plain request.
abbrev pub unstreamed : Request → Metadata → Request
unstreamed request metadata = record request { metadata = insert "stream" "false" metadata }

-- `options` with the default, or what `read` makes of the object under "stream_options".
abbrev pub options_of :
    {A : Type 0}
    → Option (Option (Map String RawMessage))
    → A
    → (Map String RawMessage → A → Checked A)
    → Checked A
options_of none options read = unsupported "stream_options" "must be an object" []
options_of (some none) options read = ok options
options_of (some (some object)) options read = read object options

abbrev options_object :
    {A : Type 0} → Json → RawMessage → A → (Map String RawMessage → A → Checked A) → Checked A
options_object json raw options read = options_of (json.unmarshal_object raw) options read

module _ (json : Json) where
  unfoldable pub require_streaming : Metadata → Checked (Unit {0})
  require_streaming metadata = elim (lookup "stream" metadata) [
    | none ↦ unsupported "stream" "streaming translation requires stream: true" []
    | some raw ↦ elim (json.unmarshal_bool raw false) [
      | none ↦ unsupported "stream" "stream must be a boolean" []
      | some true ↦ passed
      | some false ↦ unsupported "stream" "streaming translation requires stream: true" []
    ]
  ]

  -- The loop over the fields of "stream_options".
  unfoldable pub read_openai_options :
      Map String RawMessage → OpenAiStreamOptions → Checked OpenAiStreamOptions
  read_openai_options [] options = ok options
  read_openai_options ((key, value) ∷ object) options =
      if key == "include_usage"
      then elim (json.unmarshal_bool value options.include_usage) [
        | none ↦ unsupported "stream_options.include_usage" "must be a boolean" []
        | some usage ↦ read_openai_options object (record options { include_usage = usage })
      ]
      else unsupported "stream_options" "unsupported field %q" (text_arg key ∷ [])

  unfoldable pub consume_openai_stream_options : Metadata → Checked (OpenAiStreamOptions × Metadata)
  unfolding read_openai_options
  consume_openai_stream_options metadata = elim (lookup "stream_options" metadata) [
    | none ↦ ok (record { include_usage = false }, metadata)
    | some raw ↦
        options_object json raw (record { include_usage = false }) read_openai_options
        >>= λ options. ok (options, delete "stream_options" metadata)
  ]

  unfoldable pub read_responses_options :
      Map String RawMessage → ResponsesStreamOptions → Checked ResponsesStreamOptions
  read_responses_options [] options = ok options
  read_responses_options ((key, value) ∷ object) options =
      if key == "include_obfuscation"
      then elim (json.unmarshal_bool value options.include_obfuscation) [
        | none ↦ unsupported "stream_options.include_obfuscation" "must be a boolean" []
        | some obfuscation ↦
            read_responses_options object (record options { include_obfuscation = obfuscation })
      ]
      else if key == "buffer_refusals"
      then elim (json.unmarshal_bool value options.buffer_refusals) [
        | none ↦ unsupported "stream_options.buffer_refusals" "must be a boolean" []
        | some refusals ↦
            read_responses_options object (record options { buffer_refusals = refusals })
      ]
      else unsupported "stream_options" "unsupported field %q" (text_arg key ∷ [])

  abbrev default_responses_options : ResponsesStreamOptions
  default_responses_options = record { include_obfuscation = true; buffer_refusals = false }

  unfoldable pub consume_responses_stream_options :
      Metadata → Checked (ResponsesStreamOptions × Metadata)
  unfolding read_responses_options
  consume_responses_stream_options metadata = elim (lookup "stream_options" metadata) [
    | none ↦ ok (default_responses_options, metadata)
    | some raw ↦
        options_object json raw default_responses_options read_responses_options >>= λ options.
        ok (options, delete "stream_options" metadata)
  ]

  unfoldable pub openai_to_anthropic_stream_request :
      Request → Checked (Request × OpenAiStreamOptions)
  unfolding require_streaming consume_openai_stream_options openai_to_anthropic_request
  openai_to_anthropic_stream_request request = do
    require_streaming request.metadata
    consumed ← consume_openai_stream_options request.metadata
    result ← openai_to_anthropic_request json (unstreamed request consumed.1)
    ok (record result { metadata = streaming }, consumed.0)

  unfoldable pub anthropic_to_openai_stream_request : Request → Checked Request
  unfolding require_streaming anthropic_to_openai_request
  anthropic_to_openai_stream_request request = do
    require_streaming request.metadata
    result ←
        anthropic_to_openai_request json
          (record request { metadata = delete "stream" request.metadata })
    ok (record result { metadata = streaming_with_usage })

  unfoldable pub responses_to_anthropic_stream_request :
      Request → Checked (Request × ResponsesStreamOptions)
  unfolding require_streaming consume_responses_stream_options responses_to_anthropic_request
  responses_to_anthropic_stream_request request = do
    require_streaming request.metadata
    consumed ← consume_responses_stream_options request.metadata
    result ← responses_to_anthropic_request json (unstreamed request consumed.1)
    ok (record result { metadata = streaming }, consumed.0)

  unfoldable pub openai_to_gemini_stream_request : Request → Checked (Request × OpenAiStreamOptions)
  unfolding require_streaming consume_openai_stream_options openai_to_gemini_request
  openai_to_gemini_stream_request request = do
    require_streaming request.metadata
    consumed ← consume_openai_stream_options request.metadata
    result ← openai_to_gemini_request json (unstreamed request consumed.1)
    ok (result, consumed.0)

  unfoldable pub responses_to_gemini_stream_request :
      Request → Checked (Request × ResponsesStreamOptions)
  unfolding require_streaming consume_responses_stream_options responses_to_gemini_request
  responses_to_gemini_stream_request request = do
    refuse_if (has_web_search request.tools) "web_search streaming"
        "Gemini grounding search calls and citations are not yet losslessly represented in translated Responses streams"
        []
    require_streaming request.metadata
    consumed ← consume_responses_stream_options request.metadata
    result ← responses_to_gemini_request json (unstreamed request consumed.1)
    ok (result, consumed.0)

  unfoldable pub anthropic_to_gemini_stream_request : Request → Checked Request
  unfolding require_streaming anthropic_to_gemini_request
  anthropic_to_gemini_stream_request request = do
    require_streaming request.metadata
    anthropic_to_gemini_request json (unstreamed request request.metadata)

unfoldable pub gemini_to_openai_stream_request : Request → Checked Request
unfolding gemini_to_openai_request
gemini_to_openai_stream_request request = do
  result ← gemini_to_openai_request request
  ok (record result { metadata = streaming_with_usage })

unfoldable pub gemini_to_anthropic_stream_request : Request → Checked Request
unfolding gemini_to_anthropic_request
gemini_to_anthropic_stream_request request = do
  result ← gemini_to_anthropic_request request
  refuse_if (is_none result.max_output_tokens) "max output tokens"
      "Anthropic Messages requires max_tokens for translated Gemini requests" []
  ok (record result { metadata = streaming })
