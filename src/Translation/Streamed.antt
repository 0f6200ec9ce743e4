-- ===== src/Translation/Streamed.antt =====
-- The streaming requests of internal/application/translation/stream_compatibility.go and gemini_stream.go
-- beside the plain ones.
use mathlib.Core.Option.{some-injective}
use kokekokkor.Common.{
  Bool, true, Option, ◌∷◌, ◌⊎◌, inl, inr, ap, subst, ◌>>=◌, ◌>>◌, Option-cases, Bool-cases, eq_iff,
  ◌==◌, String, false, none, some, [], ◌≡◌, refl, sym, ◌∙◌, ◌↔◌, ok, string_eq, ==-refl, arith,
}
use kokekokkor.Common.Map.{Map, lookup, insert, delete, lookup-insert, lookup-delete}
use kokekokkor.Llm.{RawMessage, Metadata, Request}
use kokekokkor.Translation.{Json, Checked, passed, consume_streaming}
use kokekokkor.Translation.Requests.{openai_to_anthropic_request, openai_to_gemini_request}
use kokekokkor.Translation.Streams.{
  OpenAiStreamOptions, streaming, unstreamed, require_streaming, consume_openai_stream_options,
  read_openai_options, options_of, openai_to_anthropic_stream_request,
  openai_to_gemini_stream_request,
}
use kokekokkor.Translation.Chains.{
  the_ok, bind_iff, check_iff, ok_iff, delete_absent, consume_streaming_iff,
}

-- A request without the two fields that are about streaming.
abbrev pub without_stream : Request → Request
without_stream request = record request {
  metadata = delete "stream" (delete "stream_options" request.metadata);
}

abbrev pub Translate : Type 0
Translate = Request → Checked Request

-- The field "stream" is there and reads as true.
abbrev pub AsksForStream : Json → Metadata → Type 0
AsksForStream json metadata =
    (raw : RawMessage) × (lookup "stream" metadata ≡ some raw)
    × (json.unmarshal_bool raw false ≡ some true)

-- Every field of the object is "include_usage" and reads as a Boolean, null leaving what was there; the
-- last one counts.
abbrev pub ReadsUsage : Json → Map String RawMessage → Bool → Bool → Type 0
ReadsUsage json [] start end = start ≡ end
ReadsUsage json ((key, raw) ∷ object) start end =
    (key ≡ "include_usage")
    × ((usage : Bool) × (json.unmarshal_bool raw start ≡ some usage)
        × ReadsUsage json object usage end)

-- What is under "stream_options" is null, for no usage, or an object.
abbrev pub AsksInObject : Json → Bool → RawMessage → Type 0
AsksInObject json usage raw =
    ((json.unmarshal_object raw ≡ some none) × (false ≡ usage))
    ⊎ (object : Map String RawMessage) × (json.unmarshal_object raw ≡ some (some object))
      × ReadsUsage json object false usage

-- The field "stream_options" is not there, for no usage, or says whether usage is asked for.
abbrev pub AsksForUsage : Json → Metadata → Bool → Type 0
AsksForUsage json metadata usage =
    ((lookup "stream_options" metadata ≡ none) × (false ≡ usage))
    ⊎ (raw : RawMessage) × (lookup "stream_options" metadata ≡ some raw)
      × AsksInObject json usage raw

-- What a streaming translation accepts by the plain one: a request that asks for a stream and whose
-- stream options can be read, if the plain translation accepts it without the two fields.
abbrev pub IsStreamed :
    Json → Translate → (Request → Request) → Request → Request × OpenAiStreamOptions → Type 0
IsStreamed json translate finish request end =
    AsksForStream json request.metadata
    × ((usage : Bool) × AsksForUsage json request.metadata usage
        × ((plain : Request) × (translate (without_stream request) ≡ ok plain)
            × ((finish plain, record { include_usage = usage }) ≡ end)))

same_raw :
    {raw other : RawMessage} (o : Option RawMessage) → o ≡ some raw → o ≡ some other → other ≡ raw
same_raw o first second = some-injective _ _ (sym second ∙ first)

require_streaming_iff :
    (json : Json) (metadata : Metadata)
    → (require_streaming json metadata ≡ passed) ↔ AsksForStream json metadata
unfolding require_streaming
require_streaming_iff json metadata = elim (Option-cases (lookup "stream" metadata)) [
  | inl absent ↦ (λ e. ground (arith, absent, e), λ h. ground (arith, absent, h.1))
  | inr (raw, found) ↦
      let reads : AsksForStream json metadata → json.unmarshal_bool raw false ≡ some true = λ h.
        subst (λ r. json.unmarshal_bool r false ≡ some true)
          (same_raw (lookup "stream" metadata) found h.1) h.2 in
      elim (Option-cases (json.unmarshal_bool raw false)) [
        | inl bad ↦ (
          λ e. ground (arith, found, bad, e),
          λ h. (let on = reads h in ground (arith, found, bad, on)),
        )
        | inr (on, read) ↦ elim (Bool-cases on) [
          | inl asked ↦
              (λ e. (raw, found, read ∙ ap some asked), λ h. ground (arith, found, read, asked))
          | inr other ↦ (
            λ e. ground (arith, found, read, other, e),
            λ h. (let wrong = reads h in ground (arith, found, read, other, wrong)),
          )
        ]
      ]
]

read_openai_options_iff :
    (json : Json) (object : Map String RawMessage) (start end : OpenAiStreamOptions)
    → (read_openai_options json object start ≡ ok end)
      ↔ ReadsUsage json object start.include_usage end.include_usage
unfolding read_openai_options
read_openai_options_iff json [] start end = (
  λ e. ap (λ o. o.include_usage) ((ok_iff start end).0 e),
  λ same. ap (λ usage. ok (record { include_usage = usage })) same,
)
read_openai_options_iff json ((key, raw) ∷ object) start end =
    elim (Bool-cases (key == "include_usage")) [
      | inr other ↦ (
        λ e. ground (arith, other, e),
        λ h. (let named = h.0 in ground (arith, other, named, eq_iff key "include_usage")),
      )
      | inl named ↦ elim (Option-cases (json.unmarshal_bool raw start.include_usage)) [
        | inl bad ↦ (λ e. ground (arith, named, bad, e), λ h. ground (arith, bad, h.1.1))
        | inr (usage, read) ↦
            let next : OpenAiStreamOptions = record { include_usage = usage } in
            let (into, back) = read_openai_options_iff json object next end in
            let same : read_openai_options json ((key, raw) ∷ object) start
                ≡ read_openai_options json object next =
              rw (read_openai_options, named, read) refl in
            (
              λ e. ((eq_iff key "include_usage").0 named, (usage, read, into (sym same ∙ e))),
              λ h.
                  same
                  ∙ back (
                      subst (λ u. ReadsUsage json object u end.include_usage)
                        (some-injective _ _ (sym h.1.1 ∙ read)) h.1.2),
            )
      ]
    ]

abbrev pair_of : Bool → Metadata → OpenAiStreamOptions × Metadata
pair_of usage metadata = (record { include_usage = usage }, metadata)

made :
    (consumed : OpenAiStreamOptions × Metadata) {usage : Bool} {metadata : Metadata}
    → usage ≡ consumed.0.include_usage
    → metadata ≡ consumed.1
    → the_ok (pair_of usage metadata) ≡ ok consumed
made consumed same rest = λ i. ok (pair_of (same i) (rest i))

-- What is asked for in a field that is there.
asked_in :
    (json : Json) (metadata : Metadata) (usage : Bool) (raw : RawMessage)
    → lookup "stream_options" metadata ≡ some raw
    → AsksForUsage json metadata usage
    → AsksInObject json usage raw
asked_in json metadata usage raw found asks = elim asks [
  | inl (absent, _) ↦ ground (arith, found, absent)
  | inr (other, there, inside) ↦
      subst (AsksInObject json usage) (same_raw (lookup "stream_options" metadata) found there)
        inside
]

object_iff :
    (json : Json) (metadata : Metadata) (raw : RawMessage) (object : Map String RawMessage)
    (consumed : OpenAiStreamOptions × Metadata)
    → json.unmarshal_object raw ≡ some (some object)
    → ((read_openai_options json object (record { include_usage = false }) >>= λ options.
          the_ok (options, delete "stream_options" metadata))
        ≡ ok consumed)
      ↔ (AsksInObject json (consumed.0).include_usage raw
          × (delete "stream_options" metadata ≡ consumed.1))
object_iff json metadata raw object consumed read =
    let start : OpenAiStreamOptions = record { include_usage = false } in
    let (into, back) =
      bind_iff (read_openai_options json object start) _
        λ options. ok_iff (options, delete "stream_options" metadata) consumed in
    (
      λ e.
          (let (options, reads, same) = into e in
            let usage = (read_openai_options_iff json object start options).0 reads in
            (
              inr (
                object,
                read,
                subst (λ c. ReadsUsage json object false (c.0).include_usage) same usage,
              ),
              ap (λ c. c.1) same,
            )),
      λ h. elim (h.0) [
        | inl (null, _) ↦ ground (arith, null, read)
        | inr (other, there, reads) ↦
            let same = some-injective _ _ (some-injective _ _ (sym there ∙ read)) in
            let usage =
              subst (λ o. ReadsUsage json o false (consumed.0).include_usage) same reads in
            back (
              consumed.0,
              (read_openai_options_iff json object start (consumed.0)).1 usage,
              λ i. (consumed.0, h.1 i),
            )
      ],
    )

consume_openai_stream_options_iff :
    (json : Json) (metadata : Metadata) (consumed : OpenAiStreamOptions × Metadata)
    → (consume_openai_stream_options json metadata ≡ ok consumed) ↔ (
        AsksForUsage json metadata (consumed.0).include_usage
        × (delete "stream_options" metadata ≡ consumed.1))
unfolding consume_openai_stream_options
consume_openai_stream_options_iff json metadata consumed =
    let usage = (consumed.0).include_usage in
    elim (Option-cases (lookup "stream_options" metadata)) [
      | inl absent ↦
          let here = delete_absent "stream_options" metadata absent in
          let computed : consume_openai_stream_options json metadata
              ≡ the_ok (pair_of false metadata) =
            rw (absent, consume_openai_stream_options) refl in
          (
            λ e.
                (let same = (ok_iff (pair_of false metadata) consumed).0 (sym computed ∙ e) in
                  (inl (absent, ap (λ c. (c.0).include_usage) same), here ∙ ap (λ c. c.1) same)),
            λ h. elim (h.0) [
              | inl (_, same) ↦ computed ∙ made consumed same (sym here ∙ h.1)
              | inr (raw, found, _) ↦ ground (arith, absent, found)
            ],
          )
      | inr (raw, found) ↦
          let asked = asked_in json metadata usage raw found in
          let goes : Option (Option (Map String RawMessage))
              → Checked (OpenAiStreamOptions × Metadata) =
            λ object.
              options_of object (record { include_usage = false }) (read_openai_options json)
              >>= λ options. the_ok (options, delete "stream_options" metadata) in
          elim (Option-cases (json.unmarshal_object raw)) [
            | inl bad ↦ (
              λ e. ground (arith, found, bad, e),
              λ h. elim (asked (h.0)) [
                | inl (null, _) ↦ ground (arith, bad, null)
                | inr (object, there, _) ↦ ground (arith, bad, there)
              ],
            )
            | inr (value, read) ↦ elim (Option-cases value) [
              | inl null ↦
                  let as_null : json.unmarshal_object raw ≡ some none = read ∙ ap some null in
                  let computed : consume_openai_stream_options json metadata
                      ≡ the_ok (pair_of false (delete "stream_options" metadata)) =
                    rw (found, consume_openai_stream_options) (ap goes as_null) in
                  (
                    λ e.
                        (let same = (ok_iff _ consumed).0 (sym computed ∙ e) in
                          (
                            inr (raw, found, inl (as_null, ap (λ c. (c.0).include_usage) same)),
                            ap (λ c. c.1) same,
                          )),
                    λ h. elim (asked (h.0)) [
                      | inl (_, same) ↦ computed ∙ made consumed same h.1
                      | inr (object, there, _) ↦ ground (arith, as_null, there)
                    ],
                  )
              | inr (object, given) ↦
                  let as_object : json.unmarshal_object raw ≡ some (some object) =
                    read ∙ ap some given in
                  let (into, back) = object_iff json metadata raw object consumed as_object in
                  let computed : consume_openai_stream_options json metadata ≡ (
                      read_openai_options json object (record { include_usage = false })
                      >>= λ options. the_ok (options, delete "stream_options" metadata)) =
                    rw (found, consume_openai_stream_options) (ap goes as_object) in
                  (
                    λ e. (let h = into (sym computed ∙ e) in (inr (raw, found, h.0), h.1)),
                    λ h. computed ∙ back (asked (h.0), h.1),
                  )
            ]
          ]
    ]

abbrev pub ask_for_stream : Request → Request
ask_for_stream plain = record plain { metadata = streaming }

delete-insert :
    (name raw : String) (metadata : Metadata)
    → delete name (insert name raw metadata) ≡ delete name metadata
unfolding delete insert
delete-insert name raw [] = ground (arith, ==-refl name)
delete-insert name raw ((key, old) ∷ fields) =
    ground (arith, ==-refl name, delete-insert name raw fields)

module _ (json : Json) (reads : json.unmarshal_bool "false" false ≡ some false) where
  -- Turning "stream" off is for the plain checks as if the field were not there.
  turned_off :
      (metadata : Metadata)
      → consume_streaming json (insert "stream" "false" metadata)
        ≡ consume_streaming json (delete "stream" metadata)
  turned_off metadata =
      let without = delete "stream" metadata in
      let found : lookup "stream" (insert "stream" "false" metadata) ≡ some "false" =
        lookup-insert "stream" "stream" "false" metadata in
      let absent : lookup "stream" without ≡ none = lookup-delete "stream" "stream" metadata in
      let here = (consume_streaming_iff json (insert "stream" "false" metadata) without).1 (
        λ raw again. ground (arith, found, again, reads),
        delete-insert "stream" "false" metadata,
      ) in
      let there =
        (consume_streaming_iff json without without).1
          (λ raw again. ground (arith, absent, again), delete_absent "stream" without absent) in
      here ∙ sym there

  anthropic_unstreamed :
      (request : Request) (metadata : Metadata)
      → openai_to_anthropic_request json (unstreamed request metadata)
        ≡ openai_to_anthropic_request json (record request { metadata = delete "stream" metadata })
  unfolding openai_to_anthropic_request
  anthropic_unstreamed request metadata = rw (openai_to_anthropic_request, turned_off metadata) refl

  gemini_unstreamed :
      (request : Request) (metadata : Metadata)
      → openai_to_gemini_request json (unstreamed request metadata)
        ≡ openai_to_gemini_request json (record request { metadata = delete "stream" metadata })
  unfolding openai_to_gemini_request
  gemini_unstreamed request metadata = rw (openai_to_gemini_request, turned_off metadata) refl

  -- A chain that consumes the options and goes on with the plain translation.
  consumed_iff :
      (translate : Translate) (finish : Request → Request) (request : Request)
      (end : Request × OpenAiStreamOptions)
      → ((metadata : Metadata)
          → translate (unstreamed request metadata)
            ≡ translate (record request { metadata = delete "stream" metadata }))
      → ((require_streaming json request.metadata
            >> (consume_openai_stream_options json request.metadata >>= λ consumed.
                translate (unstreamed request consumed.1) >>= λ plain.
                the_ok (finish plain, consumed.0)))
          ≡ ok end)
        ↔ IsStreamed json translate finish request end
  consumed_iff translate finish request end off =
      let metadata = request.metadata in
      let Goes : OpenAiStreamOptions × Metadata → Type 0 = λ consumed.
        (plain : Request) × (translate (record request { metadata = delete "stream" consumed.1 })
          ≡ ok plain)
        × ((finish plain, consumed.0) ≡ end) in
      let (into, back) =
        check_iff (require_streaming json metadata) _ (require_streaming_iff json metadata) (
          bind_iff {Q = Goes} (consume_openai_stream_options json metadata) _ λ consumed.
            rw (off consumed.1) (
              bind_iff (translate (record request { metadata = delete "stream" consumed.1 })) _
                λ plain. ok_iff (finish plain, consumed.0) end)) in
      (
        λ e.
            (let (asks, (consumed, taken, (plain, translated, same))) = into e in
              let (usage, rest) =
                (consume_openai_stream_options_iff json metadata consumed).0 taken in
              (
                asks,
                (
                  (consumed.0).include_usage,
                  usage,
                  (
                    plain,
                    subst
                        (λ m.
                          translate (record request { metadata = delete "stream" m }) ≡ ok plain)
                        (sym rest) translated,
                    same,
                  ),
                ),
              )),
        λ h.
            (let (asks, (usage, reads, (plain, translated, same))) = h in
              let consumed = pair_of usage (delete "stream_options" metadata) in
              back (
                asks,
                (
                  consumed,
                  (consume_openai_stream_options_iff json metadata consumed).1 (reads, refl),
                  (plain, translated, same),
                ),
              )),
      )

  -- A streaming request of Chat Completions is accepted exactly if its field "stream" reads as true, its
  -- options can be read (none, null, or an object of "include_usage" alone) and the plain translation,
  -- to Anthropic or to Gemini, accepts it without these two fields; the result is the plain one, for
  -- Anthropic with the field "stream" as true, and the usage that the options ask for.
  pub stream_requests_agree :
      (request : Request) (end : Request × OpenAiStreamOptions)
      → ((openai_to_anthropic_stream_request json request ≡ ok end)
          ↔ IsStreamed json (openai_to_anthropic_request json) ask_for_stream request end)
        × ((openai_to_gemini_stream_request json request ≡ ok end)
            ↔ IsStreamed json (openai_to_gemini_request json) (λ plain. plain) request end)
  unfolding openai_to_anthropic_stream_request openai_to_gemini_stream_request
  stream_requests_agree request end = (
    consumed_iff (openai_to_anthropic_request json) ask_for_stream request end
        (anthropic_unstreamed request),
    consumed_iff (openai_to_gemini_request json) (λ plain. plain) request end
        (gemini_unstreamed request),
  )
