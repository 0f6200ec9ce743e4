-- ===== src/Llm/Valid.antt =====
-- The content that internal/domain/llm/validate.go accepts, described without the code's loops.
use Prim.Native.String.{count}
use kokekokkor.Common.{
  String, ℕ, ◌≤◌, ◌≡◌, refl, ap, Bool, true, false, List, [], ◌∷◌, All, ok, ltb, ltb-false, ◌==◌,
  string_eq, eq_iff, Bool-cases, Result-cases, ◌↔◌, ◌⊎◌, inl, inr, arith,
}
use kokekokkor.Llm.{
  ℤ, pos, negsuc, UrlCitation, MediaSource, media_source_url, media_source_base64,
  media_source_file, ContentBlock, text_block, web_search_call_block, audio_block, image_block,
  document_block, tool_call_block, tool_result_block, reasoning_block, nil_block, Blocks, no_blocks,
  more_blocks,
}
use kokekokkor.Llm.Validate.{
  is_negative, is_below, is_bad_citation, check_citations, check_queries, validate_media_source,
  is_bad_json, validate_content, validate_blocks,
}

abbrev pub IsNamed : String → Type 0
IsNamed s = (s == "") ≡ false

-- A citation is a range of the text's code points, with a URL.
abbrev pub IsCitation : ℕ → UrlCitation → Type 0
IsCitation runes c =
    (first last : ℕ) × (c.start_index ≡ pos first)
    × (c.end_index ≡ pos last)
    × (first ≤ last)
    × (last ≤ runes)
    × IsNamed c.url

-- A source of one of three kinds, with what that kind needs.
abbrev pub IsSource : MediaSource → Type 0
IsSource s =
    ((s.kind ≡ media_source_url) × IsNamed s.url)
    ⊎ ((s.kind ≡ media_source_base64) × IsNamed s.media_type × IsNamed s.content)
    ⊎ ((s.kind ≡ media_source_file) × IsNamed s.file_id)

abbrev pub IsJson : (String → Bool) → String → Type 0
IsJson json_valid raw = IsNamed raw × (json_valid raw ≡ true)

pub ℤ-cases : (z : ℤ) → ((n : ℕ) × (z ≡ pos n)) ⊎ ((n : ℕ) × (z ≡ negsuc n))
ℤ-cases (pos n) = inl (n, refl)
ℤ-cases (negsuc n) = inr (n, refl)

is_bad_citation-IsCitation :
    (runes : ℕ) (c : UrlCitation) → is_bad_citation runes c ≡ false → IsCitation runes c
unfolding is_bad_citation is_negative is_below
is_bad_citation-IsCitation runes c e = elim (ℤ-cases c.start_index) [
  | inr (n, first) ↦ ground (arith, e, first)
  | inl (n, first) ↦ elim (ℤ-cases c.end_index) [
    | inr (k, last) ↦ ground (arith, e, first, last)
    | inl (k, last) ↦
        let facts : (ltb k n ≡ false) × (ltb runes k ≡ false) × IsNamed c.url =
          ground (arith, e, first, last) in
        (n, k, first, last, ltb-false k n facts.0, ltb-false runes k facts.1, facts.2)
  ]
]

IsCitation-is_bad_citation :
    (runes : ℕ) (c : UrlCitation) → IsCitation runes c → is_bad_citation runes c ≡ false
unfolding is_bad_citation is_negative is_below
IsCitation-is_bad_citation runes c (n, k, first, last, low, high, url) =
    ground (arith, first, last, low, high, url)

citations_iff :
    (runes : ℕ) (cs : List UrlCitation)
    → (check_citations runes cs ≡ ok tt) ↔ All (IsCitation runes) cs
unfolding check_citations
citations_iff runes [] = (λ e. tt, λ h. refl)
citations_iff runes (c ∷ cs) =
    let (into, back) = citations_iff runes cs in
    (
      λ e. elim (Bool-cases (is_bad_citation runes c)) [
        | inl bad ↦ ground (arith, e, bad)
        | inr good ↦ (is_bad_citation-IsCitation runes c good, into (ground (arith, e, good)))
      ],
      λ h.
          (let good = IsCitation-is_bad_citation runes c h.0 in
            let rest = back h.1 in rw (good, check_citations) rest),
    )

queries_iff : (qs : List String) → (check_queries qs ≡ ok tt) ↔ All IsNamed qs
unfolding check_queries
queries_iff [] = (λ e. tt, λ h. refl)
queries_iff (q ∷ qs) =
    let (into, back) = queries_iff qs in
    (
      λ e. elim (Bool-cases (q == "")) [
        | inl blank ↦ ground (arith, e, blank)
        | inr named ↦ (named, into (ground (arith, e, named)))
      ],
      λ h. (let rest = back h.1 in rw (h.0, check_queries) rest),
    )

validate_media_source-IsSource : (s : MediaSource) → (validate_media_source s ≡ ok tt) ↔ IsSource s
unfolding validate_media_source
validate_media_source-IsSource s = (
  λ e. ground (
    arith,
    e,
    eq_iff s.kind media_source_url,
    eq_iff s.kind media_source_base64,
    eq_iff s.kind media_source_file,
  ),
  λ h. elim h [
    | inl (kind, url) ↦
        let here : (s.kind == media_source_url) ≡ true = ap (λ k. k == media_source_url) kind in
        rw (validate_media_source, here, url)
    | inr (inl (kind, media, content)) ↦
        let past : (s.kind == media_source_url) ≡ false = ap (λ k. k == media_source_url) kind in
        let here : (s.kind == media_source_base64) ≡ true =
          ap (λ k. k == media_source_base64) kind in
        rw (validate_media_source, past, here, media, content)
    | inr (inr (kind, file)) ↦
        let past : (s.kind == media_source_url) ≡ false = ap (λ k. k == media_source_url) kind in
        let passed : (s.kind == media_source_base64) ≡ false =
          ap (λ k. k == media_source_base64) kind in
        let here : (s.kind == media_source_file) ≡ true = ap (λ k. k == media_source_file) kind in
        rw (validate_media_source, past, passed, here, file)
  ],
)

unfoldable mutual
  pub IsContent : (String → Bool) → ContentBlock → Type 0
  IsContent json_valid (text_block text citations) = All (IsCitation (count text)) citations
  IsContent json_valid (web_search_call_block queries) = All IsNamed queries
  IsContent json_valid (audio_block media_type) = ⊥
  IsContent json_valid (image_block source alt_text) = IsSource source
  IsContent json_valid (document_block source name context) = IsSource source
  IsContent json_valid (tool_call_block id name arguments) =
      IsNamed id × IsNamed name × IsJson json_valid arguments
  IsContent json_valid (tool_result_block id name content is_error) =
      IsNamed id × AreContents json_valid content
  IsContent json_valid (reasoning_block text signature redacted metadata) = Unit
  IsContent json_valid nil_block = ⊥

  pub AreContents : (String → Bool) → Blocks → Type 0
  AreContents json_valid no_blocks = Unit
  AreContents json_valid (more_blocks block blocks) =
      IsContent json_valid block × AreContents json_valid blocks

mutual
  unfolding validate_content IsContent is_bad_json

  pub validate_content_iff :
      (json_valid : String → Bool) (block : ContentBlock)
      → (validate_content json_valid block ≡ ok tt) ↔ IsContent json_valid block
  validate_content_iff v (text_block text citations) = citations_iff (count text) citations
  validate_content_iff v (web_search_call_block queries) = queries_iff queries
  validate_content_iff v (audio_block media_type) = (λ e. cc, λ h. absurd h)
  validate_content_iff v (image_block source alt_text) = validate_media_source-IsSource source
  validate_content_iff v (document_block source name context) =
      validate_media_source-IsSource source
  validate_content_iff v (tool_call_block id name arguments) =
      (λ e. ground (arith, e), λ h. ground (arith, h))
  validate_content_iff v (tool_result_block id name content is_error) =
      let (into, back) = validate_blocks_iff v content in
      (
        λ e. elim (Bool-cases (id == "")) [
          | inl blank ↦ ground (arith, e, blank)
          | inr named ↦ (named, into (ground (arith, e, named)))
        ],
        λ h. (let rest = back h.1 in rw (h.0) rest),
      )
  validate_content_iff v (reasoning_block text signature redacted metadata) = (λ e. tt, λ h. refl)
  validate_content_iff v nil_block = (λ e. cc, λ h. absurd h)

  pub validate_blocks_iff :
      (json_valid : String → Bool) (blocks : Blocks)
      → (validate_blocks json_valid blocks ≡ ok tt) ↔ AreContents json_valid blocks
  validate_blocks_iff v no_blocks = (λ e. tt, λ h. refl)
  validate_blocks_iff v (more_blocks block blocks) =
      let (into, back) = validate_content_iff v block in
      let (all_into, all_back) = validate_blocks_iff v blocks in
      (
        λ e. elim (Result-cases (validate_content v block)) [
          | inr (x, bad) ↦ ground (arith, e, bad)
          | inl (_, good) ↦ (into good, all_into (ground (arith, e, good)))
        ],
        λ h. (let good = back h.0 in let rest = all_back h.1 in ground (arith, good, rest)),
      )
