-- ===== src/Llm/Tools.antt =====
-- The tools that Request.Validate of internal/domain/llm/validate.go accepts.
use kokekokkor.Common.{
  String, ℕ, suc, ◌≡◌, refl, ap, subst, Bool, true, false, ◌||◌, List, [], ◌∷◌, All, ok, ◌==◌,
  string_eq, eq_iff, if◌then◌else◌, Bool-cases, ◌⊎◌, inl, inr, arith,
}
use kokekokkor.Llm.{Tool, tool_kind_function, tool_kind_web_search}
use kokekokkor.Llm.Validate.{is_bad_json, seen_before, check_tools}
use kokekokkor.Llm.Valid.{IsNamed, IsJson}

-- A function has a name and a JSON schema; a web search has nothing but its kind.
abbrev pub IsFunction : (String → Bool) → Tool → Type 0
IsFunction json_valid t =
    ((t.kind ≡ "") ⊎ (t.kind ≡ tool_kind_function))
    × IsNamed t.name
    × IsJson json_valid t.input_schema

abbrev pub IsSearch : Tool → Type 0
IsSearch t =
    (t.kind ≡ tool_kind_web_search) × (t.name ≡ "") × (t.description ≡ "") × (t.input_schema ≡ "")

unfoldable pub function_names : List Tool → List String
function_names [] = []
function_names (t ∷ tools) =
    let rest = function_names tools in
    if t.kind == tool_kind_web_search then rest else t.name ∷ rest

-- No name is in `seen` or stands before itself.
abbrev pub AreNew : List String → List String → Type 0
AreNew seen [] = Unit
AreNew seen (name ∷ names) = (seen_before name seen ≡ false) × AreNew (name ∷ seen) names

module _ (json_valid : String → Bool) where
  pub tools_sound :
      (i : ℕ) (seen : List String) (tools : List Tool)
      → check_tools json_valid i seen tools ≡ ok tt
      → All (λ t. IsFunction json_valid t ⊎ IsSearch t) tools × AreNew seen (function_names tools)
  unfolding check_tools function_names is_bad_json
  tools_sound i seen [] e = (tt, tt)
  tools_sound i seen (t ∷ tools) e =
      elim (Bool-cases (t.kind == "" || t.kind == tool_kind_function)) [
        | inl function ↦
            let facts : IsNamed t.name
                × IsJson json_valid t.input_schema
                × (seen_before t.name seen ≡ false)
                × (check_tools json_valid (suc i) (t.name ∷ seen) tools ≡ ok tt) =
              ground (arith, e, function) in
            let (named, schema, new, rest) = facts in
            let (all, names) = tools_sound (suc i) (t.name ∷ seen) tools rest in
            let kind : (t.kind ≡ "") ⊎ (t.kind ≡ tool_kind_function) =
              ground (arith, function, eq_iff t.kind "", eq_iff t.kind tool_kind_function) in
            let other : (t.kind == tool_kind_web_search) ≡ false = elim kind [
              | inl k ↦ ap (λ x. x == tool_kind_web_search) k
              | inr k ↦ ap (λ x. x == tool_kind_web_search) k
            ] in
            ((inl (kind, named, schema), all), rw (function_names, other) (new, names))
        | inr other ↦ elim (Bool-cases (t.kind == tool_kind_web_search)) [
          | inr unknown ↦ ground (arith, e, other, unknown)
          | inl search ↦
              let facts : ((t.name == "") ≡ true)
                  × ((t.description == "") ≡ true)
                  × ((t.input_schema == "") ≡ true)
                  × (check_tools json_valid (suc i) seen tools ≡ ok tt) =
                ground (arith, e, other, search) in
              let (name, description, schema, rest) = facts in
              let (all, names) = tools_sound (suc i) seen tools rest in
              (
                (
                  inr (
                    (eq_iff t.kind tool_kind_web_search).0 search,
                    (eq_iff t.name "").0 name,
                    (eq_iff t.description "").0 description,
                    (eq_iff t.input_schema "").0 schema,
                  ),
                  all,
                ),
                rw (function_names, search) names,
              )
        ]
      ]

  function_first :
      (t : Tool)
      → IsFunction json_valid t
      → ((t.kind == "" || t.kind == tool_kind_function) ≡ true)
        × ((t.kind == tool_kind_web_search) ≡ false)
  function_first t (inl kind, named, schema) =
      (ap (λ k. k == "" || k == tool_kind_function) kind, ap (λ k. k == tool_kind_web_search) kind)
  function_first t (inr kind, named, schema) =
      (ap (λ k. k == "" || k == tool_kind_function) kind, ap (λ k. k == tool_kind_web_search) kind)

  pub tools_complete :
      (i : ℕ) (seen : List String) (tools : List Tool)
      → All (λ t. IsFunction json_valid t ⊎ IsSearch t) tools
      → AreNew seen (function_names tools)
      → check_tools json_valid i seen tools ≡ ok tt
  unfolding check_tools function_names is_bad_json
  tools_complete i seen [] all names = refl
  tools_complete i seen (t ∷ tools) (inl function, all) names =
      let (first, other) = function_first t function in
      let listed : function_names (t ∷ tools) ≡ t.name ∷ function_names tools =
        rw (function_names, other) in
      let new = subst (AreNew seen) listed names in
      let rest = tools_complete (suc i) (t.name ∷ seen) tools all new.1 in
      let (kind, named, schema) = function in ground (arith, first, named, schema, new.0, rest)
  tools_complete i seen (t ∷ tools) (inr plain, all) names =
      let (kind, name, description, schema) = plain in
      let first : (t.kind == "" || t.kind == tool_kind_function) ≡ false =
        ap (λ k. k == "" || k == tool_kind_function) kind in
      let second : (t.kind == tool_kind_web_search) ≡ true =
        ap (λ k. k == tool_kind_web_search) kind in
      let listed : function_names (t ∷ tools) ≡ function_names tools =
        rw (function_names, second) in
      let rest = tools_complete (suc i) seen tools all (subst (AreNew seen) listed names) in
      let no_name : (t.name == "") ≡ true = ap (λ n. n == "") name in
      let no_description : (t.description == "") ≡ true = ap (λ n. n == "") description in
      let no_schema : (t.input_schema == "") ≡ true = ap (λ n. n == "") schema in
      ground (arith, first, second, no_name, no_description, no_schema, rest)
