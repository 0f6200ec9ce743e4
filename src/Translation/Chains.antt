-- ===== src/Translation/Chains.antt =====
-- When the chains of checks in internal/application/translation end well, and what they leave of a map.
use kokekokkor.Common.{
  String, ℕ, suc, Bool, true, false, ◌||◌, none, some, List, [], ◌∷◌, ◌≡◌, refl, sym, ap, subst,
  ◌↔◌, ◌⊎◌, ◌≢◌, inl, inr, All, ok, err, ◌>>=◌, ◌>>◌, Bool-cases, Option-cases, ◌==◌, string_eq,
  eq_iff, if◌then◌else◌, arith,
}
use kokekokkor.Common.Map.{lookup, delete}
use kokekokkor.Llm.{pos, RawMessage, Metadata, Message, Tool, Request}
use kokekokkor.Translation.{
  Json, Arg, CompatibilityError, Checked, passed, refuse_if, reject_fields, consume_streaming,
  consume_n, is_one, check_message_metadata, check_tool_metadata, reject_nested_metadata,
}

abbrev pub the_ok : {A : Type 0} → A → Checked A
the_ok = ok

ok_inj : {A : Type 0} {x y : A} → the_ok x ≡ the_ok y → x ≡ y
ok_inj e = cc

pub itself : {P : Type 0} → P ↔ P
itself = (λ p. p, λ p. p)

-- What a step of a chain means for its end: a step with one possible value, a step with a value that is
-- not known, and one that only checks.
pub value_iff :
    {A B P Q : Type 0} (first : Checked A) (next : A → Checked B) {end : B} (middle : A)
    → ((value : A) → (first ≡ ok value) ↔ (P × (middle ≡ value)))
    → (next middle ≡ ok end) ↔ Q
    → ((first >>= next) ≡ ok end) ↔ (P × Q)
value_iff (ok value) next {end} middle yields (on, home) =
    let (into, back) = yields value in
    (
      λ e. (let (p, same) = into refl in (p, on (subst (λ v. next v ≡ ok end) (sym same) e))),
      λ h.
          (let found = (yields middle).1 (h.0, refl) in
            subst (λ v. next v ≡ ok end) (sym (ok_inj found)) (home h.1)),
    )
value_iff (err fault) next middle yields (on, home) =
    (λ e. cc, λ h. (let found = (yields middle).1 (h.0, refl) in cc))

pub bind_iff :
    {A B : Type 0} {Q : A → Type 0} (first : Checked A) (next : A → Checked B) {end : B}
    → ((value : A) → (next value ≡ ok end) ↔ Q value)
    → ((first >>= next) ≡ ok end) ↔ ((value : A) × (first ≡ ok value) × Q value)
bind_iff {Q} (ok value) next ends =
    (λ e. (value, refl, (ends value).0 e), λ h. (ends value).1 (subst Q (sym (ok_inj h.1)) h.2))
bind_iff (err fault) next ends = (λ e. cc, λ h. cc)

pub check_iff :
    {A P Q : Type 0} (check : Checked (Unit {0})) (next : Checked A) {end : A}
    → (check ≡ passed) ↔ P
    → (next ≡ ok end) ↔ Q
    → ((check >> next) ≡ ok end) ↔ (P × Q)
check_iff (ok tt) next (into, back) (on, home) = (λ e. (into refl, on e), λ h. home h.1)
check_iff (err fault) next (into, back) ends = (λ e. cc, λ h. (let found = back h.0 in cc))

pub ok_iff : {A : Type 0} (value end : A) → (the_ok value ≡ ok end) ↔ (value ≡ end)
ok_iff value end = (ok_inj, λ e. ap ok e)

pub refuse_iff :
    (bad : Bool) (feature reason : String) (arguments : List Arg)
    → (refuse_if bad feature reason arguments ≡ passed) ↔ (bad ≡ false)
refuse_iff true feature reason arguments = (λ e. cc, λ h. cc)
refuse_iff false feature reason arguments = (λ e. refl, λ h. refl)

-- A guard before the rest, and two branches.
pub unless_iff :
    {A P Q : Type 0} (bad : Bool) (fault : CompatibilityError) (next : Checked A) {end : A}
    → (bad ≡ false) ↔ P
    → (next ≡ ok end) ↔ Q
    → ((if bad then err fault else next) ≡ ok end) ↔ (P × Q)
unless_iff true fault next (into, back) ends = (λ e. cc, λ h. (let bad = back h.0 in cc))
unless_iff false fault next (into, back) (on, home) = (λ e. (into refl, on e), λ h. home h.1)

pub branch_iff :
    {A P Q R S : Type 0} (test : Bool) (first second : Checked A) {end : A}
    → (test ≡ true) ↔ P
    → (first ≡ ok end) ↔ Q
    → (test ≡ false) ↔ R
    → (second ≡ ok end) ↔ S
    → ((if test then first else second) ≡ ok end) ↔ ((P × Q) ⊎ (R × S))
branch_iff true first second yes_iff first_iff no_iff second_iff = (
  λ e. inl (yes_iff.0 refl, first_iff.0 e),
  λ h. elim h [ inl (p, q) ↦ first_iff.1 q | inr (r, s) ↦ (let wrong = no_iff.1 r in cc) ],
)
branch_iff false first second yes_iff first_iff no_iff second_iff = (
  λ e. inr (no_iff.0 refl, second_iff.0 e),
  λ h. elim h [ inl (p, q) ↦ (let wrong = yes_iff.1 p in cc) | inr (r, s) ↦ second_iff.1 s ],
)

pub differs_iff : (s t : String) → ((s == t) ≡ false) ↔ (s ≢ t)
differs_iff s t = ground (arith, eq_iff s t)

pub reject_iff :
    (feature : String) (metadata : Metadata)
    → (reject_fields feature metadata ≡ passed) ↔ (metadata ≡ [])
unfolding reject_fields
reject_iff feature [] = (λ e. refl, λ h. refl)
reject_iff feature (field ∷ fields) = (λ e. cc, λ h. cc)

abbrev pub is_in : String → List String → Bool
is_in key [] = false
is_in key (name ∷ names) = key == name || is_in key names

-- Every field has one of the names.
abbrev pub HasOnly : List String → Metadata → Type 0
HasOnly names metadata = All (λ field. is_in field.0 names ≡ true) metadata

pub HasOnly-none : (metadata : Metadata) → (metadata ≡ []) ↔ HasOnly [] metadata
HasOnly-none [] = (λ e. tt, λ h. refl)
HasOnly-none (field ∷ fields) = (λ e. cc, λ h. cc)

pub HasOnly-delete :
    (name : String) (names : List String) (metadata : Metadata)
    → HasOnly names (delete name metadata) ↔ HasOnly (name ∷ names) metadata
unfolding delete
HasOnly-delete name names [] = (λ h. tt, λ h. tt)
HasOnly-delete name names ((key, raw) ∷ fields) =
    let (into, back) = HasOnly-delete name names fields in
    elim (Bool-cases (key == name)) [
      | inl same ↦ rw (same) (λ h. (refl, into h), λ h. back h.1)
      | inr other ↦ rw (other) (λ h. (h.0, into h.1), λ h. (h.0, back h.1))
    ]

pub delete_absent :
    (name : String) (metadata : Metadata)
    → lookup name metadata ≡ none
    → delete name metadata ≡ metadata
unfolding lookup delete
delete_absent name [] absent = refl
delete_absent name ((key, raw) ∷ fields) absent = ground (arith, delete_absent name fields)

-- A field of this name, where there is one, reads as false.
abbrev pub IsOff : Json → String → Metadata → Type 0
IsOff json name metadata =
    (raw : RawMessage)
    → lookup name metadata ≡ some raw
    → json.unmarshal_bool raw false ≡ some false

abbrev pub IsSingle : Json → Metadata → Type 0
IsSingle json metadata =
    (raw : RawMessage)
    → lookup "n" metadata ≡ some raw
    → is_one (json.unmarshal_int raw (pos 0)) ≡ true

pub consume_streaming_iff :
    (json : Json) (metadata left : Metadata)
    → (consume_streaming json metadata ≡ ok left)
      ↔ (IsOff json "stream" metadata × (delete "stream" metadata ≡ left))
unfolding consume_streaming
consume_streaming_iff json metadata left = elim (Option-cases (lookup "stream" metadata)) [
  | inl absent ↦
      let same = delete_absent "stream" metadata absent in
      let computed : consume_streaming json metadata ≡ ok metadata =
        rw (absent, consume_streaming) refl in
      (
        λ e. (λ raw found. ground (arith, absent, found), ground (arith, e, same, computed)),
        λ h. ground (arith, h.1, same, computed),
      )
  | inr (raw, found) ↦ elim (Option-cases (json.unmarshal_bool raw false)) [
    | inl bad ↦ (
      λ e. ground (arith, e, found, bad),
      λ h. (let off = h.0 raw found in ground (arith, off, bad)),
    )
    | inr (true, on) ↦ (
      λ e. ground (arith, e, found, on),
      λ h. (let off = h.0 raw found in ground (arith, off, on)),
    )
    | inr (false, off) ↦
        let computed : consume_streaming json metadata ≡ ok (delete "stream" metadata) =
          rw (found, consume_streaming, off) refl in
        (
          λ e. (λ other again. ground (arith, found, again, off), ground (arith, e, computed)),
          λ h. ground (arith, h.1, computed),
        )
  ]
]

pub consume_n_iff :
    (json : Json) (reason : String) (metadata left : Metadata)
    → (consume_n json reason metadata ≡ ok left)
      ↔ (IsSingle json metadata × (delete "n" metadata ≡ left))
unfolding consume_n
consume_n_iff json reason metadata left = elim (Option-cases (lookup "n" metadata)) [
  | inl absent ↦
      let same = delete_absent "n" metadata absent in
      let computed : consume_n json reason metadata ≡ ok metadata = rw (absent, consume_n) refl in
      (
        λ e. (λ raw found. ground (arith, absent, found), ground (arith, e, same, computed)),
        λ h. ground (arith, h.1, same, computed),
      )
  | inr (raw, found) ↦ elim (Bool-cases (is_one (json.unmarshal_int raw (pos 0)))) [
    | inr several ↦ (
      λ e. ground (arith, e, found, several),
      λ h. (let single = h.0 raw found in ground (arith, single, several)),
    )
    | inl single ↦
        let computed : consume_n json reason metadata ≡ ok (delete "n" metadata) =
          rw (found, consume_n, single) refl in
        (
          λ e. (λ other again. ground (arith, found, again, single), ground (arith, e, computed)),
          λ h. ground (arith, h.1, computed),
        )
  ]
]

-- No message, and no tool, has provider-specific fields.
abbrev pub IsPlain : Request → Type 0
IsPlain request =
    All (λ message. message.metadata ≡ []) request.messages
    × All (λ tool. tool.metadata ≡ []) request.tools

message_metadata_iff :
    (i : ℕ) (messages : List Message)
    → (check_message_metadata i messages ≡ passed) ↔ All (λ m. m.metadata ≡ []) messages
unfolding check_message_metadata
message_metadata_iff i [] = (λ e. tt, λ h. refl)
message_metadata_iff i (message ∷ messages) =
    let rest = message_metadata_iff (suc i) messages in ground (arith, rest, message.metadata)

tool_metadata_iff :
    (i : ℕ) (tools : List Tool)
    → (check_tool_metadata i tools ≡ passed) ↔ All (λ t. t.metadata ≡ []) tools
unfolding check_tool_metadata
tool_metadata_iff i [] = (λ e. tt, λ h. refl)
tool_metadata_iff i (tool ∷ tools) =
    let rest = tool_metadata_iff (suc i) tools in ground (arith, rest, tool.metadata)

pub nested_iff : (request : Request) → (reject_nested_metadata request ≡ passed) ↔ IsPlain request
unfolding reject_nested_metadata
nested_iff request =
    check_iff _ _ (message_metadata_iff 0 request.messages) (tool_metadata_iff 0 request.tools)
