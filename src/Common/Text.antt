-- ===== src/Common/Text.antt =====
-- `strings.TrimSpace`, on texts of code points, and the order of texts.
use Prim.Native.Char.{Char, code}
use Prim.Native.Nat.{ℕ, Ordering}
use Prim.Native.String.{String, [], ◌∷◌, ◌++◌, compare}
use Prim.Native.String.append.{cons}
use Prim.Native.String.compare.{cons-nil, cons-cons}
use native.Mathlib.Omega.{arith}
use mathlib.Core.Path.{◌≡◌, refl, ap, sym, subst}
use mathlib.Core.Logic.{inl, inr}
use mathlib.Core.Bool.{Bool, true, false, ◌&&◌, ◌||◌}
use text.Mathlib.TextEquality.{eq_iff}
use kokekokkor.Common.Tests.{leb, Bool-cases, ◌==◌, string_eq, ℕ_eq, if◌then◌else◌}

-- `s < t`.
abbrev pub text_before : String → String → Bool
text_before s t = elim (compare s t) [ Ordering.lt ↦ true | _ ↦ false ]

-- Of two texts at most one comes before the other.
pub text_before-not : (s t : String) → text_before s t ≡ true → text_before t s ≡ false
text_before-not [] [] h = refl
text_before-not [] (d ∷ t) h = ground (arith, cons-nil d t)
text_before-not (c ∷ s) [] h = ground (arith, h, cons-nil c s)
text_before-not (c ∷ s) (d ∷ t) h =
    ground (arith, h, cons-cons c d s t, cons-cons d c t s, text_before-not s t)

-- `strings.HasPrefix`, the prefix first.
unfoldable pub has_prefix : String → String → Bool
has_prefix [] s = true
has_prefix (c ∷ prefix) [] = false
has_prefix (c ∷ prefix) (d ∷ s) = code c == code d && has_prefix prefix s

abbrev is_blank : String → Bool
is_blank [] = true
is_blank (c ∷ s) = false

cons_named : (c : Char) (s : String) → ((c ∷ s) == "") ≡ false
cons_named c s = elim (Bool-cases ((c ∷ s) == "")) [
  | inl same ↦ (let wrong = ap is_blank ((eq_iff (c ∷ s) "").0 same) in cc)
  | inr other ↦ other
]

pub append_named : (c : Char) (s t : String) → (((c ∷ s) ++ t) == "") ≡ false
append_named c s t = subst (λ u. (u == "") ≡ false) (sym (cons c s t)) (cons_named c (s ++ t))

-- What has a prefix that is not empty is not empty.
pub has_prefix-named :
    (c : Char) (prefix s : String) → has_prefix (c ∷ prefix) s ≡ true → (s == "") ≡ false
unfolding has_prefix
has_prefix-named c prefix [] h = cc
has_prefix-named c prefix (d ∷ s) h = cons_named d s

-- `unicode.IsSpace`.
unfoldable pub is_space : ℕ → Bool
is_space c =
    (leb 0x09 c && leb c 0x0d)
    || c == 0x20
    || c == 0x85
    || c == 0xa0
    || c == 0x1680
    || (leb 0x2000 c && leb c 0x200a)
    || c == 0x2028
    || c == 0x2029
    || c == 0x202f
    || c == 0x205f
    || c == 0x3000

unfoldable pub trim_left : String → String
trim_left [] = []
trim_left (c ∷ s) = let rest = trim_left s in if is_space (code c) then rest else c ∷ s

abbrev keep_unless_blank : Char → String → String
keep_unless_blank c [] = if is_space (code c) then [] else c ∷ []
keep_unless_blank c (d ∷ s) = c ∷ d ∷ s

-- Trailing blanks go: a character stays if one after it stays, or if it is no blank.
unfoldable pub trim_right : String → String
trim_right [] = []
trim_right (c ∷ s) = keep_unless_blank c (trim_right s)

unfoldable pub trim_space : String → String
unfolding trim_left trim_right
trim_space s = trim_right (trim_left s)

trim_space_test : trim_space "  a b " ≡ "a b"
unfolding trim_space is_space
trim_space_test = refl
