-- ===== src/Translation/Lower.antt =====
-- `strings.ToLower` in internal/application/translation/reasoning.go. Only what can become one of the
-- code's words counts: the letters A to Z and the two others whose lower case is an ASCII letter.
use Prim.Native.Char.{Char, char, code}
use Prim.Native.String.{String, [], ◌∷◌}
use mathlib.Core.Path.{◌≡◌, refl}
use kokekokkor.Common.Tests.{◌==◌, ℕ_eq, if◌then◌else◌}

-- The letter of the second text that stands where the first has `c`, or `c`.
unfoldable letter_at : String → String → Char → Char
letter_at [] lower c = c
letter_at (u ∷ upper) [] c = c
letter_at (u ∷ upper) (l ∷ lower) c =
    let rest = letter_at upper lower c in if code u == code c then l else rest

unfoldable lower_letter : Char → Char
unfolding letter_at
lower_letter c =
    if code c == 0x212a
    then char 0x6b tt
    else if code c == 0x130
    then char 0x69 tt
    else letter_at "ABCDEFGHIJKLMNOPQRSTUVWXYZ" "abcdefghijklmnopqrstuvwxyz" c

unfoldable pub to_lower : String → String
unfolding lower_letter
to_lower [] = []
to_lower (c ∷ s) = lower_letter c ∷ to_lower s

to_lower_test : to_lower "xHIGH-é" ≡ "xhigh-é"
unfolding to_lower lower_letter letter_at
to_lower_test = refl
