-- ===== src/Sse/Split.antt =====
-- `bytes.Split` at one byte, as the first piece and the others, and the scanner's lines.
use kokekokkor.Common.{
  ℕ, ◌≡◌, refl, Bool, true, false, ◌&&◌, List, [], ◌∷◌, ◌++◌, All, ◌==◌, ==-refl, ℕ_eq,
  if◌then◌else◌, Bool-cases, inl, inr, arith,
}

unfoldable pub split : ℕ → List ℕ → List ℕ × List (List ℕ)
split sep [] = ([], [])
split sep (b ∷ bs) =
    let rest = split sep bs in if b == sep then ([], rest.0 ∷ rest.1) else (b ∷ rest.0, rest.1)

abbrev pub is_empty {ℓ} : {A : Type ℓ} → List A → Bool
is_empty [] = true
is_empty (a ∷ rest) = false

abbrev pub bytes_eq : List ℕ → List ℕ → Bool
bytes_eq [] [] = true
bytes_eq [] (b ∷ bs) = false
bytes_eq (a ∷ rest) [] = false
bytes_eq (a ∷ rest) (b ∷ bs) = a == b && bytes_eq rest bs

-- The last byte is dropped if it is `c`.
unfoldable pub drop_last : ℕ → List ℕ → List ℕ
drop_last c [] = []
drop_last c (b ∷ []) = if b == c then [] else b ∷ []
drop_last c (a ∷ b ∷ bs) = a ∷ drop_last c (b ∷ bs)

-- The pieces without a last one that is empty.
unfoldable pub last_lines : List ℕ → List (List ℕ) → List (List ℕ)
last_lines first [] = if is_empty first then [] else first ∷ []
last_lines first (next ∷ rest) = first ∷ last_lines next rest

unfoldable pub lines_of : List ℕ × List (List ℕ) → List (List ℕ)
unfolding last_lines
lines_of pieces = last_lines pieces.0 pieces.1

-- No byte is `sep`.
abbrev pub IsFree : ℕ → List ℕ → Type 0
IsFree sep = All (λ b. (b == sep) ≡ false)

pub split-append :
    (sep : ℕ) (piece rest : List ℕ)
    → IsFree sep piece
    → split sep (piece ++ (sep ∷ rest)) ≡ (piece, (split sep rest).0 ∷ (split sep rest).1)
unfolding split
split-append sep [] rest free = rw (==-refl sep)
split-append sep (b ∷ piece) rest free = rw (free.0, split-append sep piece rest free.1)

-- A line in front of a text is the first of its lines.
pub lines_of-append :
    (piece rest : List ℕ)
    → IsFree 10 piece
    → lines_of (split 10 (piece ++ (10 ∷ rest))) ≡ piece ∷ lines_of (split 10 rest)
unfolding lines_of last_lines
lines_of-append piece rest free = rw (split-append 10 piece rest free)

-- The pieces with the separator in front of all but the first.
abbrev pub joined : List (List ℕ) → List ℕ
joined [] = []
joined (piece ∷ pieces) = 10 ∷ (piece ++ joined pieces)

pub split-joined : (bs : List ℕ) → (split 10 bs).0 ++ joined (split 10 bs).1 ≡ bs
unfolding split
split-joined [] = refl
split-joined (b ∷ bs) = elim (Bool-cases (b == 10)) [
  | inl feed ↦ ground (arith, feed, split-joined bs)
  | inr other ↦ ground (arith, other, split-joined bs)
]

pub split-IsFree : (bs : List ℕ) → IsFree 10 (split 10 bs).0 × All (IsFree 10) (split 10 bs).1
unfolding split
split-IsFree [] = (tt, tt)
split-IsFree (b ∷ bs) = elim (Bool-cases (b == 10)) [
  | inl feed ↦ ground (arith, feed, split-IsFree bs)
  | inr other ↦ ground (arith, other, split-IsFree bs)
]
