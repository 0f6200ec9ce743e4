-- ===== src/WebSocket/Wire.antt =====
-- `io.ReadFull` and `encoding/binary`'s big-endian numbers.
use kokekokkor.Common.{
  ℕ, zero, suc, ◌+◌, ◌*◌, ◌/◌, ◌%◌, ◌^◌, ◌<◌, ◌≡◌, refl, Option, none, some, List, [], ◌∷◌, ◌++◌,
  length, length-append, Option-cases, inl, inr, arith,
}

-- The next `n` bytes and the rest, or `none` where the input ends before.
unfoldable pub read_full : ℕ → List ℕ → Option (List ℕ × List ℕ)
read_full zero input = some ([], input)
read_full (suc n) [] = none
read_full (suc n) (b ∷ input) = elim (read_full n input) [
  | none ↦ none
  | some r ↦ some (b ∷ r.0, r.1)
]

unfoldable pub be_from : ℕ → List ℕ → ℕ
be_from acc [] = acc
be_from acc (b ∷ bs) = be_from (acc * 256 + b) bs

unfoldable pub be_value : List ℕ → ℕ
unfolding be_from
be_value bs = be_from 0 bs

unfoldable pub be_bytes : ℕ → ℕ → List ℕ
be_bytes zero n = []
be_bytes (suc k) n = be_bytes k (n / 256) ++ n % 256 ∷ []

pub read_full-append : (bs rest : List ℕ) → read_full (length bs) (bs ++ rest) ≡ some (bs, rest)
unfolding read_full
read_full-append [] rest = refl
read_full-append (b ∷ bs) rest = rw (read_full-append bs rest)

pub read_full-length :
    (n : ℕ) (input bs rest : List ℕ)
    → read_full n input ≡ some (bs, rest)
    → (length bs ≡ n) × (length rest + n ≡ length input)
unfolding read_full
read_full-length zero input bs rest e = ground (arith, e)
read_full-length (suc n) [] bs rest e = ground (arith, e)
read_full-length (suc n) (b ∷ input) bs rest e = elim (Option-cases (read_full n input)) [
  | inl r ↦ ground (arith, e, r)
  | inr (p, r) ↦ let ih = read_full-length n input p.0 p.1 r in ground (arith, e, r, ih)
]

pub length-be_bytes : (k n : ℕ) → length (be_bytes k n) ≡ k
unfolding be_bytes
length-be_bytes zero n = refl
length-be_bytes (suc k) n =
    omega (arith, length-append (be_bytes k (n / 256)) (n % 256 ∷ []), length-be_bytes k (n / 256))

be_from-append : (acc : ℕ) (bs cs : List ℕ) → be_from acc (bs ++ cs) ≡ be_from (be_from acc bs) cs
unfolding be_from
be_from-append acc [] cs = refl
be_from-append acc (b ∷ bs) cs = be_from-append (acc * 256 + b) bs cs

be_value-be_bytes_step :
    (k n : ℕ) → be_value (be_bytes (suc k) n) ≡ be_value (be_bytes k (n / 256)) * 256 + n % 256
unfolding be_value be_bytes be_from
be_value-be_bytes_step k n = be_from-append 0 (be_bytes k (n / 256)) (n % 256 ∷ [])

pub be_value-be_bytes_two : (n : ℕ) → n < 2 ^ 16 → be_value (be_bytes 2 n) ≡ n
unfolding be_value be_bytes be_from
be_value-be_bytes_two n h = omega arith

pub be_value-be_bytes_eight : (n : ℕ) → n < 2 ^ 64 → be_value (be_bytes 8 n) ≡ n
unfolding be_value be_bytes be_from
be_value-be_bytes_eight n h = omega arith
