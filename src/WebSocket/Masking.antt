-- ===== src/WebSocket/Masking.antt =====
-- The payload mask, `payload[i] ^= mask[i%4]`, of readFrame and writeFrame, and that it undoes itself.
use Prim.Native.Nat.{bit_xor, digits, differ, bit_xor-bitwise}
use kokekokkor.Common.{
  ℕ, zero, suc, ◌+◌, ◌*◌, ◌/◌, ◌%◌, ◌≤◌, ◌<◌, ◌≡◌, refl, ap, ◌∙◌, List, [], ◌∷◌, length, arith,
}

-- The digits of `bit_xor`, with any fuel that is enough.
xor_digits : ℕ → ℕ → ℕ → ℕ
xor_digits n a b = digits (λ y. y) differ n a b

enough_digits : (n m a b : ℕ) → a ≤ n → a ≤ m → xor_digits n a b ≡ xor_digits m a b
unfolding xor_digits
enough_digits zero zero a b h k = refl
enough_digits zero (suc m) zero b h k = refl
enough_digits zero (suc m) (suc a) b h k = absurd (omega arith)
enough_digits (suc n) zero zero b h k = refl
enough_digits (suc n) zero (suc a) b h k = absurd (omega arith)
enough_digits (suc n) (suc m) zero b h k = refl
enough_digits (suc n) (suc m) (suc a) b h k =
    ap (λ q. q * 2 + differ (suc a % 2) (b % 2))
      (enough_digits n m (suc a / 2) (b / 2) (omega arith) (omega arith))

differ_bits : (a b : ℕ) → a < 2 → b < 2 → differ a b ≡ (a + b) % 2
differ_bits zero b h k = omega arith
differ_bits (suc zero) zero h k = omega arith
differ_bits (suc zero) (suc zero) h k = omega arith
differ_bits (suc zero) (suc (suc b)) h k = absurd (omega arith)
differ_bits (suc (suc a)) b h k = absurd (omega arith)

-- One equation for the lowest digit.
xor_step : (a b : ℕ) → bit_xor a b ≡ bit_xor (a / 2) (b / 2) * 2 + (a % 2 + b % 2) % 2
unfolding xor_digits
xor_step zero b = omega (arith, bit_xor-bitwise 0 b, bit_xor-bitwise (0 / 2) (b / 2))
xor_step (suc a) b = omega (
  arith,
  bit_xor-bitwise (suc a) b,
  bit_xor-bitwise (suc a / 2) (b / 2),
  enough_digits a (suc a / 2) (suc a / 2) (b / 2) (omega arith) (omega arith),
  differ_bits (suc a % 2) (b % 2) (omega arith) (omega arith),
)

xor_half : (a b : ℕ) → bit_xor a b / 2 ≡ bit_xor (a / 2) (b / 2)
xor_half a b = omega (arith, xor_step a b)

xor_twice_fuel : (n a b : ℕ) → a + b ≤ n → bit_xor (bit_xor a b) b ≡ a
xor_twice_fuel zero a b h =
    let za : a ≡ 0 = omega arith in let zb : b ≡ 0 = omega arith in rw (za, zb)
xor_twice_fuel (suc n) zero zero h = refl
xor_twice_fuel (suc n) a b h =
    let again : bit_xor (bit_xor (a / 2) (b / 2)) (b / 2) ≡ a / 2 =
      xor_twice_fuel n (a / 2) (b / 2) (omega arith) in
    let step = xor_step (bit_xor a b) b in
    let half : bit_xor (bit_xor a b / 2) (b / 2) ≡ a / 2 =
      ap (λ q. bit_xor q (b / 2)) (xor_half a b) ∙ again in
    omega (arith, step, half, xor_step a b)

xor_twice : (a b : ℕ) → bit_xor (bit_xor a b) b ≡ a
xor_twice a b = xor_twice_fuel (a + b) a b (omega arith)

-- The four bytes of a mask.
pub record Mask : Type 0 where
  pub m0 : ℕ
  pub m1 : ℕ
  pub m2 : ℕ
  pub m3 : ℕ

-- The loop over the payload: the mask turns by one place for each byte.
abbrev turn : Mask → Mask
turn k = record { m0 = k.m1; m1 = k.m2; m2 = k.m3; m3 = k.m0 }

unfoldable pub apply_mask : Mask → List ℕ → List ℕ
apply_mask k [] = []
apply_mask k (b ∷ bs) = bit_xor b k.m0 ∷ apply_mask (turn k) bs

pub apply_mask_twice : (k : Mask) (bs : List ℕ) → apply_mask k (apply_mask k bs) ≡ bs
unfolding apply_mask
apply_mask_twice k [] = refl
apply_mask_twice k (b ∷ bs) = ground (arith, xor_twice b k.m0, apply_mask_twice (turn k) bs)

pub length-apply_mask : (k : Mask) (bs : List ℕ) → length (apply_mask k bs) ≡ length bs
unfolding apply_mask
length-apply_mask k [] = refl
length-apply_mask k (b ∷ bs) = ap suc (length-apply_mask (turn k) bs)
