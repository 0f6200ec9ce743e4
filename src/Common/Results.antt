-- ===== src/Common/Results.antt =====
-- Fallible code: a value, or an error of the component's own type.
use mathlib.Core.Path.{◌≡◌, refl, ap, ◌∙◌}
use mathlib.Core.Logic.{◌⊎◌, inl, inr}

-- Go's `(A, error)`, where a value counts only if the error is nil.
pub data Result {ε ℓ} (Fault : Type ε) (A : Type ℓ) : Type (ε ⊔ ℓ) where
  err : Fault → Result Fault A
  ok : A → Result Fault A

module _ {ε ℓ κ} {Fault : Type ε} {A : Type ℓ} {B : Type κ} where
  infixl 5 ◌>>=◌
  abbrev pub ◌>>=◌ : Result Fault A → (A → Result Fault B) → Result Fault B
  err fault >>= next = err fault
  ok value >>= next = next value

  -- A chain whose steps succeed.
  pub >>=-ok :
      (first : Result Fault A) (next : A → Result Fault B) {value : A} {end : B}
      → first ≡ ok value
      → next value ≡ ok end
      → (first >>= next) ≡ ok end
  >>=-ok first next same rest = ap (λ r. r >>= next) same ∙ rest

  -- What a chain that succeeds went through.
  pub >>=-eq-ok :
      (first : Result Fault A) (next : A → Result Fault B) {end : B}
      → (first >>= next) ≡ ok end
      → (value : A) × (first ≡ ok value) × (next value ≡ ok end)
  >>=-eq-ok (ok value) next e = (value, refl, e)
  >>=-eq-ok (err fault) next e = cc

module _ {ε ℓ} {Fault : Type ε} {A : Type ℓ} where
  infixl 5 ◌>>◌
  abbrev pub ◌>>◌ : Result Fault (Unit {0}) → Result Fault A → Result Fault A
  check >> rest = check >>= λ passed. rest

  pub Result-cases :
      (r : Result Fault A) → ((value : A) × (r ≡ ok value)) ⊎ ((fault : Fault) × (r ≡ err fault))
  Result-cases (err fault) = inr (fault, refl)
  Result-cases (ok value) = inl (value, refl)
