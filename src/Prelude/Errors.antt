-- ===== src/Prelude/Errors.antt =====
-- A value or the exception that was raised in its place, over any type of exceptions; `do` blocks chain
-- such computations, and the first exception ends the chain.
pub data Fallible {ℓ} (E : Type 0) (A : Type ℓ) : Type ℓ where
  err : E → Fallible E A
  ok : A → Fallible E A

module _ {E : Type 0} where
  infixl 5 ◌>>=◌ ◌>>◌
  abbrev pub ◌>>=◌ {ℓ₁ ℓ₂} :
      {A : Type ℓ₁} {B : Type ℓ₂} → Fallible E A → (A → Fallible E B) → Fallible E B
  err e >>= next = err e
  ok a >>= next = next a

  abbrev pub ◌>>◌ {ℓ₂} : {B : Type ℓ₂} → Fallible E (Unit {0}) → Fallible E B → Fallible E B
  first >> next = first >>= λ _. next
