-- ===== src/Base/Results.antt =====
-- A call that returns a value or throws an error, and chains of such calls.
use mathlib.Core.Path.{◌≡◌, refl}
use mathlib.Core.Logic.{◌⊎◌, inl, inr}
use mathlib.Core.Bool.{Bool, true, false}

pub data Result {ℓ} (Thrown Value : Type ℓ) : Type ℓ where
  err : Thrown → Result Thrown Value
  ok : Value → Result Thrown Value

module _ {ℓ} {Thrown Value Next : Type ℓ} where
  infixl 5 ◌>>=◌ ◌>>◌
  -- What follows an `await` is skipped if the call throws.
  abbrev pub ◌>>=◌ : Result Thrown Value → (Value → Result Thrown Next) → Result Thrown Next
  err thrown >>= next = err thrown
  ok value >>= next = next value

  abbrev pub ◌>>◌ : Result Thrown Value → Result Thrown Next → Result Thrown Next
  first >> second = first >>= λ unused. second

  -- What a chain that returns went through.
  pub >>=-returned :
      (call : Result Thrown Value) (next : Value → Result Thrown Next) {end : Next}
      → (call >>= next) ≡ ok end
      → (value : Value) × (call ≡ ok value) × (next value ≡ ok end)
  >>=-returned (err thrown) next h = cc
  >>=-returned (ok value) next h = (value, refl, h)

module _ {ℓ} {Thrown Value : Type ℓ} where
  pub Result-cases :
      (call : Result Thrown Value)
      → ((thrown : Thrown) × (call ≡ err thrown)) ⊎ ((value : Value) × (call ≡ ok value))
  Result-cases (err thrown) = inl (thrown, refl)
  Result-cases (ok value) = inr (value, refl)

  -- Whether a call returns.
  abbrev pub is_ok : Result Thrown Value → Bool
  is_ok (err thrown) = false
  is_ok (ok value) = true

-- `if (!holds) throw error`
abbrev pub require : {Thrown : Type 0} → Bool → Thrown → Result Thrown (Unit {0})
require false error = err error
require true error = ok tt
