-- ===== src/Base/Result.antt =====
-- Exceptions as values. The constructors are the classes that the harness raises, with the message.
use Prim.Native.String.{String}
use mathlib.Core.Path.{◌≡◌, refl}
use mathlib.Core.Logic.{◌⊎◌, inl, inr}
use mathlib.Core.Bool.{Bool, true, false}

pub data Error : Type 0 where
  runtime_error value_error key_error assertion_error timeout_error file_not_found : String → Error
  -- An exception of a library: a driver, Docker, the operating system.
  external_error : String → Error

-- What a call returns, or what it raises.
pub data Result {ℓ} (V : Type ℓ) : Type ℓ where
  err : Error → Result V
  ok : V → Result V

-- `if not test: raise e`
abbrev pub guard : Bool → Error → Result (Unit {0})
guard false raised = err raised
guard true raised = ok tt

module _ {ℓ} {V : Type ℓ} where
  abbrev pub is_ok : Result V → Bool
  is_ok (err e) = false
  is_ok (ok v) = true

  pub Result-cases : (m : Result V) → ((v : V) × (m ≡ ok v)) ⊎ ((e : Error) × (m ≡ err e))
  Result-cases (err e) = inr (e, refl)
  Result-cases (ok v) = inl (v, refl)

  infixl 5 ◌>>=◌
  abbrev pub ◌>>=◌ {κ} : {W : Type κ} → Result V → (V → Result W) → Result W
  err raised >>= next = err raised
  ok v >>= next = next v

  pub >>=-eq-ok {κ} :
      {W : Type κ} (m : Result V) (next : V → Result W) {w : W}
      → (m >>= next) ≡ ok w
      → (v : V) × (m ≡ ok v) × (next v ≡ ok w)
  >>=-eq-ok (err e) next h = cc
  >>=-eq-ok (ok v) next h = (v, refl, h)

infixl 5 ◌>>◌
abbrev pub ◌>>◌ {κ} : {W : Type κ} → Result (Unit {0}) → Result W → Result W
done >> later = done >>= (λ _. later)
