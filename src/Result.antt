-- ===== src/Result.antt =====
-- A call that may raise: the exceptions that the modelled code raises or tells apart.
use async_native_ai_orchestr.Prelude.{◌≡◌, ◌⊎◌, inl, inr, refl, String}

pub data Error : Type 0 where
  key_error : String → Error
  value_error : String → Error
  type_error : String → Error
  -- Any other `Exception`, with its text.
  other_error : String → Error

pub data Result {ℓ} (A : Type ℓ) : Type ℓ where
  ok : A → Result A
  err : Error → Result A

infixl 5 ◌>>=◌ ◌>>◌
abbrev pub ◌>>=◌ {ℓ κ} : {A : Type ℓ} {B : Type κ} → Result A → (A → Result B) → Result B
ok a >>= f = f a
err e >>= f = err e

abbrev pub ◌>>◌ {ℓ κ} : {A : Type ℓ} {B : Type κ} → Result A → Result B → Result B
m >> k = m >>= λ _. k

pub Result-cases :
    {A : Type 0} (r : Result A) → ((a : A) × (r ≡ ok a)) ⊎ ((e : Error) × (r ≡ err e))
Result-cases (ok a) = inl (a, refl)
Result-cases (err e) = inr (e, refl)
