-- ===== src/Prelude/Throwing.antt =====
-- Calls that may throw an `Error`: the value returned, or the error's message.
use Prim.Native.String.{String}
use mathlib.Core.Path.{◌≡◌, refl, ap}
use mathlib.Core.Logic.{◌⊎◌, inl, inr}
use native.Mathlib.Omega.{arith}

pub data Result {ℓ} (A : Type ℓ) : Type ℓ where
  ok : A → Result A
  throws : String → Result A

infixl 5 ◌>>=◌ ◌>>◌
abbrev pub ◌>>=◌ {ℓ κ} : {A : Type ℓ} {B : Type κ} → Result A → (A → Result B) → Result B
ok a >>= f = f a
throws e >>= f = throws e

abbrev pub ◌>>◌ {ℓ κ} : {A : Type ℓ} {B : Type κ} → Result A → Result B → Result B
m >> k = m >>= λ _. k

pub Result-cases :
    {A : Type 0} (r : Result A)
    → ((message : String) × (r ≡ throws message)) ⊎ ((a : A) × (r ≡ ok a))
Result-cases (throws message) = inl (message, refl)
Result-cases (ok a) = inr (a, refl)

-- A call that returns after another has: what the other returned.
pub bind_ok :
    {A B : Type 0} (m : Result A) (f : A → Result B) (b : B)
    → (m >>= f) ≡ ok b
    → (a : A) × (m ≡ ok a) × (f a ≡ ok b)
bind_ok (ok a) f b e = (a, refl, e)
bind_ok (throws x) f b e = absurd (ground arith)

pub ok_injective : {A : Type 0} {a b : A} → ok a ≡ ok b → a ≡ b
ok_injective {a} e = ap (value_or a) e
  where
    value_or : {A : Type 0} → A → Result A → A
    value_or d (ok x) = x
    value_or d (throws x) = d
