-- ===== src/Prelude/Decimal.antt =====
-- `String(n)` for a natural number: its decimal digits.
use Prim.Native.Nat.{ℕ, zero, suc, ◌/◌, ◌%◌}
use Prim.Native.String.{String, ◌++◌}
use mathlib.Core.Path.{◌≡◌, refl}
use mathlib.Core.List.{List, [], ◌∷◌}
use stream_fence_js.Prelude.Tests.{ltb, if◌then◌else◌}

-- The digits, the last one first; the number falls in each round, so it is fuel enough.
unfoldable pub digits_loop : ℕ → ℕ → List ℕ
digits_loop zero n = []
digits_loop (suc fuel) n =
    let rest = digits_loop fuel (n / 10) in if ltb n 10 then n ∷ [] else n % 10 ∷ rest

unfoldable pub digit : ℕ → String
digit zero = "0"
digit (suc zero) = "1"
digit (suc (suc zero)) = "2"
digit (suc (suc (suc zero))) = "3"
digit (suc (suc (suc (suc zero)))) = "4"
digit (suc (suc (suc (suc (suc zero))))) = "5"
digit (suc (suc (suc (suc (suc (suc zero)))))) = "6"
digit (suc (suc (suc (suc (suc (suc (suc zero))))))) = "7"
digit (suc (suc (suc (suc (suc (suc (suc (suc zero)))))))) = "8"
digit _ = "9"

unfoldable pub write_digits : List ℕ → String
unfolding digit
write_digits [] = ""
write_digits (d ∷ ds) = write_digits ds ++ digit d

unfoldable pub decimal : ℕ → String
unfolding digits_loop write_digits
decimal n = write_digits (digits_loop (suc n) n)

decimal_103 : decimal 103 ≡ "103"
unfolding decimal
decimal_103 = refl
