-- ===== src/FileNames/Digits.antt =====
-- The decimal digits that FileNames writes and reads.
use Prim.Native.Nat.{◌%◌}
use Prim.Native.Char.{Char, code}
use Prim.Native.String.{String, ◌++◌ as str_append}
use text.Mathlib.TextLemmas.{
  append_assoc as str_append_assoc, append-nil as str_append-nil, nil-append, cons-append,
}
use stream_fence_js.Prelude.{
  ℕ, zero, suc, ◌+◌, ◌-◌, ◌*◌, ◌/◌, ◌<◌, ◌≡◌, refl, sym, ap, ◌∙◌, inl, inr, true, List, [], ◌∷◌,
  arith, ltb, Bool-cases,
}
use stream_fence_js.Prelude.Decimal.{digits_loop, digit, write_digits, decimal}
use stream_fence_js.FileNames.{text_length, zeros, pad_start}

-- The last digits of a number, the last one first.
abbrev pub fixed_digits : ℕ → ℕ → List ℕ
fixed_digits zero k = []
fixed_digits (suc n) k = k % 10 ∷ fixed_digits n (k / 10)

abbrev pub power_of_ten : ℕ → ℕ
power_of_ten zero = 1
power_of_ten (suc n) = 10 * power_of_ten n

pub text_length-append :
    (s t : String) → text_length (str_append s t) ≡ text_length s + text_length t
unfolding text_length
text_length-append String.[] t = rw nil-append (omega arith)
text_length-append (String.◌∷◌ c s) t = rw cons-append (omega (arith, text_length-append s t))

-- A digit is one character.
pub digit_lem :
    (d : ℕ) → d < 10 → (c : Char) × (digit d ≡ String.◌∷◌ c String.[]) × (code c ≡ b'0' + d)
unfolding digit
digit_lem zero h = (_, refl, refl)
digit_lem (suc zero) h = (_, refl, refl)
digit_lem (suc (suc zero)) h = (_, refl, refl)
digit_lem (suc (suc (suc zero))) h = (_, refl, refl)
digit_lem (suc (suc (suc (suc zero)))) h = (_, refl, refl)
digit_lem (suc (suc (suc (suc (suc zero))))) h = (_, refl, refl)
digit_lem (suc (suc (suc (suc (suc (suc zero)))))) h = (_, refl, refl)
digit_lem (suc (suc (suc (suc (suc (suc (suc zero))))))) h = (_, refl, refl)
digit_lem (suc (suc (suc (suc (suc (suc (suc (suc zero)))))))) h = (_, refl, refl)
digit_lem (suc (suc (suc (suc (suc (suc (suc (suc (suc zero))))))))) h = (_, refl, refl)
digit_lem (suc (suc (suc (suc (suc (suc (suc (suc (suc (suc d)))))))))) h =
    absurd (omega (arith, h))

text_length-digit : (d : ℕ) → d < 10 → text_length (digit d) ≡ 1
unfolding text_length
text_length-digit d h = rw (digit_lem d h).1 refl

pub text_length-zeros : (n : ℕ) → text_length (zeros n) ≡ n
unfolding text_length zeros
text_length-zeros zero = refl
text_length-zeros (suc n) = omega (arith, text_length-append "0" (zeros n), text_length-zeros n)

zeros_comm : (n : ℕ) → str_append (zeros n) "0" ≡ zeros (suc n)
unfolding zeros
zeros_comm zero = refl
zeros_comm (suc n) = str_append_assoc "0" (zeros n) "0" ∙ ap (str_append "0") (zeros_comm n)

write_digits-zero : (n : ℕ) → write_digits (fixed_digits n 0) ≡ zeros n
unfolding write_digits digit
write_digits-zero zero = unfold zeros in refl
write_digits-zero (suc n) = ap (λ s. str_append s "0") (write_digits-zero n) ∙ zeros_comm n

-- Padding puts zeros in front until the width is reached.
pad_start-digit :
    (n : ℕ) (s : String) (d : ℕ)
    → d < 10
    → pad_start (suc n) (str_append s (digit d)) ≡ str_append (pad_start n s) (digit d)
unfolding pad_start
pad_start-digit n s d h =
    let wide : suc n - text_length (str_append s (digit d)) ≡ n - text_length s =
      omega (arith, text_length-append s (digit d), text_length-digit d h) in
    rw wide (sym (str_append_assoc (zeros (n - text_length s)) s (digit d)))

pad_start-empty : (n : ℕ) → pad_start n "" ≡ zeros n
unfolding pad_start text_length
pad_start-empty n =
    let none_long : n - 0 ≡ n = omega arith in rw none_long (str_append-nil (zeros n))

pad_one :
    (n k : ℕ)
    → k < 10
    → pad_start (suc n) (write_digits (k ∷ [])) ≡ write_digits (fixed_digits (suc n) k)
unfolding write_digits
pad_one n k one =
    let none_left : k / 10 ≡ 0 = omega arith in
    let last : k % 10 ≡ k = omega arith in
    rw (none_left, last)
      (pad_start-digit n "" k one
        ∙ ap (λ s. str_append s (digit k)) (pad_start-empty n ∙ sym (write_digits-zero n)))

pad_more :
    (n d : ℕ) (rest ds : List ℕ)
    → d < 10
    → pad_start n (write_digits rest) ≡ write_digits ds
    → pad_start (suc n) (write_digits (d ∷ rest)) ≡ write_digits (d ∷ ds)
unfolding write_digits
pad_more n d rest ds h e =
    pad_start-digit n (write_digits rest) d h ∙ ap (λ s. str_append s (digit d)) e

pad_digits :
    (n fuel k : ℕ)
    → k < fuel
    → k < power_of_ten (suc n)
    → pad_start (suc n) (write_digits (digits_loop fuel k)) ≡ write_digits (fixed_digits (suc n) k)
unfolding digits_loop
pad_digits n zero k enough small = absurd (omega (arith, enough))
pad_digits zero (suc fuel) k enough small =
    let one : ltb k 10 ≡ true = ground arith in rw one (pad_one zero k (omega arith))
pad_digits (suc n) (suc fuel) k enough small = elim (Bool-cases (ltb k 10)) [
  | inl one ↦ rw one (pad_one (suc n) k (ground arith))
  | inr more ↦ rw more (
      pad_more (suc n) (k % 10) (digits_loop fuel (k / 10)) (fixed_digits (suc n) (k / 10))
        (omega arith) (pad_digits n fuel (k / 10) (ground arith) (omega arith)))
]

-- The digits in a file name.
pub pad_start-decimal :
    (n k : ℕ)
    → k < power_of_ten (suc n)
    → pad_start (suc n) (decimal k) ≡ write_digits (fixed_digits (suc n) k)
unfolding decimal
pad_start-decimal n k small = pad_digits n (suc k) k (omega arith) small
