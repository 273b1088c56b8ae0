-- ===== src/FileNames/Reading.antt =====
-- What `parseInt` reads of a file's name.
use Prim.Native.Nat.{◌%◌}
use Prim.Native.Char.{code}
use Prim.Native.String.{String, ◌++◌ as str_append}
use text.Mathlib.TextLemmas.{append_assoc as str_append_assoc, nil-append, cons-append}
use stream_fence_js.Prelude.{
  ℕ, zero, suc, ◌+◌, ◌-◌, ◌*◌, ◌/◌, ◌<◌, ◌≤◌, ◌≡◌, refl, ap, ◌∙◌, inl, inr, true, false, some,
  arith, ltb, ◌==◌, Bool-cases, pos, is_space,
}
use stream_fence_js.Prelude.Decimal.{digits_loop, digit, write_digits, decimal}
use stream_fence_js.FileNames.{
  zeros, pad_start, text_length, read_digits, read_number, parse_int, after_prefix, replace_first,
  file_name, number_text, number_of_name, is_digit,
}
use stream_fence_js.FileNames.Digits.{digit_lem, text_length-append, text_length-zeros}

-- A text of digits.
abbrev IsDigits : String → Type 0
IsDigits String.[] = Unit {0}
IsDigits (String.◌∷◌ c s) = (b'0' ≤ code c) × (code c ≤ b'9') × IsDigits s

IsDigits-append : (s t : String) → IsDigits s → IsDigits t → IsDigits (str_append s t)
IsDigits-append String.[] t p q = rw nil-append q
IsDigits-append (String.◌∷◌ c s) t p q = rw cons-append (p.0, p.1, IsDigits-append s t p.2 q)

digit-IsDigits : (d : ℕ) → d < 10 → IsDigits (digit d)
digit-IsDigits d h =
    rw (digit_lem d h).1 (omega (arith, (digit_lem d h).2), omega (arith, (digit_lem d h).2), tt)

zeros-IsDigits : (n : ℕ) → IsDigits (zeros n)
unfolding zeros
zeros-IsDigits zero = tt
zeros-IsDigits (suc n) =
    IsDigits-append "0" (zeros n) (omega arith, omega arith, tt) (zeros-IsDigits n)

write_digits-IsDigits : (fuel k : ℕ) → IsDigits (write_digits (digits_loop fuel k))
unfolding digits_loop write_digits
write_digits-IsDigits zero k = tt
write_digits-IsDigits (suc fuel) k = elim (Bool-cases (ltb k 10)) [
  | inl one ↦ rw one (IsDigits-append "" (digit k) tt (digit-IsDigits k (ground arith)))
  | inr more ↦ rw more (
      IsDigits-append (write_digits (digits_loop fuel (k / 10))) (digit (k % 10))
        (write_digits-IsDigits fuel (k / 10)) (digit-IsDigits (k % 10) (omega arith)))
]

read_digits-digit :
    (n : ℕ) (s : String) (d : ℕ)
    → IsDigits s
    → d < 10
    → read_digits n (str_append s (digit d)) ≡ 10 * read_digits n s + d
unfolding read_digits
read_digits-digit n String.[] d p h =
    rw (nil-append, (digit_lem d h).1) (ground (arith, (digit_lem d h).2))
read_digits-digit n (String.◌∷◌ c s) d p h =
    rw cons-append (ground (arith, read_digits-digit (10 * n + (code c - b'0')) s d p.2 h))

read_digits-zeros : (n : ℕ) (s : String) → read_digits 0 (str_append (zeros n) s) ≡ read_digits 0 s
unfolding read_digits zeros
read_digits-zeros zero s = rw nil-append refl
read_digits-zeros (suc n) s =
    ap (read_digits 0) (str_append_assoc "0" (zeros n) s)
    ∙ rw cons-append (rw nil-append (read_digits-zeros n s))

read_digits-digits_loop :
    (fuel k : ℕ) → k < fuel → read_digits 0 (write_digits (digits_loop fuel k)) ≡ k
unfolding digits_loop write_digits read_digits
read_digits-digits_loop zero k h = absurd (omega (arith, h))
read_digits-digits_loop (suc fuel) k h = elim (Bool-cases (ltb k 10)) [
  | inl one ↦ rw one (rw (read_digits-digit 0 "" k tt (ground arith)) (omega arith))
  | inr more ↦ rw more (
      rw
        (read_digits-digit 0 (write_digits (digits_loop fuel (k / 10))) (k % 10)
          (write_digits-IsDigits fuel (k / 10)) (omega arith))
        (omega (arith, read_digits-digits_loop fuel (k / 10) (ground arith))))
]

-- The end of a name is taken off.
replace_first-digits : (s : String) → IsDigits s → replace_first ".json" (str_append s ".json") ≡ s
unfolding replace_first after_prefix
replace_first-digits String.[] p = refl
replace_first-digits (String.◌∷◌ c s) p = rw cons-append (
    let other : (b'.' == code c) ≡ false = ground arith in
    rw (other, replace_first) (ap (String.◌∷◌ c) (replace_first-digits s p.2)))

digit_is_digit : (c : ℕ) → b'0' ≤ c → c ≤ b'9' → (is_space c ≡ false) × (is_digit c ≡ true)
unfolding is_space
digit_is_digit c low high = ground arith

parse_int-digits :
    (s : String) → 0 < text_length s → IsDigits s → parse_int s ≡ some (pos (read_digits 0 s))
unfolding parse_int read_number text_length
parse_int-digits String.[] long p = absurd (omega (arith, long))
parse_int-digits (String.◌∷◌ c s) long p =
    let facts = digit_is_digit (code c) p.0 p.1 in
    let not_minus : (code c == b'-') ≡ false = ground arith in
    let not_plus : (code c == b'+') ≡ false = ground arith in
    rw (facts.0, parse_int) (rw not_minus (rw not_plus (rw (facts.1, read_number) refl)))

-- The number in a file's name.
number-IsDigits :
    (k : ℕ)
    → IsDigits (pad_start 8 (decimal k))
      × (0 < text_length (pad_start 8 (decimal k)))
      × (read_digits 0 (pad_start 8 (decimal k)) ≡ k)
unfolding pad_start decimal
number-IsDigits k = (
  IsDigits-append (zeros (8 - text_length (decimal k))) (decimal k)
      (zeros-IsDigits (8 - text_length (decimal k))) (write_digits-IsDigits (suc k) k),
  omega (
    arith,
    text_length-append (zeros (8 - text_length (decimal k))) (decimal k),
    text_length-zeros (8 - text_length (decimal k)),
  ),
  read_digits-zeros (8 - text_length (decimal k)) (decimal k)
      ∙ read_digits-digits_loop (suc k) k (omega arith),
)

-- `parseInt` of a file's name without its end is the sequence number that named the file.
pub number_of_name-file_name : (k : ℕ) → number_of_name (file_name (some (pos k))) ≡ some (pos k)
unfolding number_of_name file_name number_text
number_of_name-file_name k =
    let (digits, long, read) = number-IsDigits k in
    ap parse_int (replace_first-digits (pad_start 8 (decimal k)) digits)
    ∙ parse_int-digits (pad_start 8 (decimal k)) long digits
    ∙ ap (λ n. some (pos n)) read
