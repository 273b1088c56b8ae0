-- ===== src/FileNames/Order.antt =====
-- The order of file names is that of their numbers, while those have at most eight digits.
use Prim.Native.Nat.{◌%◌, compare, Ordering}
use Prim.Native.Char.{code}
use Prim.Native.String.{String, ◌++◌ as str_append}
use text.Mathlib.TextLemmas.{nil-append, cons-append}
use stream_fence_js.Prelude.{
  ℕ, zero, suc, ◌+◌, ◌/◌, ◌<◌, ◌≡◌, refl, sym, ap, ◌∙◌, some, List, [], ◌∷◌, ◌++◌, arith, leb,
  length, append_assoc, pos, length-append,
}
use stream_fence_js.Prelude.Decimal.{digit, write_digits, decimal}
use stream_fence_js.FileNames.{
  code_units, units_of, compare_units, and_then, is_not_after, sorts_before, pad_start, file_name,
  number_text,
}
use stream_fence_js.FileNames.Digits.{digit_lem, fixed_digits, power_of_ten, pad_start-decimal}

code_units-append : (s t : String) → code_units (str_append s t) ≡ code_units s ++ code_units t
unfolding code_units
code_units-append String.[] t = rw nil-append refl
code_units-append (String.◌∷◌ c s) t = rw cons-append (
    ap (λ us. units_of (code c) ++ us) (code_units-append s t)
    ∙ sym (append_assoc (units_of (code c)) (code_units s) (code_units t)))

code_units-digit : (d : ℕ) → d < 10 → code_units (digit d) ≡ (b'0' + d) ∷ []
unfolding code_units
code_units-digit d h = rw (digit_lem d h).1 (ground (arith, (digit_lem d h).2))

-- Texts of one length compare by their fronts first.
compare_units-append :
    (xs ys us vs : List ℕ)
    → length xs ≡ length ys
    → compare_units (xs ++ us) (ys ++ vs) ≡ and_then (compare_units xs ys) (compare_units us vs)
unfolding compare_units
compare_units-append [] [] us vs h = refl
compare_units-append [] (y ∷ ys) us vs h = absurd (omega (arith, h))
compare_units-append (x ∷ xs) [] us vs h = absurd (omega (arith, h))
compare_units-append (x ∷ xs) (y ∷ ys) us vs h =
    ground (arith, compare_units-append xs ys us vs (omega (arith, h)))

abbrev digit_units : ℕ → ℕ → List ℕ
digit_units n k = code_units (write_digits (fixed_digits n k))

digit_units-suc : (n k : ℕ) → digit_units (suc n) k ≡ digit_units n (k / 10) ++ (b'0' + k % 10) ∷ []
unfolding write_digits
digit_units-suc n k =
    code_units-append (write_digits (fixed_digits n (k / 10))) (digit (k % 10))
    ∙ ap (λ us. digit_units n (k / 10) ++ us) (code_units-digit (k % 10) (omega arith))

length_nil : length (code_units (write_digits [])) ≡ 0
unfolding write_digits code_units
length_nil = refl

length-digit_units : (n k : ℕ) → length (digit_units n k) ≡ n
length-digit_units zero k = length_nil
length-digit_units (suc n) k = rw (digit_units-suc n k) (
    omega (
      arith,
      length-append (digit_units n (k / 10)) ((b'0' + k % 10) ∷ []),
      length-digit_units n (k / 10),
    ))

compare_last :
    (i j : ℕ)
    → and_then
        (compare (i / 10) (j / 10))
        (compare_units ((b'0' + i % 10) ∷ []) ((b'0' + j % 10) ∷ []))
      ≡ compare i j
unfolding compare_units
compare_last i j = ground arith

nil_first :
    (i j : ℕ)
    → i < 1
    → j < 1
    → compare_units (digit_units zero i) (digit_units zero j) ≡ compare i j
unfolding write_digits code_units compare_units
nil_first i j p q = ground arith

compare-digit_units :
    (n i j : ℕ)
    → i < power_of_ten n
    → j < power_of_ten n
    → compare_units (digit_units n i) (digit_units n j) ≡ compare i j
compare-digit_units zero i j p q = nil_first i j p q
compare-digit_units (suc n) i j p q =
    rw (digit_units-suc n i, digit_units-suc n j)
      (compare_units-append (digit_units n (i / 10)) (digit_units n (j / 10)) _ _
          (length-digit_units n (i / 10) ∙ sym (length-digit_units n (j / 10)))
        ∙ ap (λ o. and_then o (compare_units ((b'0' + i % 10) ∷ []) ((b'0' + j % 10) ∷ [])))
            (compare-digit_units n (i / 10) (j / 10) (omega (arith, p)) (omega (arith, q)))
        ∙ compare_last i j)

compare_units_refl : (us : List ℕ) → compare_units us us ≡ Ordering.eq
unfolding compare_units
compare_units_refl [] = refl
compare_units_refl (u ∷ us) = ground (arith, compare_units_refl us)

-- Eight digits and the end of the name.
units_of_name :
    (k : ℕ)
    → k < 100000000
    → code_units (file_name (some (pos k))) ≡ digit_units 8 k ++ code_units ".json"
unfolding file_name number_text
units_of_name k h =
    code_units-append (pad_start 8 (decimal k)) ".json"
    ∙ ap (λ s. code_units s ++ code_units ".json") (pad_start-decimal 7 k (omega arith))

and_then_eq : (o : Ordering) → and_then o Ordering.eq ≡ o
and_then_eq Ordering.lt = refl
and_then_eq Ordering.eq = refl
and_then_eq Ordering.gt = refl

compare_names :
    (i j : ℕ)
    → i < 100000000
    → j < 100000000
    → compare_units (code_units (file_name (some (pos i)))) (code_units (file_name (some (pos j))))
      ≡ compare i j
compare_names i j p q =
    rw (units_of_name i p, units_of_name j q)
      (compare_units-append (digit_units 8 i) (digit_units 8 j) (code_units ".json")
          (code_units ".json") (length-digit_units 8 i ∙ sym (length-digit_units 8 j))
        ∙ rw (compare_units_refl (code_units ".json"))
            (and_then_eq (compare_units (digit_units 8 i) (digit_units 8 j)))
        ∙ compare-digit_units 8 i j (omega arith) (omega arith))

-- Names of numbers below 100000000 sort as the numbers do.
pub sorts_before-file_name :
    (i j : ℕ)
    → i < 100000000
    → j < 100000000
    → sorts_before (file_name (some (pos i))) (file_name (some (pos j))) ≡ leb i j
unfolding sorts_before
sorts_before-file_name i j p q = ap is_not_after (compare_names i j p q)
