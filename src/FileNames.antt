-- ===== src/FileNames.antt =====
-- The file names of src/internal/delivery/DiskSpillQueue.ts, and what the language does with them:
-- `sort()`, `endsWith`, `replace`, `parseInt` and `padStart` on texts. A number is an integer or,
-- where `none` stands, NaN; integers are exact, which they are up to 2 ^ 53 in the source.
pub mod Digits
pub mod Reading
pub mod Order
pub mod Numbers
pub mod Sorted
use Prim.Native.Nat.{compare, Ordering}
use Prim.Native.Char.{code}
use Prim.Native.String.{String, ◌++◌ as str_append}
use stream_fence_js.Prelude.{
  ℕ, zero, suc, ◌+◌, ◌-◌, ◌*◌, ◌/◌, Bool, true, false, ◌&&◌, ◌||◌, Option, none, some, List, [],
  ◌∷◌, ◌++◌, ℤ, pos, negsuc, str_eq, is_space, ltb, leb, ◌==◌, if◌then◌else◌,
}
use stream_fence_js.Prelude.Decimal.{decimal}

-- The UTF-16 code units of a text, by which `sort()` compares.
abbrev pub units_of : ℕ → List ℕ
units_of c =
    if ltb c 0x10000
    then c ∷ []
    else (0xd800 + (c - 0x10000) / 0x400)
      ∷ (0xdc00 + (c - 0x10000) - (c - 0x10000) / 0x400 * 0x400)
      ∷ []

unfoldable pub code_units : String → List ℕ
code_units String.[] = []
code_units (String.◌∷◌ c s) = units_of (code c) ++ code_units s

abbrev pub and_then : Ordering → Ordering → Ordering
and_then Ordering.eq o = o
and_then o _ = o

unfoldable pub compare_units : List ℕ → List ℕ → Ordering
compare_units [] [] = Ordering.eq
compare_units [] (_ ∷ _) = Ordering.lt
compare_units (_ ∷ _) [] = Ordering.gt
compare_units (x ∷ xs) (y ∷ ys) = and_then (compare x y) (compare_units xs ys)

abbrev pub is_not_after : Ordering → Bool
is_not_after Ordering.gt = false
is_not_after _ = true

-- Whether the first text may stand before the second.
unfoldable pub sorts_before : String → String → Bool
unfolding code_units compare_units
sorts_before s t = is_not_after (compare_units (code_units s) (code_units t))

-- `names.sort()`; the order is stable.
unfoldable pub insert_name : String → List String → List String
insert_name name [] = name ∷ []
insert_name name (other ∷ names) = elim (sorts_before name other) [
  | true ↦ name ∷ other ∷ names
  | false ↦ other ∷ insert_name name names
]

unfoldable pub sort : List String → List String
unfolding insert_name
sort [] = []
sort (name ∷ names) = insert_name name (sort names)

-- `text.endsWith(suffix)`
unfoldable pub ends_with : String → String → Bool
ends_with suffix String.[] = str_eq String.[] suffix
ends_with suffix (String.◌∷◌ c s) = str_eq (String.◌∷◌ c s) suffix || ends_with suffix s

-- `names.filter(f => f.endsWith(suffix))`
unfoldable pub having_suffix : String → List String → List String
having_suffix suffix [] = []
having_suffix suffix (name ∷ names) =
    let rest = having_suffix suffix names in if ends_with suffix name then name ∷ rest else rest

-- What follows a prefix.
unfoldable pub after_prefix : String → String → Option String
after_prefix String.[] s = some s
after_prefix (String.◌∷◌ c p) String.[] = none
after_prefix (String.◌∷◌ c p) (String.◌∷◌ d s) =
    let rest = after_prefix p s in if code c == code d then rest else none

-- `text.replace(pattern, '')`: the first occurrence is taken out.
unfoldable pub replace_first : String → String → String
unfolding after_prefix
replace_first pattern String.[] = String.[]
replace_first pattern (String.◌∷◌ c s) = elim (after_prefix pattern (String.◌∷◌ c s)) [
  | some rest ↦ rest
  | none ↦ String.◌∷◌ c (replace_first pattern s)
]

abbrev pub is_digit : ℕ → Bool
is_digit c = leb b'0' c && leb c b'9'

-- The digits at the front, after those that were read.
unfoldable pub read_digits : ℕ → String → ℕ
read_digits n String.[] = n
read_digits n (String.◌∷◌ c s) = elim (is_digit (code c)) [
  | true ↦ read_digits (10 * n + (code c - b'0')) s
  | false ↦ n
]

-- A number needs a digit.
unfoldable pub read_number : String → Option ℕ
unfolding read_digits
read_number String.[] = none
read_number (String.◌∷◌ c s) =
    if is_digit (code c) then some (read_digits 0 (String.◌∷◌ c s)) else none

abbrev pub negative : ℕ → ℤ
negative zero = pos zero
negative (suc n) = negsuc n

abbrev pub signed : (ℕ → ℤ) → Option ℕ → Option ℤ
signed sign none = none
signed sign (some n) = some (sign n)

-- `parseInt(text, 10)`
unfoldable pub parse_int : String → Option ℤ
unfolding read_number
parse_int String.[] = none
parse_int (String.◌∷◌ c s) = elim (is_space (code c)) [
  | true ↦ parse_int s
  | false ↦
      if code c == b'-'
      then signed negative (read_number s)
      else if code c == b'+'
      then signed pos (read_number s)
      else signed pos (read_number (String.◌∷◌ c s))
]

-- `String(number)`
unfoldable pub number_text : Option ℤ → String
unfolding decimal
number_text none = "NaN"
number_text (some (pos n)) = decimal n
number_text (some (negsuc n)) = str_append "-" (decimal (suc n))

-- `text.length`, for the texts of numbers.
unfoldable pub text_length : String → ℕ
text_length String.[] = 0
text_length (String.◌∷◌ c s) = suc (text_length s)

unfoldable pub zeros : ℕ → String
zeros zero = ""
zeros (suc n) = str_append "0" (zeros n)

-- `text.padStart(width, '0')`
unfoldable pub pad_start : ℕ → String → String
unfolding text_length zeros
pad_start width s = str_append (zeros (width - text_length s)) s

-- The name of the file of a sequence number.
unfoldable pub file_name : Option ℤ → String
unfolding number_text pad_start
file_name seq = str_append (pad_start 8 (number_text seq)) ".json"

-- `parseInt(name.replace('.json', ''), 10) + 1`
abbrev pub add_one : ℤ → ℤ
add_one (pos n) = pos (suc n)
add_one (negsuc zero) = pos zero
add_one (negsuc (suc n)) = negsuc n

abbrev pub next_number : Option ℤ → Option ℤ
next_number none = none
next_number (some z) = some (add_one z)

unfoldable pub number_of_name : String → Option ℤ
unfolding replace_first parse_int
number_of_name name = parse_int (replace_first ".json" name)
