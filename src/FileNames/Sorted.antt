-- ===== src/FileNames/Sorted.antt =====
-- What `sort()` makes of the names of a directory's files.
use Prim.Native.String.{String, ◌++◌ as str_append}
use text.Mathlib.TextLemmas.{nil-append, cons-append}
use stream_fence_js.Prelude.{
  ℕ, zero, suc, ◌+◌, ◌<◌, ◌≤◌, ◌≡◌, refl, sym, ap, ◌∙◌, inl, inr, true, ◌&&◌, some, List, [], ◌∷◌,
  map, arith, ltb, leb, ◌==◌, Bool-cases, str_eq, eq_iff, eq_refl, All, pos, ℤ, Option,
  if◌then◌else◌,
}
use stream_fence_js.FileNames.{
  insert_name, sort, ends_with, having_suffix, file_name, number_of_name, pad_start, number_text,
}
use stream_fence_js.FileNames.Numbers.{
  count, insert_number, sort_numbers, insert_before, insert_after, All-sort_numbers,
  sort_numbers-IsSorted, count-sort_numbers, range, within, sorted-range, All-intro,
}
use stream_fence_js.FileNames.Reading.{number_of_name-file_name}
use stream_fence_js.FileNames.Order.{sorts_before-file_name}

abbrev pub name_of : ℕ → String
name_of k = file_name (some (pos k))

value_of : Option ℤ → ℕ
value_of (some (pos k)) = k
value_of _ = 0

-- Numbers with one name are equal.
pub name_of_injective : (i j : ℕ) → name_of i ≡ name_of j → i ≡ j
unfolding value_of
name_of_injective i j e =
    ap value_of
      (sym (number_of_name-file_name i) ∙ ap number_of_name e ∙ number_of_name-file_name j)

-- How often a list has a text.
abbrev pub occurrences : String → List String → ℕ
occurrences x [] = 0
occurrences x (name ∷ names) = (if str_eq name x then 1 else 0) + occurrences x names

abbrev pub names_from : ℕ → ℕ → List String
names_from lo zero = []
names_from lo (suc n) = name_of lo ∷ names_from (suc lo) n

map-range : (lo n : ℕ) → map name_of (range lo n) ≡ names_from lo n
map-range lo zero = refl
map-range lo (suc n) = ap (λ names. name_of lo ∷ names) (map-range (suc lo) n)

pub str_eq-name_of : (i j : ℕ) → str_eq (name_of i) (name_of j) ≡ i == j
str_eq-name_of i j = elim (Bool-cases (i == j)) [
  | inl same ↦ let e : i ≡ j = ground arith in rw (same, e) (eq_refl (name_of j))
  | inr other ↦ elim (Bool-cases (str_eq (name_of i) (name_of j))) [
    | inl one ↦
        absurd (ground (arith, name_of_injective i j ((eq_iff (name_of i) (name_of j)).0 one)))
    | inr two ↦ two ∙ sym other
  ]
]

occurrences-count : (k : ℕ) (ks : List ℕ) → occurrences (name_of k) (map name_of ks) ≡ count k ks
occurrences-count k [] = refl
occurrences-count k (i ∷ is) = rw (str_eq-name_of i k) (omega (arith, occurrences-count k is))

-- Whether a name may stand before another, as their numbers.
abbrev IsSmall : ℕ → Type 0
IsSmall k = k < 100000000

insert_name-map :
    (k : ℕ) (is : List ℕ)
    → IsSmall k
    → All IsSmall is
    → insert_name (name_of k) (map name_of is) ≡ map name_of (insert_number k is)
unfolding insert_name
insert_name-map k [] p q = unfold insert_number in refl
insert_name-map k (i ∷ is) p q =
    let order = sorts_before-file_name k i p q.0 in
    elim (Bool-cases (leb k i)) [
      | inl before ↦
          rw (order ∙ before, insert_name) (ap (map name_of) (sym (insert_before k i is before)))
      | inr after ↦
          rw (order ∙ after, insert_name)
            (ap (λ names. name_of i ∷ names) (insert_name-map k is p q.1)
              ∙ ap (map name_of) (sym (insert_after k i is after)))
    ]

sort-map : (ks : List ℕ) → All IsSmall ks → sort (map name_of ks) ≡ map name_of (sort_numbers ks)
unfolding sort sort_numbers
sort-map [] q = refl
sort-map (k ∷ ks) q =
    ap (insert_name (name_of k)) (sort-map ks q.1)
    ∙ insert_name-map k (sort_numbers ks) q.0 (All-sort_numbers IsSmall ks q.1)

ends_with_self : (suffix : String) → ends_with suffix suffix ≡ true
unfolding ends_with
ends_with_self String.[] = eq_refl String.[]
ends_with_self (String.◌∷◌ c s) = ground (arith, eq_refl (String.◌∷◌ c s))

ends_with-append : (suffix s : String) → ends_with suffix (str_append s suffix) ≡ true
unfolding ends_with
ends_with-append suffix String.[] = rw nil-append (ends_with_self suffix)
ends_with-append suffix (String.◌∷◌ c s) =
    rw cons-append (ground (arith, ends_with-append suffix s))

pub ends_with-name_of : (k : ℕ) → ends_with ".json" (name_of k) ≡ true
unfolding file_name
ends_with-name_of k = ends_with-append ".json" (pad_start 8 (number_text (some (pos k))))

having_suffix-map : (ks : List ℕ) → having_suffix ".json" (map name_of ks) ≡ map name_of ks
unfolding having_suffix
having_suffix-map [] = refl
having_suffix-map (k ∷ ks) =
    rw (ends_with-name_of k) (ap (λ names. name_of k ∷ names) (having_suffix-map ks))

-- A list of names has numbers.
numbered :
    (names : List String)
    → ((x : String) → 0 < occurrences x names → (k : ℕ) × (x ≡ name_of k))
    → (ks : List ℕ) × (names ≡ map name_of ks)
numbered [] h = ([], refl)
numbered (name ∷ names) h =
    let first = h name (ground (arith, eq_refl name)) in
    let others = numbered names (λ x p. h x (omega (arith, p))) in (first.0 ∷ others.0, cc)

is_small :
    (lo n k c : ℕ) → lo + n ≤ 100000000 → 0 < c → c ≡ (if within lo n k then 1 else 0) → IsSmall k
is_small lo n k c small p e = ground arith

-- If a directory's names are those of a range of numbers below 100000000, each once and in
-- whatever order, the entry files are the names of the range in its order.
pub sort-names_from :
    (lo n : ℕ) (names : List String)
    → lo + n ≤ 100000000
    → ((x : String) → 0 < occurrences x names → (k : ℕ) × (x ≡ name_of k))
    → ((k : ℕ) → occurrences (name_of k) names ≡ (if leb lo k && ltb k (lo + n) then 1 else 0))
    → sort (having_suffix ".json" names) ≡ names_from lo n
sort-names_from lo n names small named each =
    let (ks, e) = numbered names named in
    let counts : (k : ℕ) → count k ks ≡ (if within lo n k then 1 else 0) =
      λ k. sym (occurrences-count k ks) ∙ ap (occurrences (name_of k)) (sym e) ∙ each k in
    let bounded = All-intro IsSmall ks (λ k p. is_small lo n k (count k ks) small p (counts k)) in
    ap (λ names. sort (having_suffix ".json" names)) e
    ∙ ap sort (having_suffix-map ks)
    ∙ sort-map ks bounded
    ∙ ap (map name_of) (
        sorted-range lo n (sort_numbers ks) (sort_numbers-IsSorted ks)
          (λ k. count-sort_numbers k ks ∙ counts k))
    ∙ map-range lo n
