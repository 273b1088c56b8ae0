-- ===== src/FileNames/Numbers.antt =====
-- Sorting numbers: a sorted list of the numbers of a range is the range.
use stream_fence_js.Prelude.{
  ℕ, zero, suc, ◌+◌, ◌<◌, ◌≤◌, ◌≡◌, refl, ap, inl, inr, Bool, true, false, ◌&&◌, List, [], ◌∷◌,
  arith, ltb, leb, ◌==◌, Bool-cases, All, All-weaken, if◌then◌else◌, leb→le,
}

-- How often a list has a number.
abbrev pub count : ℕ → List ℕ → ℕ
count k [] = 0
count k (i ∷ is) = (if i == k then 1 else 0) + count k is

-- Sorting numbers.
unfoldable pub insert_number : ℕ → List ℕ → List ℕ
insert_number k [] = k ∷ []
insert_number k (i ∷ is) = elim (leb k i) [ true ↦ k ∷ i ∷ is | false ↦ i ∷ insert_number k is ]

unfoldable pub sort_numbers : List ℕ → List ℕ
sort_numbers [] = []
sort_numbers (k ∷ ks) = insert_number k (sort_numbers ks)

pub insert_before : (k i : ℕ) (is : List ℕ) → leb k i ≡ true → insert_number k (i ∷ is) ≡ k ∷ i ∷ is
unfolding insert_number
insert_before k i is h = rw (h, insert_number) refl

pub insert_after :
    (k i : ℕ) (is : List ℕ) → leb k i ≡ false → insert_number k (i ∷ is) ≡ i ∷ insert_number k is
unfolding insert_number
insert_after k i is h = rw (h, insert_number) refl

abbrev pub IsSorted : List ℕ → Type 0
IsSorted [] = Unit
IsSorted (k ∷ ks) = All (λ i. k ≤ i) ks × IsSorted ks

pub All-insert_number :
    (Q : ℕ → Type 0) (k : ℕ) (is : List ℕ) → Q k → All Q is → All Q (insert_number k is)
unfolding insert_number
All-insert_number Q k [] p q = (p, tt)
All-insert_number Q k (i ∷ is) p q = elim (Bool-cases (leb k i)) [
  | inl before ↦ rw (insert_before k i is before) (p, q)
  | inr after ↦ rw (insert_after k i is after) (q.0, All-insert_number Q k is p q.1)
]

pub All-sort_numbers : (Q : ℕ → Type 0) (ks : List ℕ) → All Q ks → All Q (sort_numbers ks)
unfolding sort_numbers
All-sort_numbers Q [] q = tt
All-sort_numbers Q (k ∷ ks) q =
    All-insert_number Q k (sort_numbers ks) q.0 (All-sort_numbers Q ks q.1)

insert_number-IsSorted : (k : ℕ) (is : List ℕ) → IsSorted is → IsSorted (insert_number k is)
unfolding insert_number
insert_number-IsSorted k [] s = (tt, tt)
insert_number-IsSorted k (i ∷ is) s = elim (Bool-cases (leb k i)) [
  | inl before ↦ rw (insert_before k i is before) (
    (leb→le k i before, All-weaken is (λ j (p : i ≤ j). omega (arith, leb→le k i before, p)) s.0),
    s,
  )
  | inr after ↦
      rw (insert_after k i is after)
        (All-insert_number (λ j. i ≤ j) k is (ground arith) s.0, insert_number-IsSorted k is s.1)
]

pub sort_numbers-IsSorted : (ks : List ℕ) → IsSorted (sort_numbers ks)
unfolding sort_numbers
sort_numbers-IsSorted [] = tt
sort_numbers-IsSorted (k ∷ ks) =
    insert_number-IsSorted k (sort_numbers ks) (sort_numbers-IsSorted ks)

count-insert_number :
    (j k : ℕ) (is : List ℕ) → count j (insert_number k is) ≡ (if k == j then 1 else 0) + count j is
unfolding insert_number
count-insert_number j k [] = refl
count-insert_number j k (i ∷ is) = elim (Bool-cases (leb k i)) [
  | inl before ↦ rw (insert_before k i is before) refl
  | inr after ↦ rw (insert_after k i is after) (omega (arith, count-insert_number j k is))
]

pub count-sort_numbers : (j : ℕ) (ks : List ℕ) → count j (sort_numbers ks) ≡ count j ks
unfolding sort_numbers
count-sort_numbers j [] = refl
count-sort_numbers j (k ∷ ks) =
    omega (arith, count-insert_number j k (sort_numbers ks), count-sort_numbers j ks)

abbrev pub range : ℕ → ℕ → List ℕ
range lo zero = []
range lo (suc n) = lo ∷ range (suc lo) n

All-count : (Q : ℕ → Type 0) (ks : List ℕ) (k : ℕ) → All Q ks → 0 < count k ks → Q k
All-count Q [] k q p = absurd (omega (arith, p))
All-count Q (i ∷ is) k q p = elim (Bool-cases (i == k)) [
  | inl same ↦ let e : i ≡ k = ground arith in rw (← e) q.0
  | inr other ↦ All-count Q is k q.1 (ground arith)
]

abbrev pub within : ℕ → ℕ → ℕ → Bool
within lo n k = leb lo k && ltb k (lo + n)

-- The first of a sorted list is no larger than the others.
first-le : (k j : ℕ) (is : List ℕ) → IsSorted (k ∷ is) → 0 < count j (k ∷ is) → k ≤ j
first-le k j is s p = elim (Bool-cases (k == j)) [
  | inl same ↦ ground arith
  | inr other ↦ All-count (λ i. k ≤ i) is j s.0 (ground arith)
]

-- A sorted list that has each number of a range once is the range.
rest :
    (lo n k : ℕ) (ks : List ℕ)
    → k ≡ lo
    → ((j : ℕ) → count j (k ∷ ks) ≡ (if within lo (suc n) j then 1 else 0))
    → (j : ℕ) → count j ks ≡ (if within (suc lo) n j then 1 else 0)
rest lo n k ks e c j = ground (arith, c j)

pub sorted-range :
    (lo n : ℕ) (ks : List ℕ)
    → IsSorted ks
    → ((k : ℕ) → count k ks ≡ (if within lo n k then 1 else 0))
    → ks ≡ range lo n
sorted-range lo zero [] s c = refl
sorted-range lo zero (k ∷ ks) s c = absurd (ground (arith, c k))
sorted-range lo (suc n) [] s c = absurd (ground (arith, c lo))
sorted-range lo (suc n) (k ∷ ks) s c =
    let above : lo ≤ k = ground (arith, c k) in
    let below : k ≤ lo = first-le k lo ks s (ground (arith, c lo)) in
    let e : k ≡ lo = omega arith in
    rw e (ap (λ is. lo ∷ is) (sorted-range (suc lo) n ks s.1 (rest lo n k ks e c)))

pub All-intro : (Q : ℕ → Type 0) (ks : List ℕ) → ((k : ℕ) → 0 < count k ks → Q k) → All Q ks
All-intro Q [] h = tt
All-intro Q (k ∷ ks) h = (h k (ground arith), All-intro Q ks (λ j p. h j (omega (arith, p))))
