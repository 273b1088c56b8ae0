-- ===== src/Prelude/Lists.antt =====
-- Arrays as lists, measured and indexed by native numbers, under the library's names.
use Prim.Native.Nat.{ℕ, zero, suc, ◌+◌}
use mathlib.Core.Path.{◌≡◌, refl, ap}
use mathlib.Core.Logic.{◌≢◌, ◌⊎◌, inl, inr}
use mathlib.Core.List.{List, [], ◌∷◌, ◌++◌, map}
use mathlib.Core.Option.{Option, none, some}
use native.Mathlib.Omega.{arith}

module _ {ℓ} {A : Type ℓ} where
  abbrev pub length : List A → ℕ
  length [] = 0
  length (x ∷ xs) = suc (length xs)

  abbrev pub get_elem? : List A → ℕ → Option A
  get_elem? [] i = none
  get_elem? (x ∷ xs) zero = some x
  get_elem? (x ∷ xs) (suc i) = get_elem? xs i

  -- A write out of bounds changes nothing.
  abbrev pub set : List A → ℕ → A → List A
  set [] i v = []
  set (x ∷ xs) zero v = v ∷ xs
  set (x ∷ xs) (suc i) v = x ∷ set xs i v

  pub length-append : (xs ys : List A) → length (xs ++ ys) ≡ length xs + length ys
  length-append [] ys = omega arith
  length-append (x ∷ xs) ys = omega (arith, length-append xs ys)

  pub length-set : (xs : List A) (i : ℕ) (v : A) → length (set xs i v) ≡ length xs
  length-set [] i v = refl
  length-set (x ∷ xs) zero v = refl
  length-set (x ∷ xs) (suc i) v = ap suc (length-set xs i v)

  pub List-cases : (xs : List A) → (xs ≡ []) ⊎ ((x : A) × (rest : List A) × (xs ≡ x ∷ rest))
  List-cases [] = inl refl
  List-cases (x ∷ rest) = inr (x, rest, refl)

  pub get_elem?-set_ne :
      (xs : List A) (i j : ℕ) (v : A) → i ≢ j → get_elem? (set xs i v) j ≡ get_elem? xs j
  get_elem?-set_ne [] i j v h = refl
  get_elem?-set_ne (x ∷ xs) zero zero v h = absurd (h refl)
  get_elem?-set_ne (x ∷ xs) zero (suc j) v h = refl
  get_elem?-set_ne (x ∷ xs) (suc i) zero v h = refl
  get_elem?-set_ne (x ∷ xs) (suc i) (suc j) v h = get_elem?-set_ne xs i j v (λ e. h (ap suc e))

-- A statement about each element of a list.
abbrev pub All {ℓ κ} : {A : Type ℓ} → (A → Type κ) → List A → Type κ
All Q [] = Unit
All Q (x ∷ xs) = Q x × All Q xs

pub All-of {ℓ κ} : {A : Type ℓ} {Q : A → Type κ} (xs : List A) → ((x : A) → Q x) → All Q xs
All-of [] h = tt
All-of (x ∷ xs) h = (h x, All-of xs h)

-- Some element of a list has it.
abbrev pub Any {ℓ} : {A : Type ℓ} → (A → Type 0) → List A → Type 0
Any Q [] = ⊥
Any Q (x ∷ xs) = Q x ⊎ Any Q xs

pub Any-weaken {ℓ} :
    {A : Type ℓ} {Q R : A → Type 0} (xs : List A) → ((x : A) → Q x → R x) → Any Q xs → Any R xs
Any-weaken [] h q = elim q [ ]
Any-weaken (x ∷ xs) h (inl q) = inl (h x q)
Any-weaken (x ∷ xs) h (inr q) = inr (Any-weaken xs h q)

pub All-append {ℓ κ} :
    {A : Type ℓ} (Q : A → Type κ) (xs ys : List A) → All Q xs → All Q ys → All Q (xs ++ ys)
All-append Q [] ys p q = q
All-append Q (x ∷ xs) ys p q = (p.0, All-append Q xs ys p.1 q)

pub All-map {ℓ κ κ'} :
    {A : Type ℓ} {B : Type κ} (Q : B → Type κ') (f : A → B) (xs : List A)
    → ((x : A) → Q (f x))
    → All Q (map f xs)
All-map Q f [] h = tt
All-map Q f (x ∷ xs) h = (h x, All-map Q f xs h)

pub All-weaken {ℓ κ κ'} :
    {A : Type ℓ} {Q : A → Type κ} {R : A → Type κ'} (xs : List A)
    → ((x : A) → Q x → R x)
    → All Q xs
    → All R xs
All-weaken [] h q = tt
All-weaken (x ∷ xs) h q = (h x q.0, All-weaken xs h q.1)
