-- ===== src/Ack/Expirations/Order.antt =====
-- The heap order of AckTracker.ts, and what a write to the array does to deadlines and contents.
use mathlib.Core.List.Perm
use mathlib.Core.List.{Perm}
use stream_fence_js.Prelude.{
  ℕ, zero, suc, ◌<◌, ◌≤◌, ◌≡◌, refl, List, [], ◌∷◌, ◌++◌, none, some, length, get_elem?, set,
  length-set, get_elem?-set_ne, ◌≢◌, ◌∙◌, arith, ◌==◌, if◌then◌else◌,
}
use stream_fence_js.Ack.Expirations.{ExpirationHandle, parent_index, put_both}

-- The deadline at an index of the array, and 0 past its end.
unfoldable pub due : List ExpirationHandle → ℕ → ℕ
due [] i = 0
due (x ∷ a) zero = x.deadline
due (x ∷ a) (suc i) = due a i

-- No entry is due before its parent.
abbrev pub IsHeap : List ExpirationHandle → Type 0
IsHeap a = (c : ℕ) → 0 < c → c < length a → due a (parent_index c) ≤ due a c

pub get_elem?-due :
    (a : List ExpirationHandle) (i : ℕ)
    → i < length a
    → (x : ExpirationHandle) × (get_elem? a i ≡ some x) × (x.deadline ≡ due a i)
unfolding due
get_elem?-due [] i h = absurd (omega arith)
get_elem?-due (x ∷ a) zero h = (x, refl, refl)
get_elem?-due (x ∷ a) (suc i) h = get_elem?-due a i (omega arith)

pub get_elem?-past : (a : List ExpirationHandle) (i : ℕ) → length a ≤ i → get_elem? a i ≡ none
get_elem?-past [] i h = refl
get_elem?-past (x ∷ a) zero h = absurd (omega arith)
get_elem?-past (x ∷ a) (suc i) h = get_elem?-past a i (omega arith)

pub due-set :
    (a : List ExpirationHandle) (i j : ℕ) (v : ExpirationHandle)
    → i < length a
    → due (set a i v) j ≡ (if i == j then v.deadline else due a j)
unfolding due
due-set [] i j v h = absurd (omega arith)
due-set (x ∷ a) zero zero v h = refl
due-set (x ∷ a) zero (suc j) v h = ground arith
due-set (x ∷ a) (suc i) zero v h = ground arith
due-set (x ∷ a) (suc i) (suc j) v h = ground (arith, due-set a i j v)

pub due-append : (a b : List ExpirationHandle) (i : ℕ) → i < length a → due (a ++ b) i ≡ due a i
unfolding due
due-append [] b i h = absurd (omega arith)
due-append (x ∷ a) b zero h = refl
due-append (x ∷ a) b (suc i) h = due-append a b i (omega arith)

-- Writing one place trades the entry there.
pub set-Perm {ℓ} :
    {A : Type ℓ} (a : List A) (i : ℕ) (x v : A)
    → get_elem? a i ≡ some x
    → Perm (x ∷ set a i v) (v ∷ a)
set-Perm [] i x v e = absurd (ground arith)
set-Perm (y ∷ a) zero x v e = rw (the_head e) (Perm.swap v x a)
  where
    the_head : some y ≡ some x → y ≡ x
    the_head f = cc
set-Perm (y ∷ a) (suc i) x v e =
    Perm.trans (Perm.swap y x (set a i v))
      (Perm.trans (Perm.cons y (set-Perm a i x v e)) (Perm.swap v y a))

-- What a loop of the heap makes of an array: a heap of the same handles.
pub record Restored (a b : List ExpirationHandle) : Type 0 where
  pub ordered : IsHeap b
  pub same : Perm b a

module _ (a : List ExpirationHandle) (i j : ℕ) (x y : ExpirationHandle)
    (hi : get_elem? a i ≡ some x) (hj : get_elem? a j ≡ some y) where
  pub put_both-Perm : i ≢ j → Perm (put_both a i y j x) a
  put_both-Perm ne =
      let b = set a i y in
      let second : get_elem? b j ≡ some y = get_elem?-set_ne a i j y ne ∙ hj in
      Perm.cons_inv (Perm.trans (set-Perm b j y x second) (set-Perm a i x y hi))

  pub due-put_both :
      (c : ℕ)
      → i < length a
      → j < length a
      → due (put_both a i y j x) c
        ≡ (if j == c then x.deadline else if i == c then y.deadline else due a c)
  due-put_both c p q =
      ground (arith, due-set (set a i y) j c x (rw length-set q), due-set a i c y p)

  pub length-put_both : length (put_both a i y j x) ≡ length a
  length-put_both = length-set (set a i y) j x ∙ length-set a i y
