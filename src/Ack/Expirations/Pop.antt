-- ===== src/Ack/Expirations/Pop.antt =====
-- `heapPop` of AckTracker.ts.
use mathlib.Core.List.Perm
use mathlib.Core.List.{Mem, Perm, perm_middle, append-nil, not-mem-nil, mem-cons}
use mathlib.Core.Logic.Or
use native.Mathlib.Bridge.{le_prop}
use stream_fence_js.Prelude.{
  ℕ, zero, suc, ◌<◌, ◌≤◌, ◌≡◌, refl, ap, sym, subst, List, [], ◌∷◌, ◌++◌, none, some, length,
  length-append, arith,
}
use stream_fence_js.Ack.Expirations.{
  ExpirationHandle, parent_index, heap_peek, bubble_down, pop_last, heap_pop,
}
use stream_fence_js.Ack.Expirations.Order.{due, IsHeap, due-append}
use stream_fence_js.Ack.Expirations.Down.{IsSinking, bubble_down-Restored}

pop_last-append {ℓ} :
    {A : Type ℓ} (left : List A) (last : A) → pop_last (left ++ last ∷ []) ≡ (some last, left)
unfolding pop_last
pop_last-append [] last = refl
pop_last-append (x ∷ []) last = refl
pop_last-append (x ∷ y ∷ left) last = rw (pop_last-append (y ∷ left) last)

split_last {ℓ} :
    {A : Type ℓ} (x : A) (xs : List A) → (left : List A) × (last : A) × (x ∷ xs ≡ left ++ last ∷ [])
split_last x [] = ([], x, refl)
split_last x (y ∷ xs) = let (left, last, e) = split_last y xs in (x ∷ left, last, ap (◌∷◌ x) e)

root_least_below :
    (fuel : ℕ) (a : List ExpirationHandle) (i : ℕ)
    → IsHeap a
    → i ≤ fuel
    → i < length a
    → due a 0 ≤ due a i
root_least_below fuel a zero h f p = omega arith
root_least_below zero a (suc i) h f p = absurd (omega arith)
root_least_below (suc fuel) a (suc i) h f p = omega (
  arith,
  h (suc i) (omega arith) p,
  root_least_below fuel a (parent_index (suc i)) h (omega arith) (omega arith),
)

mem-due-le :
    (b : ℕ) (a : List ExpirationHandle)
    → ((i : ℕ) → i < length a → b ≤ due a i)
    → (x : ExpirationHandle) → Mem x a
    → b ≤ x.deadline
unfolding due
mem-due-le b [] h x m = absurd (not-mem-nil m)
mem-due-le b (y ∷ a) h x m =
    Or.elim le_prop (mem-cons.0 m) (λ e. rw e (h 0 (omega arith)))
      (mem-due-le b a (λ i p. h (suc i) (omega arith)) x)

-- What `heapPop` makes of a heap: the entry at its root, due first, and a heap of the others.
pub record Popped (a : List ExpirationHandle) (x : ExpirationHandle) (b : List ExpirationHandle)
    : Type 0 where
  pub result : heap_pop a ≡ (some x, b)
  pub root : heap_peek a ≡ some x
  pub ordered : IsHeap b
  pub same : Perm (x ∷ b) a
  pub first : (y : ExpirationHandle) → Mem y a → x.deadline ≤ y.deadline

due-tail :
    (first : ExpirationHandle) (left : List ExpirationHandle) (last : ExpirationHandle) (c : ℕ)
    → 0 < c
    → c ≤ length left
    → due (last ∷ left) c ≡ due (first ∷ left ++ last ∷ []) c
unfolding due
due-tail first left last zero p q = absurd (omega arith)
due-tail first left last (suc c) p q = sym (due-append left (last ∷ []) c q)

replaced-IsSinking :
    (first : ExpirationHandle) (left : List ExpirationHandle) (last : ExpirationHandle)
    → IsHeap (first ∷ left ++ last ∷ [])
    → IsSinking (last ∷ left) 0
replaced-IsSinking first left last h = record {
  elsewhere = λ c p q ne. ground (
    arith,
    h c,
    length-append left (last ∷ []),
    due-tail first left last c,
    due-tail first left last (parent_index c),
  );
  across = λ c q e pos. absurd (omega arith);
}

pop_result :
    (first : ExpirationHandle) (left : List ExpirationHandle) (last : ExpirationHandle)
    → heap_pop (first ∷ left ++ last ∷ []) ≡ (some first, bubble_down (last ∷ left) 0)
unfolding heap_pop
pop_result first left last = rw (pop_last-append (first ∷ left) last) (ground arith)

pop_append :
    (first : ExpirationHandle) (left : List ExpirationHandle) (last : ExpirationHandle)
    → IsHeap (first ∷ left ++ last ∷ [])
    → (b : List ExpirationHandle) × (heap_pop (first ∷ left ++ last ∷ []) ≡ (some first, b))
      × IsHeap b
      × Perm (first ∷ b) (first ∷ left ++ last ∷ [])
pop_append first left last h =
    let r =
      bubble_down-Restored (last ∷ left) (omega arith) (replaced-IsSinking first left last h) in
    let moved = perm_middle {a = last} left [] in
    (
      bubble_down (last ∷ left) 0,
      pop_result first left last,
      r.ordered,
      Perm.cons first (Perm.trans r.same (Perm.symm (rw (append-nil left) at moved))),
    )

pub root-first :
    (x : ExpirationHandle) (a : List ExpirationHandle)
    → IsHeap (x ∷ a)
    → (y : ExpirationHandle) → Mem y (x ∷ a)
    → x.deadline ≤ y.deadline
unfolding due
root-first x a h =
    mem-due-le x.deadline (x ∷ a) λ i p. root_least_below i (x ∷ a) i h (omega arith) p

-- `heapPop` on a heap that is not empty.
abbrev pub Pops : List ExpirationHandle → Type 0
Pops a = (x : ExpirationHandle) × (b : List ExpirationHandle) × Popped a x b

pop_split :
    (left : List ExpirationHandle) (last : ExpirationHandle)
    → IsHeap (left ++ last ∷ [])
    → Pops (left ++ last ∷ [])
unfolding heap_pop pop_last heap_peek
pop_split [] last h = (
  last,
  [],
  record {
    result = refl;
    root = refl;
    ordered = λ c p q. absurd (omega arith);
    same = Perm.rfl;
    first = root-first last [] h;
  },
)
pop_split (first ∷ left) last h =
    let (b, e, heap, perm) = pop_append first left last h in
    (
      first,
      b,
      record {
        result = e;
        root = refl;
        ordered = heap;
        same = perm;
        first = root-first first (left ++ last ∷ []) h;
      },
    )

-- `heapPop` on a heap that is not empty takes out its root, which is due first of all its entries,
-- and leaves a heap of exactly the others.
pub heap_pop-Pops : (a : List ExpirationHandle) → IsHeap a → 0 < length a → Pops a
heap_pop-Pops [] h p = absurd (omega arith)
heap_pop-Pops (x ∷ a) h p =
    let (left, last, e) = split_last x a in
    subst Pops (sym e) (pop_split left last (subst IsHeap e h))

pub heap_pop-nil : heap_pop [] ≡ (none, [])
unfolding heap_pop pop_last
heap_pop-nil = refl
