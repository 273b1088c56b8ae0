-- ===== src/Ack/Expirations/Up.antt =====
-- `heapBubbleUp` and `heapPush` of AckTracker.ts.
use mathlib.Core.List.Perm
use mathlib.Core.List.{Perm, perm_middle, append-nil}
use native.Mathlib.Decide.{ℕ_discrete, dec_lt}
use stream_fence_js.Prelude.{
  ℕ, zero, suc, ◌+◌, ◌-◌, ◌<◌, ◌≤◌, ◌≡◌, ◌≢◌, List, [], ◌∷◌, ◌++◌, some, length, length-append,
  get_elem?, arith,
}
use stream_fence_js.Ack.Expirations.{
  ExpirationHandle, parent_index, put_both, bubble_up_loop, bubble_up, heap_push,
}
use stream_fence_js.Ack.Expirations.Order.{
  due, IsHeap, Restored, get_elem?-due, due-append, put_both-Perm, due-put_both, length-put_both,
}

-- Only the edge above `i` may be out of order.
pub record IsRising (a : List ExpirationHandle) (i : ℕ) : Type 0 where
  pub inside : i < length a
  pub elsewhere : (c : ℕ) → 0 < c → c < length a → c ≢ i → due a (parent_index c) ≤ due a c
  pub across :
      (c : ℕ) → c < length a → parent_index c ≡ i → 0 < i → due a (parent_index i) ≤ due a c

settle :
    (a : List ExpirationHandle) (i : ℕ)
    → IsRising a i
    → (0 < i → due a (parent_index i) ≤ due a i)
    → Restored a a
settle a i v h = record {
  ordered = λ c p q. elim (ℕ_discrete c i) [
    | yes here ↦ rw here (h (omega arith))
    | no other ↦ v.elsewhere c p q other
  ];
  same = Perm.rfl;
}

rise :
    (a : List ExpirationHandle) (i : ℕ) (x y : ExpirationHandle)
    → IsRising a i
    → 0 < i
    → get_elem? a i ≡ some x
    → get_elem? a (parent_index i) ≡ some y
    → x.deadline ≡ due a i
    → y.deadline ≡ due a (parent_index i)
    → due a i < due a (parent_index i)
    → IsRising (put_both a i y (parent_index i) x) (parent_index i)
rise a i x y v pos hx hy dx dy below =
    let at = λ (c : ℕ). due-put_both a i (parent_index i) x y hx hy c v.inside (omega arith) in
    let size = length-put_both a i (parent_index i) x y hx hy in
    record {
      inside = omega (arith, size, v.inside);
      elsewhere =
          λ c p q ne. ground (arith, size, at c, at (parent_index c), v.elsewhere c, v.across c);
      across = λ c q at_parent pos'. ground (
        arith,
        size,
        at c,
        at (parent_index (parent_index i)),
        v.elsewhere c,
        v.elsewhere (parent_index i),
      );
    }

-- One round of the loop.
module _ (fuel : ℕ) (a : List ExpirationHandle) (i : ℕ) where
  round_root : i ≡ 0 → bubble_up_loop (suc fuel) a i ≡ a
  unfolding bubble_up_loop
  round_root e = ground arith

  module _ (x y : ExpirationHandle) (pos : 0 < i) (hx : get_elem? a i ≡ some x)
      (hy : get_elem? a (parent_index i) ≡ some y) where
    round_done : y.deadline ≤ x.deadline → bubble_up_loop (suc fuel) a i ≡ a
    unfolding bubble_up_loop
    round_done e = ground arith

    round_swap :
        x.deadline < y.deadline
        → bubble_up_loop (suc fuel) a i
          ≡ bubble_up_loop fuel (put_both a i y (parent_index i) x) (parent_index i)
    unfolding bubble_up_loop
    round_swap e = ground arith

bubble_up_loop-Restored :
    (fuel : ℕ) (a : List ExpirationHandle) (i : ℕ)
    → i ≤ fuel
    → IsRising a i
    → Restored a (bubble_up_loop fuel a i)
unfolding bubble_up_loop
bubble_up_loop-Restored zero a i f v = settle a i v (λ h. absurd (omega arith))
bubble_up_loop-Restored (suc fuel) a i f v = elim (ℕ_discrete i 0) [
  | yes root ↦ rw (round_root fuel a i root) (settle a i v (λ h. absurd (omega arith)))
  | no deeper ↦
      let p = parent_index i in
      let (x, hx, dx) = get_elem?-due a i v.inside in
      let (y, hy, dy) = get_elem?-due a p (omega (arith, v.inside)) in
      let pos : 0 < i = omega arith in
      elim (dec_lt x.deadline y.deadline) [
        | no done ↦
            rw (round_done fuel a i x y pos hx hy (omega arith))
              (settle a i v (λ h. omega (arith, dx, dy)))
        | yes late ↦
            let next = rise a i x y v pos hx hy dx dy (omega (arith, dx, dy)) in
            let r = bubble_up_loop-Restored fuel (put_both a i y p x) p (omega arith) next in
            let moved = put_both-Perm a i p x y hx hy (omega arith) in
            rw (round_swap fuel a i x y pos hx hy late)
              (record { ordered = r.ordered; same = Perm.trans r.same moved })
      ]
]

-- `heapPush` turns a heap into a heap of the same handles and the new one.
pub heap_push-IsHeap :
    (x : ExpirationHandle) (a : List ExpirationHandle)
    → IsHeap a
    → IsHeap (heap_push x a) × Perm (heap_push x a) (x ∷ a)
unfolding heap_push bubble_up
heap_push-IsHeap x a h =
    let b = a ++ x ∷ [] in
    let size : length b ≡ length a + 1 = length-append a (x ∷ []) in
    let r = bubble_up_loop-Restored (length b - 1) b (length b - 1) (omega arith) (record {
      inside = omega (arith, size);
      elsewhere = λ c p q ne.
          ground
            (arith, size, h c, due-append a (x ∷ []) c, due-append a (x ∷ []) (parent_index c));
      across = λ c q at_parent pos. absurd (omega (arith, size));
    }) in
    (r.ordered, Perm.trans r.same (rw (append-nil a) at (perm_middle {a = x} a [])))
