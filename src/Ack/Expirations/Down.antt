-- ===== src/Ack/Expirations/Down.antt =====
-- `heapBubbleDown` and `heapPop` of AckTracker.ts.
use mathlib.Core.List.Perm
use native.Mathlib.Decide.{ℕ_discrete, dec_lt}
use stream_fence_js.Prelude.{
  ℕ, zero, suc, ◌+◌, ◌*◌, ◌<◌, ◌≤◌, ◌≡◌, ◌≢◌, ◌⊎◌, sym, List, none, some, length, get_elem?, arith,
}
use stream_fence_js.Ack.Expirations.{
  ExpirationHandle, parent_index, put_both, deadline_at, sooner, smallest_index, bubble_down_loop,
  bubble_down,
}
use stream_fence_js.Ack.Expirations.Order.{
  due, Restored, get_elem?-due, get_elem?-past, put_both-Perm, due-put_both, length-put_both,
}

-- Only the edges below `i` may be out of order.
pub record IsSinking (a : List ExpirationHandle) (i : ℕ) : Type 0 where
  pub elsewhere :
      (c : ℕ) → 0 < c → c < length a → parent_index c ≢ i → due a (parent_index c) ≤ due a c
  pub across :
      (c : ℕ) → c < length a → parent_index c ≡ i → 0 < i → due a (parent_index i) ≤ due a c

-- `m` is due no later than any child of `i`: it is `i` itself, or a child that is due before `i`.
record IsSmallest (a : List ExpirationHandle) (i m : ℕ) : Type 0 where
  inside : m < length a
  choice : (m ≡ i) ⊎ ((parent_index m ≡ i) × (0 < m) × (i < m) × (due a m < due a i))
  least : (c : ℕ) → 0 < c → c < length a → parent_index c ≡ i → due a m ≤ due a c

deadline_at-due :
    (a : List ExpirationHandle) (i : ℕ) → i < length a → deadline_at a i ≡ some (due a i)
deadline_at-due a i h = let (x, e, d) = get_elem?-due a i h in ground arith

deadline_at-past : (a : List ExpirationHandle) (i : ℕ) → length a ≤ i → deadline_at a i ≡ none
deadline_at-past a i h = ground (arith, get_elem?-past a i h)

-- What one test chooses between a candidate and the smallest so far.
record IsSooner (a : List ExpirationHandle) (c s r : ℕ) : Type 0 where
  inside : r < length a
  choice : (r ≡ s) ⊎ ((r ≡ c) × (due a c < due a s))
  before : (due a r ≤ due a s) × (c < length a → due a r ≤ due a c)

sooner-IsSooner :
    (a : List ExpirationHandle) (c s : ℕ) → s < length a → IsSooner a c s (sooner a c s)
unfolding sooner
sooner-IsSooner a c s h = elim (dec_lt c (length a)) [
  | yes p ↦ ground (arith, deadline_at-due a c p, deadline_at-due a s h)
  | no p ↦ ground (arith, deadline_at-past a c (omega arith), deadline_at-due a s h)
]

smallest_index-IsSmallest :
    (a : List ExpirationHandle) (i : ℕ) → i < length a → IsSmallest a i (smallest_index a i)
unfolding smallest_index
smallest_index-IsSmallest a i h =
    let m = sooner a (i * 2 + 1) i in
    let first = sooner-IsSooner a (i * 2 + 1) i h in
    let second = sooner-IsSooner a (i * 2 + 1 + 1) m first.inside in
    combine (sooner a (i * 2 + 1 + 1) m) m first second
  where
    combine :
        (r m : ℕ) → IsSooner a (i * 2 + 1) i m → IsSooner a (i * 2 + 1 + 1) m r → IsSmallest a i r
    combine r m first second = record {
      inside = second.inside;
      choice = ground (arith, first.choice, second.choice);
      least = λ c p q e. elim (ℕ_discrete c (i * 2 + 1)) [
        | yes left ↦ rw left (omega (arith, first.before.1 (omega arith), second.before.0))
        | no other ↦
            let right : c ≡ i * 2 + 1 + 1 = omega arith in rw right (second.before.1 (omega arith))
      ];
    }

sink :
    (a : List ExpirationHandle) (i m : ℕ) (x y : ExpirationHandle)
    → i < length a
    → IsSinking a i
    → IsSmallest a i m
    → m ≢ i
    → get_elem? a i ≡ some x
    → get_elem? a m ≡ some y
    → x.deadline ≡ due a i
    → y.deadline ≡ due a m
    → IsSinking (put_both a i y m x) m
sink a i m x y hi v s ne hx hy dx dy =
    let at = λ (c : ℕ). due-put_both a i m x y hx hy c hi s.inside in
    let size = length-put_both a i m x y hx hy in
    record {
      elsewhere = λ c p q other.
          ground (arith, size, at c, at (parent_index c), v.elsewhere c, v.across m, s.least c);
      across = λ c q at_parent pos. ground (arith, size, at c, at (parent_index m), v.elsewhere c);
    }

stay :
    (a : List ExpirationHandle) (i m : ℕ) → IsSinking a i → IsSmallest a i m → m ≡ i → Restored a a
stay a i m v s e = record {
  ordered = λ c p q. ground (arith, v.elsewhere c p q, s.least c p q);
  same = Perm.rfl;
}

-- One round of the loop.
module _ (fuel : ℕ) (a : List ExpirationHandle) (i : ℕ) where
  round_stays : smallest_index a i ≡ i → bubble_down_loop (suc fuel) a i ≡ a
  unfolding bubble_down_loop
  round_stays e = ground arith

  round_swaps :
      (x y : ExpirationHandle)
      → smallest_index a i ≢ i
      → get_elem? a i ≡ some x
      → get_elem? a (smallest_index a i) ≡ some y
      → bubble_down_loop (suc fuel) a i
        ≡ bubble_down_loop fuel (put_both a i y (smallest_index a i) x) (smallest_index a i)
  unfolding bubble_down_loop
  round_swaps x y ne hx hy = ground arith

bubble_down_loop-Restored :
    (fuel : ℕ) (a : List ExpirationHandle) (i : ℕ)
    → i < length a
    → length a ≤ i + fuel
    → IsSinking a i
    → Restored a (bubble_down_loop fuel a i)
bubble_down_loop-Restored zero a i h f v = absurd (omega arith)
bubble_down_loop-Restored (suc fuel) a i h f v =
    let m = smallest_index a i in
    let s = smallest_index-IsSmallest a i h in
    let (x, hx, dx) = get_elem?-due a i h in
    let (y, hy, dy) = get_elem?-due a m s.inside in
    elim (ℕ_discrete m i) [
      | yes e ↦ rw (round_stays fuel a i e) (stay a i m v s e)
      | no ne ↦
          let b = put_both a i y m x in
          let size = length-put_both a i m x y hx hy in
          let r =
            bubble_down_loop-Restored fuel b m (omega (arith, size, s.inside))
              (omega (arith, size, s.choice)) (sink a i m x y h v s ne hx hy dx dy) in
          rw (round_swaps fuel a i x y ne hx hy) (record {
            ordered = r.ordered;
            same = Perm.trans r.same (put_both-Perm a i m x y hx hy (λ e. ne (sym e)));
          })
    ]

-- `heapBubbleDown` mends a heap of which only the root may be due too late.
pub bubble_down-Restored :
    (a : List ExpirationHandle) → 0 < length a → IsSinking a 0 → Restored a (bubble_down a 0)
unfolding bubble_down
bubble_down-Restored a h v = bubble_down_loop-Restored (length a) a 0 h (omega arith) v
