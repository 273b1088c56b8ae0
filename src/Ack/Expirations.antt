-- ===== src/Ack/Expirations.antt =====
-- The binary min-heap of deadlines in src/internal/delivery/AckTracker.ts, kept in an array. The
-- source never reads outside the array, and takes a missing deadline for positive infinity.
pub mod Order
pub mod Up
pub mod Down
pub mod Pop
use stream_fence_js.Prelude.{
  ℕ, zero, suc, ◌+◌, ◌-◌, ◌*◌, ◌/◌, Bool, true, false, String, Option, none, some, List, [], ◌∷◌,
  ◌++◌, length, get_elem?, set, ltb, leb, ◌==◌, if◌then◌else◌,
}

pub record ExpirationHandle : Type 0 where
  pub key : String
  pub deadline : ℕ
  pub generation : ℕ

unfoldable pub heap_peek : List ExpirationHandle → Option ExpirationHandle
heap_peek heap = get_elem? heap 0

abbrev pub parent_index : ℕ → ℕ
parent_index index = (index - 1) / 2

-- `heap[i] = y; heap[j] = x`
abbrev pub put_both :
    List ExpirationHandle → ℕ → ExpirationHandle → ℕ → ExpirationHandle → List ExpirationHandle
put_both heap i y j x = set (set heap i y) j x

-- The loop of `heapBubbleUp`; an index is above its parent's, so it is fuel enough.
unfoldable pub bubble_up_loop : ℕ → List ExpirationHandle → ℕ → List ExpirationHandle
bubble_up_loop zero heap index = heap
bubble_up_loop (suc fuel) heap index = if index == 0 then heap else elim (get_elem? heap index) [
  | none ↦ heap
  | some current ↦ elim (get_elem? heap (parent_index index)) [
    | none ↦ heap
    | some parent ↦ elim (leb parent.deadline current.deadline) [
      | true ↦ heap
      | false ↦
          bubble_up_loop fuel (put_both heap index parent (parent_index index) current)
            (parent_index index)
    ]
  ]
]

unfoldable pub bubble_up : List ExpirationHandle → ℕ → List ExpirationHandle
unfolding bubble_up_loop
bubble_up heap start_index = bubble_up_loop start_index heap start_index

-- `none` is the positive infinity of a missing entry.
abbrev pub deadline_at : List ExpirationHandle → ℕ → Option ℕ
deadline_at heap index = elim (get_elem? heap index) [ none ↦ none | some h ↦ some h.deadline ]

abbrev pub earlier : Option ℕ → Option ℕ → Bool
earlier none b = false
earlier (some a) none = true
earlier (some a) (some b) = ltb a b

-- One of the two tests of a round of `heapBubbleDown`.
unfoldable pub sooner : List ExpirationHandle → ℕ → ℕ → ℕ
sooner heap candidate smallest =
    if earlier (deadline_at heap candidate) (deadline_at heap smallest) then candidate else smallest

-- `smallestIndex` after both tests.
unfoldable pub smallest_index : List ExpirationHandle → ℕ → ℕ
unfolding sooner
smallest_index heap index =
    let left_index = index * 2 + 1 in
    let right_index = left_index + 1 in sooner heap right_index (sooner heap left_index index)

-- The loop of `heapBubbleDown`; the index grows in each round, so the length is fuel enough.
unfoldable pub bubble_down_loop : ℕ → List ExpirationHandle → ℕ → List ExpirationHandle
unfolding smallest_index
bubble_down_loop zero heap index = heap
bubble_down_loop (suc fuel) heap index =
    let smallest = smallest_index heap index in
    if smallest == index then heap else elim (get_elem? heap index) [
      | none ↦ heap
      | some current ↦ elim (get_elem? heap smallest) [
        | none ↦ heap
        | some least ↦ bubble_down_loop fuel (put_both heap index least smallest current) smallest
      ]
    ]

unfoldable pub bubble_down : List ExpirationHandle → ℕ → List ExpirationHandle
unfolding bubble_down_loop
bubble_down heap start_index = bubble_down_loop (length heap) heap start_index

unfoldable pub heap_push : ExpirationHandle → List ExpirationHandle → List ExpirationHandle
unfolding bubble_up
heap_push handle heap = let pushed = heap ++ handle ∷ [] in bubble_up pushed (length pushed - 1)

-- `Array.prototype.pop`
unfoldable pub pop_last {ℓ} : {A : Type ℓ} → List A → Option A × List A
pop_last [] = (none, [])
pop_last (x ∷ []) = (some x, [])
pop_last (x ∷ y ∷ rest) = let (last, left) = pop_last (y ∷ rest) in (last, x ∷ left)

-- `heapPop` with the array that `pop` left.
unfoldable pub heap_refill :
    Option ExpirationHandle
    → Option ExpirationHandle
    → List ExpirationHandle
    → Option ExpirationHandle × List ExpirationHandle
heap_refill none last heap = (none, heap)
heap_refill (some first) none heap = (some first, heap)
heap_refill (some first) (some last) heap =
    if length heap == 0 then (some first, heap) else (some first, bubble_down (set heap 0 last) 0)

unfoldable pub heap_pop : List ExpirationHandle → Option ExpirationHandle × List ExpirationHandle
unfolding heap_refill
heap_pop heap = let (last, left) = pop_last heap in heap_refill (get_elem? heap 0) last left
