-- ===== src/Lane/Queue.antt =====
-- The array methods that ClientLane.ts calls on its queue of entries.
use stream_fence_js.Prelude.{
  ℕ, ◌+◌, Bool, true, false, not, ◌||◌, String, Option, none, some, List, [], ◌∷◌, str_eq,
  if◌then◌else◌,
}
use stream_fence_js.Message.{
  LaneEntry, Heap, coalesce_key, message_id, estimated_bytes, awaiting, set_awaiting,
}

module _ {P : Type 0} where
  unfoldable pub has_key : String → LaneEntry P → Bool
  has_key key e = elim (coalesce_key e) [ none ↦ false | some k ↦ str_eq k key ]

  -- `queue.find((entry) => !entry.awaiting)`
  unfoldable pub find_pending : Heap → List (LaneEntry P) → Option (LaneEntry P)
  find_pending h [] = none
  find_pending h (entry ∷ queue) = if awaiting h entry then find_pending h queue else some entry

  unfoldable pub some_pending : Heap → List (LaneEntry P) → Bool
  some_pending h [] = false
  some_pending h (entry ∷ queue) = not (awaiting h entry) || some_pending h queue

  unfoldable pub mark_awaiting : Heap → LaneEntry P → Heap
  mark_awaiting h entry = if awaiting h entry then h else set_awaiting entry true h

  -- `findIndex` and `splice`: the first entry with the id, and the others.
  unfoldable pub splice_by_id :
      String → List (LaneEntry P) → Option (LaneEntry P × List (LaneEntry P))
  splice_by_id id [] = none
  splice_by_id id (entry ∷ queue) =
      if str_eq (message_id entry) id then some (entry, queue) else elim (splice_by_id id queue) [
        | none ↦ none
        | some (removed, kept) ↦ some (removed, entry ∷ kept)
      ]

  unfoldable pub find_by_id : String → List (LaneEntry P) → Option (LaneEntry P)
  find_by_id id [] = none
  find_by_id id (entry ∷ queue) =
      if str_eq (message_id entry) id then some entry else find_by_id id queue

  unfoldable pub count_awaiting : Heap → List (LaneEntry P) → ℕ
  count_awaiting h [] = 0
  count_awaiting h (entry ∷ queue) =
      let rest = count_awaiting h queue in if awaiting h entry then rest + 1 else rest

  -- The bytes that the entries of a queue hold together.
  unfoldable pub sum_bytes : List (LaneEntry P) → ℕ
  sum_bytes [] = 0
  sum_bytes (entry ∷ queue) = estimated_bytes entry + sum_bytes queue
