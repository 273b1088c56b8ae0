-- ===== src/Tests/Lanes.antt =====
-- The theorems on ClientLane.ts at concrete lanes.
use stream_fence_js.Prelude.{
  ℕ, ◌<◌, ◌≡◌, inr, refl, true, false, String, some, List, [], ◌∷◌, arith, ◌==◌, length, ◌+◌, ◌≤◌,
}
use stream_fence_js.Policy.{OverflowAction, drop_oldest, coalesce, spill_to_disk}
use stream_fence_js.Message.{LaneEntry, Heap, coalesce_key, estimated_bytes}
use stream_fence_js.Lane.{
  Lane, result, accepted, rejected, fits, accept, enqueue, try_coalesce, drop_oldest_until_fits,
}
use stream_fence_js.Lane.Queue.{sum_bytes, find_pending, splice_by_id, has_key}
use stream_fence_js.Lane.Bounds.{IsAccounted, IsValid, enqueue-IsValid}
use stream_fence_js.Lane.Coalesce.{Replaces, try_coalesce-Replaces}
use stream_fence_js.Lane.DropOldest.{holding, Drops, drop_oldest_until_fits-Drops}
use stream_fence_js.Lane.Outcome.{HasOutcome, enqueue-Outcome}
use stream_fence_js.Lane.Actions.{Keeps, enqueue-Keeps, enqueue-no_key}
use stream_fence_js.Tests.Data.{disk, policy, one, two, three, four, idle, lane_of, full}

abbrev waiting : Lane disk
waiting = lane_of spill_to_disk false [] 0 (one ∷ two ∷ [])

-- One message in memory, and two on disk.
abbrev behind : Lane disk
behind = lane_of spill_to_disk false (one ∷ []) 4 (three ∷ four ∷ [])

-- The second and third messages on disk exceed the byte limit together.
abbrev heavy : Lane disk
heavy = record (lane_of spill_to_disk false [] 0 (one ∷ two ∷ three ∷ [])) {
  policy = record (policy spill_to_disk false) { max_queued_messages_per_client = 3 };
}

full-IsAccounted : (a : OverflowAction) → IsAccounted (full a false)
unfolding sum_bytes
full-IsAccounted a = refl

full-IsValid : IsValid (full drop_oldest false)
unfolding sum_bytes
full-IsValid = record { accounted = refl; messages = omega arith; bytes = omega arith }

enqueue-IsValid_example : IsValid (enqueue idle (full drop_oldest false) three).1
enqueue-IsValid_example =
    enqueue-IsValid idle (full drop_oldest false) three (omega arith) full-IsValid

enqueue-Outcome_example :
    HasOutcome idle (full drop_oldest false) three (enqueue idle (full drop_oldest false) three)
enqueue-Outcome_example =
    enqueue-Outcome idle (full drop_oldest false) three (full-IsAccounted drop_oldest) (omega arith)

enqueue-Keeps_example :
    Keeps idle (full spill_to_disk false) three (enqueue idle (full spill_to_disk false) three)
enqueue-Keeps_example = enqueue-Keeps idle (full spill_to_disk false) three (inr refl) refl

full_no_room : fits (full spill_to_disk false) 5 ≡ false
unfolding fits
full_no_room = refl

enqueue-no_key_example :
    let l = full coalesce false in
    ((length l.queue < l.policy.max_queued_messages_per_client
        × l.queued_bytes + estimated_bytes one ≤ l.policy.max_queued_bytes_per_client)
      → enqueue idle l one ≡ (result accepted "accepted", accept l one))
    × (¬ (
          length l.queue < l.policy.max_queued_messages_per_client
          × l.queued_bytes + estimated_bytes one ≤ l.policy.max_queued_bytes_per_client)
        → ((enqueue idle l one).0.status ≡ rejected) × ((enqueue idle l one).1 ≡ l))
enqueue-no_key_example = enqueue-no_key idle (full coalesce false) one refl refl

-- `three` takes the place of `two`, which has its key.
abbrev replaced : Lane disk
replaced = lane_of coalesce true (one ∷ three ∷ []) 9 []

full_coalesces : try_coalesce idle (full coalesce true) three ≡ some replaced
unfolding try_coalesce has_key
full_coalesces = refl

try_coalesce-Replaces_example :
    (key : String) × (coalesce_key three ≡ some key)
    × Replaces idle (full coalesce true) three key 2 replaced
try_coalesce-Replaces_example =
    try_coalesce-Replaces idle (full coalesce true) three replaced full_coalesces

drop_oldest_until_fits-Drops_example :
    (kept : List (LaneEntry ℕ)) × (drop_oldest_until_fits (full drop_oldest false) 5
      ≡ holding (full drop_oldest false) kept)
    × Drops (full drop_oldest false) 5 (one ∷ two ∷ []) kept
drop_oldest_until_fits-Drops_example =
    drop_oldest_until_fits-Drops (full drop_oldest false) 5 (full-IsAccounted drop_oldest)

behind-IsAccounted : IsAccounted behind
unfolding sum_bytes
behind-IsAccounted = refl

waiting-IsAccounted : IsAccounted waiting
unfolding sum_bytes
waiting-IsAccounted = refl

-- `one` is in flight.
abbrev sent : Heap
sent = record idle { cells = λ r. record { retry_count = 0; awaiting = r == 1 } }

sent_next : find_pending sent (one ∷ two ∷ []) ≡ some two
unfolding find_pending
sent_next = refl

sent_splice : splice_by_id "msg-1" (one ∷ two ∷ []) ≡ some (one, two ∷ [])
unfolding splice_by_id
sent_splice = refl
