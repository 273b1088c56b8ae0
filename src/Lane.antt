-- ===== src/Lane.antt =====
-- src/internal/delivery/ClientLane.ts: the queue of one client for one topic.
-- A method returns its result and the state it leaves. `poll` and `firstPendingSend` await the
-- disk; what they do after the wait is `poll_resume` and `refill`, so that a call made while they
-- wait can be put in between.
pub mod Queue
pub mod Coalesce
pub mod Bounds
pub mod Refill
pub mod DropOldest
pub mod Outcome
pub mod Actions
pub mod InFlight
pub mod Accounts
use stream_fence_js.Prelude.{
  ℕ, zero, suc, ◌+◌, ◌-◌, Bool, true, false, not, ◌||◌, String, Option, none, some, List, [], ◌∷◌,
  ◌++◌, length, get_elem?, set, ltb, leb, if◌then◌else◌,
}
use stream_fence_js.Policy.{
  TopicPolicy, OverflowAction, drop_oldest, reject_new, coalesce, snapshot_only, spill_to_disk,
}
use stream_fence_js.Message.{LaneEntry, Heap, estimated_bytes, coalesce_key, awaiting, set_awaiting}
use stream_fence_js.Spill.{SpillQueue}
use Queue.{has_key, find_pending, some_pending, splice_by_id, find_by_id, count_awaiting}

abbrev pub is_snapshot_only : OverflowAction → Bool
is_snapshot_only snapshot_only = true
is_snapshot_only _ = false

abbrev pub is_coalesce : OverflowAction → Bool
is_coalesce coalesce = true
is_coalesce _ = false

pub data EnqueueStatus : Type 0 where
  accepted coalesced dropped_oldest_and_accepted : EnqueueStatus
  replaced_snapshot rejected spilled : EnqueueStatus

pub record EnqueueResult : Type 0 where
  pub status : EnqueueStatus
  pub reason : String

abbrev pub result : EnqueueStatus → String → EnqueueResult
result status reason = record { status = status; reason = reason }

pub record Lane {P : Type 0} (Q : SpillQueue P) : Type 0 where
  pub policy : TopicPolicy
  pub queue : List (LaneEntry P)
  pub queued_bytes : ℕ
  pub spill_queue : Option Q.State

module _ {P : Type 0} {Q : SpillQueue P} where
  unfoldable pub fits : Lane Q → ℕ → Bool
  fits l entry_bytes =
      if leb l.policy.max_queued_messages_per_client (length l.queue)
      then false
      else leb (l.queued_bytes + entry_bytes) l.policy.max_queued_bytes_per_client

  unfoldable pub accept : Lane Q → LaneEntry P → Lane Q
  accept l entry = record l {
    queue = l.queue ++ entry ∷ [];
    queued_bytes = l.queued_bytes + estimated_bytes entry;
  }

  unfoldable pub replace_snapshot : Lane Q → LaneEntry P → Lane Q
  unfolding accept
  replace_snapshot l entry = accept (record l { queue = []; queued_bytes = 0 }) entry

  -- The `for` loop of `tryCoalesce`, at the indices below the last argument, from the top down.
  unfoldable pub coalesce_loop : Heap → Lane Q → LaneEntry P → String → ℕ → Option (Lane Q)
  unfolding has_key
  coalesce_loop h l entry key zero = none
  coalesce_loop h l entry key (suc index) =
      let rest = coalesce_loop h l entry key index in
      elim (get_elem? l.queue index) [
        | none ↦ rest
        | some existing ↦
            let next_bytes = l.queued_bytes + estimated_bytes entry - estimated_bytes existing in
            if awaiting h existing || not (has_key key existing)
            then rest
            else if ltb l.policy.max_queued_bytes_per_client next_bytes
            then none
            else some (record l { queue = set l.queue index entry; queued_bytes = next_bytes })
      ]

  unfoldable pub try_coalesce : Heap → Lane Q → LaneEntry P → Option (Lane Q)
  unfolding coalesce_loop
  try_coalesce h l entry = elim (coalesce_key entry) [
    | none ↦ none
    | some key ↦ coalesce_loop h l entry key (length l.queue)
  ]

  -- The loop of `dropOldestUntilFits`, over the queue that is left.
  unfoldable pub drop_oldest_loop : Lane Q → ℕ → List (LaneEntry P) → ℕ → Lane Q
  unfolding fits
  drop_oldest_loop l entry_bytes [] bytes = record l { queue = []; queued_bytes = bytes }
  drop_oldest_loop l entry_bytes (removed ∷ queue) bytes =
      let rest = drop_oldest_loop l entry_bytes queue (bytes - estimated_bytes removed) in
      let here : Lane Q = record l { queue = removed ∷ queue; queued_bytes = bytes } in
      if fits here entry_bytes then here else rest

  unfoldable pub drop_oldest_until_fits : Lane Q → ℕ → Lane Q
  unfolding drop_oldest_loop
  drop_oldest_until_fits l entry_bytes = drop_oldest_loop l entry_bytes l.queue l.queued_bytes

  -- The SPILL_TO_DISK case of `enqueue`, on the lane's disk queue.
  unfoldable pub spill_entry : Option Q.State → Heap → Lane Q → LaneEntry P → EnqueueResult × Lane Q
  spill_entry none h l entry = (result rejected "SPILL_TO_DISK: no spill queue configured", l)
  spill_entry (some s) h l entry =
      (result spilled "spilled to disk", record l { spill_queue = some (Q.spill h entry s) })

  -- The `switch` on the overflow action, for a message that does not fit.
  unfoldable pub overflow : OverflowAction → Heap → Lane Q → LaneEntry P → EnqueueResult × Lane Q
  unfolding fits drop_oldest_until_fits accept spill_entry
  overflow drop_oldest h l entry =
      let dropped = drop_oldest_until_fits l (estimated_bytes entry) in
      if fits dropped (estimated_bytes entry)
      then (
        result dropped_oldest_and_accepted "dropped oldest entries to accept new message",
        accept dropped entry,
      )
      else (result rejected "queue full after drop-oldest attempts", dropped)
  overflow reject_new h l entry = (result rejected "queue full with REJECT_NEW", l)
  overflow coalesce h l entry = (result rejected "queue full and no coalesce match", l)
  overflow spill_to_disk h l entry = spill_entry l.spill_queue h l entry
  overflow snapshot_only h l entry = (result rejected "queue full", l)

  -- `enqueue` after the snapshot and coalescing cases.
  unfoldable pub enqueue_fitting : Heap → Lane Q → LaneEntry P → EnqueueResult × Lane Q
  unfolding fits accept overflow
  enqueue_fitting h l entry =
      if fits l (estimated_bytes entry)
      then (result accepted "accepted", accept l entry)
      else overflow l.policy.overflow_action h l entry

  unfoldable pub enqueue_coalescing : Heap → Lane Q → LaneEntry P → EnqueueResult × Lane Q
  unfolding try_coalesce enqueue_fitting
  enqueue_coalescing h l entry =
      if l.policy.coalesce || is_coalesce l.policy.overflow_action
      then elim (try_coalesce h l entry) [
        | some l' ↦ (result coalesced "coalesced by key", l')
        | none ↦ enqueue_fitting h l entry
      ]
      else enqueue_fitting h l entry

  unfoldable pub enqueue : Heap → Lane Q → LaneEntry P → EnqueueResult × Lane Q
  unfolding replace_snapshot enqueue_coalescing
  enqueue h l entry =
      if ltb l.policy.max_queued_bytes_per_client (estimated_bytes entry)
      then (result rejected "message exceeds maxQueuedBytesPerClient", l)
      else if is_snapshot_only l.policy.overflow_action
      then (result replaced_snapshot "snapshot replaced", replace_snapshot l entry)
      else enqueue_coalescing h l entry

  -- `queue.shift()` with the bookkeeping of `poll` on the entry that it returns.
  unfoldable pub shift : Heap → Lane Q → List (LaneEntry P) → Option (LaneEntry P) × Heap × Lane Q
  shift h l [] = (none, h, record l { queue = [] })
  shift h l (entry ∷ queue) = (
    some entry,
    set_awaiting entry false h,
    record l { queue = queue; queued_bytes = l.queued_bytes - estimated_bytes entry },
  )

  unfoldable pub has_spilled : Lane Q → Bool
  has_spilled l = elim l.spill_queue [ none ↦ false | some s ↦ Q.has_spilled s ]

  -- The loop of `refillFromDisk` over the recovered entries.
  unfoldable pub accept_all : Lane Q → List (LaneEntry P) → Lane Q
  unfolding accept
  accept_all l [] = l
  accept_all l (entry ∷ recovered) = accept_all (accept l entry) recovered

  -- `await spillQueue.recover(…)`: what comes back, and the lane with its spill queue read.
  unfoldable pub recover : Heap → Lane Q → List (LaneEntry P) × Heap × Lane Q
  unfolding has_spilled
  recover h l = elim l.spill_queue [
    | none ↦ ([], h, l)
    | some s ↦
        let (recovered, h', s') = Q.recover l.policy.max_queued_messages_per_client h s in
        if Q.has_spilled s then (recovered, h', record l { spill_queue = some s' }) else ([], h, l)
  ]

  unfoldable pub refill_from_disk : Heap → Lane Q → Heap × Lane Q
  unfolding recover accept_all
  refill_from_disk h l = let (recovered, h', l') = recover h l in (h', accept_all l' recovered)

  -- `poll` once the disk has answered.
  unfoldable pub poll_resume : Heap → Lane Q → Option (LaneEntry P) × Heap × Lane Q
  unfolding shift refill_from_disk
  poll_resume h l = let (h', l') = refill_from_disk h l in shift h' l' l'.queue

  unfoldable pub poll : Heap → Lane Q → Option (LaneEntry P) × Heap × Lane Q
  unfolding shift has_spilled
  poll h l = elim l.queue [
    | [] ↦ if has_spilled l then poll_resume h l else (none, h, l)
    | entry ∷ queue ↦ shift h l (entry ∷ queue)
  ]

  unfoldable pub peek : Lane Q → Option (LaneEntry P)
  peek l = get_elem? l.queue 0

  unfoldable pub first_pending_send : Heap → Lane Q → Option (LaneEntry P) × Heap × Lane Q
  unfolding find_pending has_spilled refill_from_disk
  first_pending_send h l = elim (find_pending h l.queue) [
    | some found ↦ (some found, h, l)
    | none ↦
        let (h', l') = refill_from_disk h l in
        if has_spilled l then (find_pending h' l'.queue, h', l') else (none, h, l)
  ]

  unfoldable pub has_pending_send : Heap → Lane Q → Bool
  unfolding some_pending has_spilled
  has_pending_send h l = if some_pending h l.queue then true else has_spilled l

  unfoldable pub remove_by_message_id :
      Heap → Lane Q → String → Option (LaneEntry P) × Heap × Lane Q
  unfolding splice_by_id
  remove_by_message_id h l id = elim (splice_by_id id l.queue) [
    | none ↦ (none, h, l)
    | some (removed, kept) ↦ (
      some removed,
      set_awaiting removed false h,
      record l { queue = kept; queued_bytes = l.queued_bytes - estimated_bytes removed },
    )
  ]

  unfoldable pub find_by_message_id : Lane Q → String → Option (LaneEntry P)
  unfolding find_by_id
  find_by_message_id l id = find_by_id id l.queue

  unfoldable pub in_flight_count : Heap → Lane Q → ℕ
  unfolding count_awaiting
  in_flight_count h l = count_awaiting h l.queue

  unfoldable pub clear_spill : Lane Q → Lane Q
  clear_spill l = elim l.spill_queue [
    | none ↦ l
    | some s ↦ record l { spill_queue = some (Q.clear s) }
  ]
