-- ===== src/Lane/Actions.antt =====
-- `enqueue` of ClientLane.ts under each overflow action.
use stream_fence_js.Prelude.{
  ◌<◌, ◌≤◌, ◌≡◌, ◌⊎◌, inl, inr, Bool-cases, false, none, some, List, [], ◌∷◌, ◌++◌, ◌+◌, arith,
  length,
}
use stream_fence_js.Policy.{drop_oldest, reject_new, coalesce, spill_to_disk}
use stream_fence_js.Message.{LaneEntry, Heap, estimated_bytes, coalesce_key}
use stream_fence_js.Spill.{SpillQueue}
use stream_fence_js.Lane.{
  Lane, accepted, rejected, spilled, EnqueueResult, fits, accept, try_coalesce, overflow, result,
  spill_entry, enqueue_fitting, enqueue_coalescing, enqueue,
}
use stream_fence_js.Lane.Bounds.{IsAccounted}
use stream_fence_js.Lane.DropOldest.{drop_oldest_until_fits-Drops, Drops-fits}

module _ {P : Type 0} {Q : SpillQueue P} (h : Heap) (l : Lane Q) (e : LaneEntry P) where
  -- The result of `enqueue` keeps every queued entry: it has refused the new one, put it on disk, or
  -- appended it.
  abbrev pub Keeps : EnqueueResult × Lane Q → Type 0
  Keeps r =
      ((r.0.status ≡ rejected) × (r.1 ≡ l))
      ⊎ (((r.0.status ≡ spilled) × (r.1.queue ≡ l.queue) × (r.1.queued_bytes ≡ l.queued_bytes))
          ⊎ ((r.0.status ≡ accepted) × (r.1 ≡ accept l e)))

  -- Under the policies that AT_LEAST_ONCE namespaces may have (REJECT_NEW or SPILL_TO_DISK, no
  -- coalescing) no queued message is lost or moved: a message is refused and the lane unchanged, or
  -- spilled and the queue unchanged, or appended.
  pub enqueue-Keeps :
      (l.policy.overflow_action ≡ reject_new) ⊎ (l.policy.overflow_action ≡ spill_to_disk)
      → l.policy.coalesce ≡ false
      → Keeps (enqueue h l e)
  unfolding enqueue enqueue_coalescing enqueue_fitting overflow spill_entry
  enqueue-Keeps action plain = ground arith

  -- With SPILL_TO_DISK, no coalescing and a disk queue, a message within the byte limit that does
  -- not fit in memory goes to the disk queue, and nothing else of the lane changes.
  pub enqueue_spills :
      (s : Q.State)
      → l.policy.overflow_action ≡ spill_to_disk
      → l.policy.coalesce ≡ false
      → l.spill_queue ≡ some s
      → estimated_bytes e ≤ l.policy.max_queued_bytes_per_client
      → fits l (estimated_bytes e) ≡ false
      → enqueue h l e
        ≡ (result spilled "spilled to disk", record l { spill_queue = some (Q.spill h e s) })
  unfolding enqueue enqueue_coalescing enqueue_fitting overflow spill_entry
  enqueue_spills s action plain disk small full = ground arith

  -- With DROP_OLDEST and no coalescing, on a lane with exact byte counts whose policy admits a
  -- message, a message within the byte limit is the last of the queue after `enqueue`.
  enqueue_newest :
      l.policy.overflow_action ≡ drop_oldest
      → l.policy.coalesce ≡ false
      → IsAccounted l
      → 0 < l.policy.max_queued_messages_per_client
      → estimated_bytes e ≤ l.policy.max_queued_bytes_per_client
      → (kept : List (LaneEntry P)) × ((enqueue h l e).1.queue ≡ kept ++ e ∷ [])
  unfolding enqueue enqueue_coalescing enqueue_fitting overflow accept
  enqueue_newest action plain v room small = elim (Bool-cases (fits l (estimated_bytes e))) [
    | inl fitting ↦ (l.queue, ground arith)
    | inr full ↦
        let (kept, eq, d) = drop_oldest_until_fits-Drops l (estimated_bytes e) v in
        (kept, ground (arith, eq, Drops-fits l (estimated_bytes e) l.queue kept d room small))
  ]

  -- A message without a coalesce key is never coalesced: with the action COALESCE it is appended
  -- exactly if the queue has less messages than it may have and the bytes with it are within the
  -- limit, and otherwise it is refused and the lane left as it is.
  pub enqueue-no_key :
      l.policy.overflow_action ≡ coalesce
      → coalesce_key e ≡ none
      → ((length l.queue < l.policy.max_queued_messages_per_client
            × l.queued_bytes + estimated_bytes e ≤ l.policy.max_queued_bytes_per_client)
          → enqueue h l e ≡ (result accepted "accepted", accept l e))
        × (¬ (
              length l.queue < l.policy.max_queued_messages_per_client
              × l.queued_bytes + estimated_bytes e ≤ l.policy.max_queued_bytes_per_client)
            → ((enqueue h l e).0.status ≡ rejected) × ((enqueue h l e).1 ≡ l))
  unfolding enqueue enqueue_coalescing enqueue_fitting overflow try_coalesce fits
  enqueue-no_key action no_key =
      (λ room. ground (arith, room.0, room.1), λ full. refused (λ a b. full (a, b)))
    where
      refused :
          (length l.queue < l.policy.max_queued_messages_per_client
            → ¬ (l.queued_bytes + estimated_bytes e ≤ l.policy.max_queued_bytes_per_client))
          → ((enqueue h l e).0.status ≡ rejected) × ((enqueue h l e).1 ≡ l)
      refused full = ground arith
