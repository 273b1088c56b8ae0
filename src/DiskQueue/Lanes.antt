-- ===== src/DiskQueue/Lanes.antt =====
-- A lane of ClientLane.ts over the disk queue of DiskSpillQueue.ts.
use stream_fence_js.Prelude.{
  ℕ, suc, ◌≤◌, ◌≡◌, sym, ap, ◌∙◌, true, false, some, List, [], ◌∷◌, ◌++◌, length, arith, pos, lt_ℤ,
  ok_injective, ltb,
}
use stream_fence_js.Message.{LaneEntry, Heap, set_awaiting, estimated_bytes}
use stream_fence_js.Spill.{SpillQueue}
use stream_fence_js.Spill.Entry.{SpilledEntryData, serialize}
use stream_fence_js.Policy.{spill_to_disk}
use stream_fence_js.Lane.{Lane, poll, enqueue, fits, result, spilled}
use stream_fence_js.Lane.Actions.{enqueue_spills}
use stream_fence_js.Lane.Queue.{sum_bytes}
use stream_fence_js.Lane.Bounds.{IsAccounted}
use stream_fence_js.Lane.Refill.{poll-refilled}
use stream_fence_js.DiskQueue
use stream_fence_js.DiskQueue.{FileSystem, Json, DiskSpillQueue, take, has_spilled, spilled_count}
use stream_fence_js.DiskQueue.Reliable.{IsReliable}
use stream_fence_js.DiskQueue.Contents.{drop, revive}
use stream_fence_js.DiskQueue.Calls.{Represents, revived, CanStore, spilling}
use stream_fence_js.DiskQueue.Writing.{spill-Represents}
use stream_fence_js.DiskQueue.Reopening.{recover-Represents}
use stream_fence_js.DiskQueue.Fifo.{counted}
use stream_fence_js.DiskQueue.Interface.{disk_spill_queue, recover-disk_spill_queue}

module _ {P : Type 0} {f : FileSystem} (j : Json P) (r : IsReliable f) where
  abbrev pub lane_disk : SpillQueue P
  lane_disk = disk_spill_queue f j (λ disk. ((r.lists disk).0, (r.lists disk).1))

  has_spilled-waiting :
      (hi : ℕ) (t : SpilledEntryData P) (ts : List (SpilledEntryData P)) (q : DiskSpillQueue f)
      → Represents j hi (t ∷ ts) q
      → has_spilled q ≡ true
  unfolding has_spilled spilled_count
  has_spilled-waiting hi t ts q v =
      ap (lt_ℤ (pos 0)) (counted j r hi (t ∷ ts) q v) ∙ positive (length ts)
    where
      positive : (n : ℕ) → ltb 0 (suc n) ≡ true
      positive n = ground arith

  -- On a lane with exact byte counts, an empty queue and entries in its disk queue, over a reliable
  -- file system and with numbers of at most eight digits, `poll` hands out the entry that was spilled
  -- first; the next ones, up to the policy's number of messages with it, are the lane's queue in the
  -- order in which they were spilled, and the others stay on disk.
  pub poll-recovered :
      (h : Heap) (l : Lane lane_disk) (q : DiskSpillQueue f) (hi n : ℕ) (t : SpilledEntryData P)
      (ts : List (SpilledEntryData P))
      → l.queue ≡ []
      → l.spill_queue ≡ some q
      → l.policy.max_queued_messages_per_client ≡ suc n
      → Represents j hi (t ∷ ts) q
      → hi ≤ 100000000
      → IsAccounted l
      → let (e, h') = revive t h in
        let (es, h'') = revived (take n ts) h' in
        (q' : DiskSpillQueue f) × (poll h l ≡ (
          some e,
          set_awaiting e false h'',
          record l { queue = es; queued_bytes = sum_bytes es; spill_queue = some q' },
        ))
        × Represents j hi (drop n ts) q'
  poll-recovered h l q hi n t ts empty disk limit v small exact =
      let (q', read, v') = recover-Represents j r hi (t ∷ ts) q (suc n) h v small in
      let (e, h') = revive t h in
      let (es, h'') = revived (take n ts) h' in
      let recovered : lane_disk.recover (suc n) h q ≡ (e ∷ es, h'', q') = ok_injective (
        sym
          (recover-disk_spill_queue f j (λ disk. ((r.lists disk).0, (r.lists disk).1)) (suc n) h q)
        ∙ read) in
      (
        q',
        poll-refilled h l q e es h'' q' empty disk (has_spilled-waiting hi t ts q v)
            (ap (λ max. lane_disk.recover max h q) limit ∙ recovered) exact,
        v',
      )

  -- A message that `enqueue` spills is the last of the entries that the disk queue holds.
  enqueue-Represents :
      (h : Heap) (l : Lane lane_disk) (e : LaneEntry P) (q : DiskSpillQueue f) (hi : ℕ)
      (ds : List (SpilledEntryData P))
      → l.policy.overflow_action ≡ spill_to_disk
      → l.policy.coalesce ≡ false
      → l.spill_queue ≡ some q
      → estimated_bytes e ≤ l.policy.max_queued_bytes_per_client
      → fits l (estimated_bytes e) ≡ false
      → Represents j hi ds q
      → CanStore j (spilling h e)
      → (enqueue h l e ≡ (
        result spilled "spilled to disk",
        record l { spill_queue = some (DiskQueue.spill j h e q) },
      ))
        × Represents j (suc hi) (ds ++ serialize h e ∷ []) (DiskQueue.spill j h e q)
  enqueue-Represents h l e q hi ds action plain disk small full v stores =
      (enqueue_spills h l e q action plain disk small full, spill-Represents j hi ds q h e v stores)
