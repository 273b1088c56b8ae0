-- ===== src/Lane/Refill.antt =====
-- `poll`, `firstPendingSend` and `refillFromDisk` of ClientLane.ts: entries that come back from disk.
use stream_fence_js.Prelude.{
  ◌+◌, ◌-◌, ◌≤◌, ◌≡◌, inl, inr, refl, ap, ◌∙◌, true, false, some, List, [], ◌∷◌, ◌++◌, length,
  Option-cases, List-cases, arith, length-append, append_assoc, append-nil,
}
use stream_fence_js.Message.{LaneEntry, Heap, estimated_bytes, set_awaiting}
use stream_fence_js.Spill.{SpillQueue}
use stream_fence_js.Lane.{
  Lane, accept, shift, recover, accept_all, refill_from_disk, has_spilled, poll_resume, poll,
}
use stream_fence_js.Lane.Queue.{sum_bytes}
use stream_fence_js.Lane.Bounds.{IsAccounted, sum_bytes-append}

module _ {P : Type 0} {Q : SpillQueue P} where
  -- The loop of `refillFromDisk` puts the recovered entries behind the queue, in their order.
  pub accept_all-queue :
      (l : Lane Q) (es : List (LaneEntry P))
      → accept_all l es
        ≡ record l { queue = l.queue ++ es; queued_bytes = l.queued_bytes + sum_bytes es }
  unfolding accept_all accept sum_bytes
  accept_all-queue l [] = ground (arith, append-nil l.queue)
  accept_all-queue l (e ∷ es) =
      accept_all-queue (accept l e) es ∙ ground (arith, append_assoc l.queue (e ∷ []) es)

  -- The lane keeps exact byte counts and at most the policy's number of messages.
  pub record IsCounted (l : Lane Q) : Type 0 where
    pub accounted : IsAccounted l
    pub messages : length l.queue ≤ l.policy.max_queued_messages_per_client

  -- Reading the disk changes nothing of the lane but its disk queue.
  recover-kept :
      (h : Heap) (l : Lane Q)
      → (length (recover h l).0 ≤ l.policy.max_queued_messages_per_client)
        × ((recover h l).2 ≡ record l { spill_queue = (recover h l).2.spill_queue })
  unfolding recover
  recover-kept h l = elim (Option-cases l.spill_queue) [
    | inl no_disk ↦ ground arith
    | inr (s, disk) ↦
        let max = l.policy.max_queued_messages_per_client in ground (arith, Q.recover-le max h s)
  ]

  -- `refillFromDisk` appends what it recovers, at most `maxQueuedMessagesPerClient` entries.
  pub refill_from_disk_lem :
      (h : Heap) (l : Lane Q)
      → (refill_from_disk h l).1 ≡ record l {
        queue = l.queue ++ (recover h l).0;
        queued_bytes = l.queued_bytes + sum_bytes (recover h l).0;
        spill_queue = (recover h l).2.spill_queue;
      }
  unfolding refill_from_disk
  refill_from_disk_lem h l =
      accept_all-queue (recover h l).2 (recover h l).0
      ∙ ap
          (λ (m : Lane Q). record m {
            queue = m.queue ++ (recover h l).0;
            queued_bytes = m.queued_bytes + sum_bytes (recover h l).0;
          })
          (recover-kept h l).1

  -- If the byte count is exact, a refill keeps it exact, and adds at most the policy's number of
  -- messages.
  pub refill_from_disk-IsAccounted :
      (h : Heap) (l : Lane Q)
      → IsAccounted l
      → IsAccounted (refill_from_disk h l).1
        × (length (refill_from_disk h l).1.queue
            ≤ length l.queue + l.policy.max_queued_messages_per_client)
  refill_from_disk-IsAccounted h l v = rw refill_from_disk_lem (
    omega (arith, v, sum_bytes-append l.queue (recover h l).0),
    omega (arith, length-append l.queue (recover h l).0, recover-kept h l),
  )

  shift-IsCounted :
      (h : Heap) (l : Lane Q) (q : List (LaneEntry P))
      → IsCounted (record l { queue = q })
      → IsCounted (shift h l q).2
  unfolding shift sum_bytes
  shift-IsCounted h l [] v = v
  shift-IsCounted h l (x ∷ q) v = ground arith

  poll_resume-IsCounted :
      (h : Heap) (l : Lane Q) → l.queue ≡ [] → IsAccounted l → IsCounted (poll_resume h l).2
  unfolding poll_resume
  poll_resume-IsCounted h l e v =
      let l' = (refill_from_disk h l).1 in
      let after = refill_from_disk-IsAccounted h l v in
      shift-IsCounted (refill_from_disk h l).0 l' l'.queue (record {
        accounted = after.0;
        messages = omega (
          arith,
          after.1,
          ap length e,
          ap (λ (m : Lane Q). m.policy.max_queued_messages_per_client) (refill_from_disk_lem h l),
        );
      })

  -- `poll` keeps the byte count exact and the number of messages within the policy, if they are
  -- so before.
  poll-IsCounted : (h : Heap) (l : Lane Q) → IsCounted l → IsCounted (poll h l).2
  unfolding poll
  poll-IsCounted h l v = elim (List-cases l.queue) [
    | inl empty ↦ ground (arith, poll_resume-IsCounted h l empty v.accounted)
    | inr (e, es, e∷es) ↦ ground (arith, shift-IsCounted h l (e ∷ es))
  ]

  recover-waiting :
      (h : Heap) (l : Lane Q) (s : Q.State) (es : List (LaneEntry P)) (h' : Heap) (s' : Q.State)
      → l.spill_queue ≡ some s
      → Q.has_spilled s ≡ true
      → Q.recover l.policy.max_queued_messages_per_client h s ≡ (es, h', s')
      → recover h l ≡ (es, h', record l { spill_queue = some s' })
  unfolding recover
  recover-waiting h l s es h' s' disk waiting read = rw (disk, recover) (rw waiting (rw read refl))

  poll_resume-waiting :
      (h : Heap) (l : Lane Q) (e : LaneEntry P) (es : List (LaneEntry P)) (h' : Heap) (l' : Lane Q)
      → recover h l ≡ (e ∷ es, h', l')
      → l'.queue ≡ []
      → l'.queued_bytes ≡ 0
      → poll_resume h l
        ≡ (some e, set_awaiting e false h', record l' { queue = es; queued_bytes = sum_bytes es })
  unfolding poll_resume refill_from_disk sum_bytes
  poll_resume-waiting h l e es h' l' read empty none_queued =
      let left : 0 + sum_bytes (e ∷ es) - estimated_bytes e ≡ sum_bytes es = omega arith in
      rw read (rw accept_all-queue (rw (empty, none_queued) (rw left)))

  poll-poll_resume :
      (h : Heap) (l : Lane Q) → l.queue ≡ [] → has_spilled l ≡ true → poll h l ≡ poll_resume h l
  unfolding poll
  poll-poll_resume h l empty waiting = ground arith

  has_spilled-waiting :
      (l : Lane Q) (s : Q.State)
      → l.spill_queue ≡ some s
      → Q.has_spilled s ≡ true
      → has_spilled l ≡ true
  unfolding has_spilled
  has_spilled-waiting l s disk waiting = ground arith

  -- On a lane with an empty queue, exact byte counts and spilled entries of which some are
  -- recovered, `poll` hands out the first of those, no longer awaiting, and queues all the others
  -- in their order, whatever their bytes.
  pub poll-refilled :
      (h : Heap) (l : Lane Q) (s : Q.State) (e : LaneEntry P) (es : List (LaneEntry P)) (h' : Heap)
      (s' : Q.State)
      → l.queue ≡ []
      → l.spill_queue ≡ some s
      → Q.has_spilled s ≡ true
      → Q.recover l.policy.max_queued_messages_per_client h s ≡ (e ∷ es, h', s')
      → IsAccounted l
      → poll h l ≡ (
        some e,
        set_awaiting e false h',
        record l { queue = es; queued_bytes = sum_bytes es; spill_queue = some s' },
      )
  unfolding sum_bytes
  poll-refilled h l s e es h' s' empty disk waiting read v =
      poll-poll_resume h l empty (has_spilled-waiting l s disk waiting)
      ∙ poll_resume-waiting h l e es h' (record l { spill_queue = some s' })
          (recover-waiting h l s (e ∷ es) h' s' disk waiting read) empty (v ∙ ap sum_bytes empty)
