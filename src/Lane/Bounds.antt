-- ===== src/Lane/Bounds.antt =====
-- The counters of ClientLane.ts against its queue, and the limits of its policy.
use stream_fence_js.Prelude.{
  ℕ, zero, suc, ◌+◌, ◌-◌, ◌<◌, ◌≤◌, ◌≡◌, inl, inr, Bool-cases, true, String, some, List, [], ◌∷◌,
  ◌++◌, length, get_elem?, set, Option-cases, arith, length-append, length-set,
}
use stream_fence_js.Policy.{OverflowAction, drop_oldest, spill_to_disk}
use stream_fence_js.Message.{LaneEntry, Heap, estimated_bytes}
use stream_fence_js.Spill.{SpillQueue}
use stream_fence_js.Lane.{
  Lane, fits, accept, replace_snapshot, try_coalesce, drop_oldest_loop, drop_oldest_until_fits,
  overflow, enqueue_fitting, enqueue_coalescing, enqueue, shift, remove_by_message_id,
}
use stream_fence_js.Lane.Queue.{sum_bytes, splice_by_id}
use stream_fence_js.Lane.Coalesce.{try_coalesce-Replaces}

module _ {P : Type 0} where
  pub sum_bytes-append :
      (xs ys : List (LaneEntry P)) → sum_bytes (xs ++ ys) ≡ sum_bytes xs + sum_bytes ys
  unfolding sum_bytes
  sum_bytes-append [] ys = omega arith
  sum_bytes-append (x ∷ xs) ys = omega (arith, sum_bytes-append xs ys)

  pub sum_bytes-set :
      (xs : List (LaneEntry P)) (i : ℕ) (e x : LaneEntry P)
      → get_elem? xs i ≡ some x
      → sum_bytes (set xs i e) + estimated_bytes x ≡ sum_bytes xs + estimated_bytes e
  unfolding sum_bytes
  sum_bytes-set [] i e x f = cc
  sum_bytes-set (y ∷ xs) zero e x f = ground arith
  sum_bytes-set (y ∷ xs) (suc i) e x f = omega (arith, sum_bytes-set xs i e x f)

  -- Taking an entry out of a queue takes its bytes and one place.
  pub splice_by_id-sum :
      (id : String) (xs : List (LaneEntry P)) (x : LaneEntry P) (kept : List (LaneEntry P))
      → splice_by_id id xs ≡ some (x, kept)
      → (sum_bytes xs ≡ estimated_bytes x + sum_bytes kept) × (length xs ≡ suc (length kept))
  unfolding splice_by_id sum_bytes
  splice_by_id-sum id [] x kept e = absurd (ground arith)
  splice_by_id-sum id (y ∷ xs) x kept e = elim (Option-cases (splice_by_id id xs)) [
    | inl missing ↦ ground arith
    | inr ((z, rest), found) ↦ ground (arith, splice_by_id-sum id xs z rest)
  ]

module _ {P : Type 0} {Q : SpillQueue P} where
  -- `queuedBytes` is the sum of the queued entries' sizes.
  abbrev pub IsAccounted : Lane Q → Type 0
  IsAccounted l = l.queued_bytes ≡ sum_bytes l.queue

  pub record IsValid (l : Lane Q) : Type 0 where
    pub accounted : IsAccounted l
    pub messages : length l.queue ≤ l.policy.max_queued_messages_per_client
    pub bytes : l.queued_bytes ≤ l.policy.max_queued_bytes_per_client

  pub accept-IsAccounted : (l : Lane Q) (e : LaneEntry P) → IsAccounted l → IsAccounted (accept l e)
  unfolding accept sum_bytes
  accept-IsAccounted l e v = omega (arith, v, sum_bytes-append l.queue (e ∷ []))

  pub accept-IsValid :
      (l : Lane Q) (e : LaneEntry P)
      → fits l (estimated_bytes e) ≡ true
      → IsValid l
      → IsValid (accept l e)
  unfolding fits accept sum_bytes
  accept-IsValid l e f v =
      ground (arith, sum_bytes-append l.queue (e ∷ []), length-append l.queue (e ∷ []))

  try_coalesce-IsValid :
      (h : Heap) (l : Lane Q) (e : LaneEntry P) (l' : Lane Q)
      → IsValid l
      → try_coalesce h l e ≡ some l'
      → IsValid l'
  try_coalesce-IsValid h l e l' v eq =
      let (key, _, r) = try_coalesce-Replaces h l e l' eq in
      rw r.result (record {
        accounted = omega (arith, v.accounted, sum_bytes-set l.queue r.index e r.old r.found);
        messages = rw length-set v.messages;
        bytes = r.within;
      })

  -- What `dropOldestUntilFits` leaves of a queue: the longest end of it after which `bytes` fit.
  pub drop_oldest_loop-IsValid :
      (l : Lane Q) (n : ℕ) (q : List (LaneEntry P)) (b : ℕ)
      → IsValid (record l { queue = q; queued_bytes = b })
      → IsValid (drop_oldest_loop l n q b)
  unfolding drop_oldest_loop sum_bytes
  drop_oldest_loop-IsValid l n [] b v = v
  drop_oldest_loop-IsValid l n (x ∷ q) b v =
      ground (arith, drop_oldest_loop-IsValid l n q (b - estimated_bytes x))

  drop_oldest_until_fits-IsValid :
      (l : Lane Q) (n : ℕ) → IsValid l → IsValid (drop_oldest_until_fits l n)
  unfolding drop_oldest_until_fits
  drop_oldest_until_fits-IsValid l n v = drop_oldest_loop-IsValid l n l.queue l.queued_bytes v

  overflow-IsValid :
      (a : OverflowAction) (h : Heap) (l : Lane Q) (e : LaneEntry P)
      → IsValid l
      → IsValid (overflow a h l e).1
  unfolding overflow
  overflow-IsValid drop_oldest h l e v =
      let dropped = drop_oldest_until_fits l (estimated_bytes e) in
      let valid = drop_oldest_until_fits-IsValid l (estimated_bytes e) v in
      elim (Bool-cases (fits dropped (estimated_bytes e))) [
        | inl room ↦ rw room (accept-IsValid dropped e room valid)
        | inr full ↦ rw full valid
      ]
  overflow-IsValid spill_to_disk h l e v = ground arith
  overflow-IsValid _ h l e v = v

  enqueue_fitting-IsValid :
      (h : Heap) (l : Lane Q) (e : LaneEntry P) → IsValid l → IsValid (enqueue_fitting h l e).1
  unfolding enqueue_fitting
  enqueue_fitting-IsValid h l e v = elim (Bool-cases (fits l (estimated_bytes e))) [
    | inl room ↦ rw room (accept-IsValid l e room v)
    | inr full ↦ rw full (overflow-IsValid l.policy.overflow_action h l e v)
  ]

  enqueue_coalescing-IsValid :
      (h : Heap) (l : Lane Q) (e : LaneEntry P) → IsValid l → IsValid (enqueue_coalescing h l e).1
  unfolding enqueue_coalescing
  enqueue_coalescing-IsValid h l e v =
      let plain = enqueue_fitting-IsValid h l e v in
      elim (Option-cases (try_coalesce h l e)) [
        | inl none_replaced ↦ ground arith
        | inr (l', replaced) ↦ ground (arith, try_coalesce-IsValid h l e l' v replaced)
      ]

  -- Every enqueue, on every branch, leaves a lane with exact byte counts and within both limits of
  -- its policy, if the lane was so before and the policy admits at least one message.
  pub enqueue-IsValid :
      (h : Heap) (l : Lane Q) (e : LaneEntry P)
      → 0 < l.policy.max_queued_messages_per_client
      → IsValid l
      → IsValid (enqueue h l e).1
  unfolding enqueue replace_snapshot accept sum_bytes
  enqueue-IsValid h l e room v = ground (arith, enqueue_coalescing-IsValid h l e v)

  shift-IsValid :
      (h : Heap) (l : Lane Q) (q : List (LaneEntry P))
      → IsValid (record l { queue = q })
      → IsValid (shift h l q).2
  unfolding shift sum_bytes
  shift-IsValid h l [] v = v
  shift-IsValid h l (x ∷ q) v = ground arith

  -- `removeByMessageId` keeps the byte count exact and both limits, if they hold before.
  remove_by_message_id-IsValid :
      (h : Heap) (l : Lane Q) (id : String) → IsValid l → IsValid (remove_by_message_id h l id).2
  unfolding remove_by_message_id
  remove_by_message_id-IsValid h l id v = elim (Option-cases (splice_by_id id l.queue)) [
    | inl missing ↦ rw (missing, remove_by_message_id) v
    | inr ((x, kept), found) ↦
        let counts = splice_by_id-sum id l.queue x kept found in
        rw (found, remove_by_message_id)
          (record {
            accounted = omega (arith, counts, v.accounted);
            messages = omega (arith, counts, v.messages);
            bytes = omega (arith, v.bytes);
          })
  ]
