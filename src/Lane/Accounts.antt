-- ===== src/Lane/Accounts.antt =====
-- The byte counter of ClientLane.ts, whatever the limits and the fill of the lane are.
use stream_fence_js.Prelude.{
  ◌≡◌, inl, inr, refl, Bool-cases, String, some, List, [], ◌∷◌, Option-cases, arith,
}
use stream_fence_js.Policy.{OverflowAction, drop_oldest, spill_to_disk}
use stream_fence_js.Message.{LaneEntry, Heap, estimated_bytes}
use stream_fence_js.Spill.{SpillQueue}
use stream_fence_js.Lane.{
  Lane, fits, accept, replace_snapshot, try_coalesce, drop_oldest_until_fits, overflow,
  enqueue_fitting, enqueue_coalescing, enqueue, shift, poll_resume, refill_from_disk,
  remove_by_message_id, clear_spill,
}
use stream_fence_js.Lane.Queue.{sum_bytes, splice_by_id}
use stream_fence_js.Lane.Bounds.{IsAccounted, accept-IsAccounted, sum_bytes-set, splice_by_id-sum}
use stream_fence_js.Lane.Coalesce.{try_coalesce-Replaces}
use stream_fence_js.Lane.DropOldest.{drop_oldest_until_fits-Drops}
use stream_fence_js.Lane.Refill.{refill_from_disk-IsAccounted}

module _ {P : Type 0} {Q : SpillQueue P} where
  try_coalesce-IsAccounted :
      (h : Heap) (l : Lane Q) (e : LaneEntry P) (l' : Lane Q)
      → IsAccounted l
      → try_coalesce h l e ≡ some l'
      → IsAccounted l'
  try_coalesce-IsAccounted h l e l' v eq =
      let (key, _, r) = try_coalesce-Replaces h l e l' eq in
      rw r.result (omega (arith, v, sum_bytes-set l.queue r.index e r.old r.found))

  drop_oldest_until_fits-IsAccounted :
      (l : Lane Q) (e : LaneEntry P)
      → IsAccounted l
      → IsAccounted (drop_oldest_until_fits l (estimated_bytes e))
  drop_oldest_until_fits-IsAccounted l e v =
      let (kept, held, _) = drop_oldest_until_fits-Drops l (estimated_bytes e) v in rw held refl

  overflow-IsAccounted :
      (a : OverflowAction) (h : Heap) (l : Lane Q) (e : LaneEntry P)
      → IsAccounted l
      → IsAccounted (overflow a h l e).1
  unfolding overflow
  overflow-IsAccounted drop_oldest h l e v =
      let dropped = drop_oldest_until_fits l (estimated_bytes e) in
      let exact = drop_oldest_until_fits-IsAccounted l e v in
      elim (Bool-cases (fits dropped (estimated_bytes e))) [
        | inl room ↦ rw room (accept-IsAccounted dropped e exact)
        | inr full ↦ rw full exact
      ]
  overflow-IsAccounted spill_to_disk h l e v = ground arith
  overflow-IsAccounted _ h l e v = v

  enqueue_fitting-IsAccounted :
      (h : Heap) (l : Lane Q) (e : LaneEntry P)
      → IsAccounted l
      → IsAccounted (enqueue_fitting h l e).1
  unfolding enqueue_fitting
  enqueue_fitting-IsAccounted h l e v = elim (Bool-cases (fits l (estimated_bytes e))) [
    | inl room ↦ rw room (accept-IsAccounted l e v)
    | inr full ↦ rw full (overflow-IsAccounted l.policy.overflow_action h l e v)
  ]

  enqueue_coalescing-IsAccounted :
      (h : Heap) (l : Lane Q) (e : LaneEntry P)
      → IsAccounted l
      → IsAccounted (enqueue_coalescing h l e).1
  unfolding enqueue_coalescing
  enqueue_coalescing-IsAccounted h l e v =
      let plain = enqueue_fitting-IsAccounted h l e v in
      elim (Option-cases (try_coalesce h l e)) [
        | inl none_replaced ↦ ground arith
        | inr (l', replaced) ↦ ground (arith, try_coalesce-IsAccounted h l e l' v replaced)
      ]

  -- Every enqueue keeps the byte count exact.
  pub enqueue-IsAccounted :
      (h : Heap) (l : Lane Q) (e : LaneEntry P) → IsAccounted l → IsAccounted (enqueue h l e).1
  unfolding enqueue replace_snapshot accept sum_bytes
  enqueue-IsAccounted h l e v = ground (arith, enqueue_coalescing-IsAccounted h l e v)

  -- So does taking the first entry.
  pub shift-IsAccounted :
      (h : Heap) (l : Lane Q) (q : List (LaneEntry P))
      → l.queue ≡ q
      → IsAccounted l
      → IsAccounted (shift h l q).2
  unfolding shift sum_bytes
  shift-IsAccounted h l [] same v = ground arith
  shift-IsAccounted h l (e ∷ q) same v = ground arith

  pub poll_resume-IsAccounted :
      (h : Heap) (l : Lane Q) → IsAccounted l → IsAccounted (poll_resume h l).2
  unfolding poll_resume
  poll_resume-IsAccounted h l v =
      let r = refill_from_disk h l in
      shift-IsAccounted r.0 r.1 r.1.queue refl (refill_from_disk-IsAccounted h l v).0

  pub remove_by_message_id-IsAccounted :
      (h : Heap) (l : Lane Q) (id : String)
      → IsAccounted l
      → IsAccounted (remove_by_message_id h l id).2
  unfolding remove_by_message_id
  remove_by_message_id-IsAccounted h l id v = elim (Option-cases (splice_by_id id l.queue)) [
    | inl missing ↦ rw (missing, remove_by_message_id) v
    | inr ((x, kept), found) ↦
        rw (found, remove_by_message_id)
          (omega (arith, splice_by_id-sum id l.queue x kept found, v))
  ]

  pub clear_spill-IsAccounted : (l : Lane Q) → IsAccounted l → IsAccounted (clear_spill l)
  unfolding clear_spill
  clear_spill-IsAccounted l v = ground arith
