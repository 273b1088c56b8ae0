-- ===== src/Lane/Outcome.antt =====
-- What `enqueue` of ClientLane.ts promises, by the status that it returns.
use stream_fence_js.Prelude.{
  ℕ, ◌<◌, ◌≤◌, ◌≡◌, inl, inr, refl, ap, Bool-cases, true, false, String, Option, none, some, List,
  [], ◌∷◌, ◌++◌, ◌||◌, length, length-append, arith, Option-cases, ltb,
}
use stream_fence_js.Policy.{
  OverflowAction, drop_oldest, reject_new, coalesce, snapshot_only, spill_to_disk,
}
use stream_fence_js.Message.{LaneEntry, Heap, estimated_bytes, coalesce_key}
use stream_fence_js.Spill.{SpillQueue}
use stream_fence_js.Lane.{
  Lane, EnqueueStatus, accepted, coalesced, dropped_oldest_and_accepted, replaced_snapshot,
  rejected, spilled, EnqueueResult, fits, accept, replace_snapshot, try_coalesce, spill_entry,
  overflow, enqueue_fitting, enqueue_coalescing, enqueue, is_coalesce, is_snapshot_only,
}
use stream_fence_js.Lane.Bounds.{IsAccounted}
use stream_fence_js.Lane.Coalesce.{Replaces, try_coalesce-Replaces}
use stream_fence_js.Lane.DropOldest.{holding, Drops, drop_oldest_until_fits-Drops, Drops-fits}

module _ {P : Type 0} {Q : SpillQueue P} where
  -- The lane that `enqueue h l e` leaves, by status.
  pub data Outcome (h : Heap) (l : Lane Q) (e : LaneEntry P) : EnqueueStatus → Lane Q → Type 0 where
    -- nothing changes
    on_rejected : {l' : Lane Q} → l' ≡ l → Outcome h l e rejected l'
    -- the entry goes to the end
    on_accepted :
        {l' : Lane Q}
        → fits l (estimated_bytes e) ≡ true
        → l'.queue ≡ l.queue ++ e ∷ []
        → Outcome h l e accepted l'
    -- the entry takes the place of one with its key that is not in flight
    on_coalesced :
        {l' : Lane Q}
        → (key : String) → coalesce_key e ≡ some key
        → Replaces h l e key (length l.queue) l'
        → Outcome h l e coalesced l'
    -- as few as possible of the oldest entries go, at least one, and the entry goes to the end
    on_dropped :
        {l' : Lane Q} (kept : List (LaneEntry P))
        → Drops l (estimated_bytes e) l.queue kept
        → length kept < length l.queue
        → l'.queue ≡ kept ++ e ∷ []
        → Outcome h l e dropped_oldest_and_accepted l'
    -- the entry is the whole queue
    on_replaced : {l' : Lane Q} → l'.queue ≡ e ∷ [] → Outcome h l e replaced_snapshot l'
    -- the entry goes to disk, and the queue stays
    on_spilled :
        {l' : Lane Q} (s : Q.State)
        → l.spill_queue ≡ some s
        → l' ≡ record l { spill_queue = some (Q.spill h e s) }
        → Outcome h l e spilled l'

  abbrev pub HasOutcome : Heap → Lane Q → LaneEntry P → EnqueueResult × Lane Q → Type 0
  HasOutcome h l e r = Outcome h l e r.0.status r.1

  dropped-longer :
      (l : Lane Q) (n : ℕ) (kept : List (LaneEntry P))
      → IsAccounted l
      → Drops l n l.queue kept
      → fits l n ≡ false
      → fits (holding l kept) n ≡ true
      → length kept < length l.queue
  unfolding fits
  dropped-longer l n kept v d full room = at d.dropped d.split
    where
      at : (ds : List (LaneEntry P)) → ds ++ kept ≡ l.queue → length kept < length l.queue
      at [] e = ground arith
      at (x ∷ ds) e = omega (arith, length-append (x ∷ ds) kept, ap length e)

  spill_entry-Outcome :
      (h : Heap) (l : Lane Q) (e : LaneEntry P) (o : Option Q.State)
      → l.spill_queue ≡ o
      → HasOutcome h l e (spill_entry o h l e)
  unfolding spill_entry
  spill_entry-Outcome h l e none disk = on_rejected refl
  spill_entry-Outcome h l e (some s) disk = on_spilled s disk refl

  overflow-Outcome :
      (a : OverflowAction) (h : Heap) (l : Lane Q) (e : LaneEntry P)
      → IsAccounted l
      → 0 < l.policy.max_queued_messages_per_client
      → estimated_bytes e ≤ l.policy.max_queued_bytes_per_client
      → fits l (estimated_bytes e) ≡ false
      → HasOutcome h l e (overflow a h l e)
  unfolding overflow
  overflow-Outcome drop_oldest h l e v room small full =
      let (kept, eq, d) = drop_oldest_until_fits-Drops l (estimated_bytes e) v in
      let fitting = Drops-fits l (estimated_bytes e) l.queue kept d room small in
      rw eq (
        rw fitting
          (on_dropped kept d (dropped-longer l (estimated_bytes e) kept v d full fitting) refl))
  overflow-Outcome spill_to_disk h l e v room small full =
      spill_entry-Outcome h l e l.spill_queue refl
  overflow-Outcome reject_new h l e v room small full = on_rejected refl
  overflow-Outcome coalesce h l e v room small full = on_rejected refl
  overflow-Outcome snapshot_only h l e v room small full = on_rejected refl

  enqueue_fitting-Outcome :
      (h : Heap) (l : Lane Q) (e : LaneEntry P)
      → IsAccounted l
      → 0 < l.policy.max_queued_messages_per_client
      → estimated_bytes e ≤ l.policy.max_queued_bytes_per_client
      → HasOutcome h l e (enqueue_fitting h l e)
  unfolding enqueue_fitting
  enqueue_fitting-Outcome h l e v room small = elim (Bool-cases (fits l (estimated_bytes e))) [
    | inl fitting ↦ rw (fitting, enqueue_fitting) (on_accepted fitting refl)
    | inr full ↦
        rw (full, enqueue_fitting)
          (overflow-Outcome l.policy.overflow_action h l e v room small full)
  ]

  enqueue_coalescing-Outcome :
      (h : Heap) (l : Lane Q) (e : LaneEntry P)
      → IsAccounted l
      → 0 < l.policy.max_queued_messages_per_client
      → estimated_bytes e ≤ l.policy.max_queued_bytes_per_client
      → HasOutcome h l e (enqueue_coalescing h l e)
  unfolding enqueue_coalescing
  enqueue_coalescing-Outcome h l e v room small =
      let plain = enqueue_fitting-Outcome h l e v room small in
      elim (Bool-cases (l.policy.coalesce || is_coalesce l.policy.overflow_action)) [
        | inr off ↦ rw off plain
        | inl on ↦ elim (Option-cases (try_coalesce h l e)) [
          | inl unmatched ↦ rw on (rw unmatched plain)
          | inr (l', matched) ↦
              let (key, has, r) = try_coalesce-Replaces h l e l' matched in
              rw on (rw matched (on_coalesced key has r))
        ]
      ]

  -- On a lane with exact byte counts whose policy admits a message, `enqueue` has the outcome that
  -- its status names. In particular a rejected message changes nothing, an accepted one goes to the
  -- end, and DROP_OLDEST drops no more than it must.
  pub enqueue-Outcome :
      (h : Heap) (l : Lane Q) (e : LaneEntry P)
      → IsAccounted l
      → 0 < l.policy.max_queued_messages_per_client
      → HasOutcome h l e (enqueue h l e)
  unfolding enqueue replace_snapshot accept
  enqueue-Outcome h l e v room =
      elim (Bool-cases (ltb l.policy.max_queued_bytes_per_client (estimated_bytes e))) [
        | inl large ↦ rw large (on_rejected refl)
        | inr small ↦ elim (Bool-cases (is_snapshot_only l.policy.overflow_action)) [
          | inl snapshot ↦ rw (small, snapshot) (on_replaced refl)
          | inr queueing ↦
              rw (small, queueing) (enqueue_coalescing-Outcome h l e v room (ground arith))
        ]
      ]
