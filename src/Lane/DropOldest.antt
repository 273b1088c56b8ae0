-- ===== src/Lane/DropOldest.antt =====
-- The loop of `dropOldestUntilFits` in ClientLane.ts.
use stream_fence_js.Prelude.{
  ℕ, ◌+◌, ◌-◌, ◌<◌, ◌≤◌, ◌≡◌, ◌⊎◌, inl, inr, refl, ap, ◌∙◌, Bool-cases, true, false, List, [], ◌∷◌,
  ◌++◌, length, arith, length-append,
}
use stream_fence_js.Message.{LaneEntry, estimated_bytes}
use stream_fence_js.Spill.{SpillQueue}
use stream_fence_js.Lane.{Lane, fits, drop_oldest_loop, drop_oldest_until_fits}
use stream_fence_js.Lane.Queue.{sum_bytes}
use stream_fence_js.Lane.Bounds.{IsAccounted}

module _ {P : Type 0} {Q : SpillQueue P} where
  -- The lane `l` with the queue `q`.
  abbrev pub holding : Lane Q → List (LaneEntry P) → Lane Q
  holding l q = record l { queue = q; queued_bytes = sum_bytes q }

  -- `kept` is the longest end of `q` beside which a message of `n` bytes fits; it is empty if none is.
  pub record Drops (l : Lane Q) (n : ℕ) (q kept : List (LaneEntry P)) : Type 0 where
    pub dropped : List (LaneEntry P)
    pub split : dropped ++ kept ≡ q
    pub longest :
        (a b : List (LaneEntry P))
        → a ++ b ≡ q
        → length kept < length b
        → fits (holding l b) n ≡ false
    pub ends : (fits (holding l kept) n ≡ true) ⊎ (kept ≡ [])

  too_long :
      (l : Lane Q) (n : ℕ) (x : LaneEntry P) (q kept a b : List (LaneEntry P))
      → fits (holding l (x ∷ q)) n ≡ false
      → ((a b : List (LaneEntry P))
          → a ++ b ≡ q
          → length kept < length b
          → fits (holding l b) n ≡ false)
      → a ++ b ≡ x ∷ q
      → length kept < length b
      → fits (holding l b) n ≡ false
  too_long l n x q kept [] b full longer e h = rw e full
  too_long l n x q kept (y ∷ a) b full longer e h = longer a b (ground arith) h

  drop_oldest_loop-Drops :
      (l : Lane Q) (n : ℕ) (q : List (LaneEntry P))
      → (kept : List (LaneEntry P)) × (drop_oldest_loop l n q (sum_bytes q) ≡ holding l kept)
        × Drops l n q kept
  unfolding drop_oldest_loop sum_bytes
  drop_oldest_loop-Drops l n [] = (
    [],
    refl,
    record {
      dropped = [];
      split = refl;
      longest = λ a b e h. absurd (omega (arith, length-append a b, ap length e));
      ends = inr refl;
    },
  )
  drop_oldest_loop-Drops l n (x ∷ q) = elim (Bool-cases (fits (holding l (x ∷ q)) n)) [
    | inl room ↦ (
      x ∷ q,
      ground arith,
      record {
        dropped = [];
        split = refl;
        longest = λ a b e h. absurd (omega (arith, length-append a b, ap length e));
        ends = inl room;
      },
    )
    | inr full ↦
        let (kept, e, d) = drop_oldest_loop-Drops l n q in
        let left : estimated_bytes x + sum_bytes q - estimated_bytes x ≡ sum_bytes q =
          omega arith in
        (
          kept,
          rw full (rw left e),
          record {
            dropped = x ∷ d.dropped;
            split = ap (◌∷◌ x) d.split;
            longest = λ a b. too_long l n x q kept a b full d.longest;
            ends = d.ends;
          },
        )
  ]

  -- On a lane with exact byte counts, `dropOldestUntilFits` drops the fewest of the oldest entries
  -- after which the message fits, keeps the others in order, and drops all if none helps.
  pub drop_oldest_until_fits-Drops :
      (l : Lane Q) (n : ℕ)
      → IsAccounted l
      → (kept : List (LaneEntry P)) × (drop_oldest_until_fits l n ≡ holding l kept)
        × Drops l n l.queue kept
  unfolding drop_oldest_until_fits
  drop_oldest_until_fits-Drops l n v =
      let (kept, e, d) = drop_oldest_loop-Drops l n l.queue in
      (kept, ap (drop_oldest_loop l n l.queue) v ∙ e, d)

  -- A message within the byte limit has room once the loop is done.
  pub Drops-fits :
      (l : Lane Q) (n : ℕ) (q kept : List (LaneEntry P))
      → Drops l n q kept
      → 0 < l.policy.max_queued_messages_per_client
      → n ≤ l.policy.max_queued_bytes_per_client
      → fits (holding l kept) n ≡ true
  unfolding fits sum_bytes
  Drops-fits l n q kept d room small = elim d.ends [
    | inl fitting ↦ fitting
    | inr all_gone ↦ rw all_gone (ground arith)
  ]
