-- ===== src/Lane/Coalesce.antt =====
-- What `tryCoalesce` of ClientLane.ts replaces.
use stream_fence_js.Prelude.{
  ℕ, zero, suc, ◌+◌, ◌-◌, ◌<◌, ◌≤◌, ◌≡◌, inl, inr, Bool-cases, true, false, ◌||◌, not, String, some,
  length, get_elem?, set, Option-cases, arith,
}
use native.Mathlib.Decide.{ℕ_discrete}
use stream_fence_js.Message.{LaneEntry, Heap, estimated_bytes, coalesce_key, awaiting}
use stream_fence_js.Spill.{SpillQueue}
use stream_fence_js.Lane.{Lane, coalesce_loop, try_coalesce}
use stream_fence_js.Lane.Queue.{has_key}

module _ {P : Type 0} {Q : SpillQueue P} where
  -- `l'` is `l` with the last matching entry, below index `n`, replaced by `entry`.
  pub record Replaces (h : Heap) (l : Lane Q) (entry : LaneEntry P) (key : String) (n : ℕ)
      (l' : Lane Q) : Type 0 where
    pub index : ℕ
    pub old : LaneEntry P
    pub found : get_elem? l.queue index ≡ some old
    pub below : index < n
    pub pending : awaiting h old ≡ false
    pub same_key : has_key key old ≡ true
    pub last :
        (j : ℕ) (x : LaneEntry P)
        → index < j
        → j < n
        → get_elem? l.queue j ≡ some x
        → (awaiting h x || not (has_key key x)) ≡ true
    pub within :
        l.queued_bytes + estimated_bytes entry - estimated_bytes old
        ≤ l.policy.max_queued_bytes_per_client
    pub result : l' ≡ record l {
      queue = set l.queue index entry;
      queued_bytes = l.queued_bytes + estimated_bytes entry - estimated_bytes old;
    }

  -- An index that the loop passes over.
  skip-Replaces :
      {h : Heap} {l : Lane Q} {entry : LaneEntry P} {key : String} {n : ℕ} {l' : Lane Q}
      → ((x : LaneEntry P)
          → get_elem? l.queue n ≡ some x
          → (awaiting h x || not (has_key key x)) ≡ true)
      → Replaces h l entry key n l'
      → Replaces h l entry key (suc n) l'
  skip-Replaces {n} no_match r = record {
    index = r.index;
    old = r.old;
    found = r.found;
    below = omega (arith, r.below);
    pending = r.pending;
    same_key = r.same_key;
    last = λ j x p q e. elim (ℕ_discrete j n) [
      | yes here ↦ no_match x (rw (← here) e)
      | no earlier ↦ r.last j x p (omega arith) e
    ];
    within = r.within;
    result = r.result;
  }

  coalesce_loop-Replaces :
      (h : Heap) (l : Lane Q) (entry : LaneEntry P) (key : String) (n : ℕ) (l' : Lane Q)
      → coalesce_loop h l entry key n ≡ some l'
      → Replaces h l entry key n l'
  unfolding coalesce_loop
  coalesce_loop-Replaces h l entry key zero l' e = absurd (ground arith)
  coalesce_loop-Replaces h l entry key (suc n) l' e = elim (Option-cases (get_elem? l.queue n)) [
    | inl missing ↦
        skip-Replaces (λ x f. absurd (ground arith))
          (coalesce_loop-Replaces h l entry key n l' (ground arith))
    | inr (old, found) ↦ elim (Bool-cases (awaiting h old || not (has_key key old))) [
      | inl skipped ↦
          skip-Replaces (λ x f. ground arith)
            (coalesce_loop-Replaces h l entry key n l' (ground arith))
      | inr matched ↦ record {
        index = n;
        old = old;
        found = found;
        below = omega arith;
        pending = ground arith;
        same_key = ground arith;
        last = λ j x p q f. absurd (omega arith);
        within = ground arith;
        result = ground arith;
      }
    ]
  ]

  -- When `tryCoalesce` succeeds, the new entry takes the place of the last entry in the queue that
  -- has its key and is not in flight; the other entries and their order stay.
  pub try_coalesce-Replaces :
      (h : Heap) (l : Lane Q) (entry : LaneEntry P) (l' : Lane Q)
      → try_coalesce h l entry ≡ some l'
      → (key : String) × (coalesce_key entry ≡ some key)
        × Replaces h l entry key (length l.queue) l'
  unfolding try_coalesce
  try_coalesce-Replaces h l entry l' e = elim (Option-cases (coalesce_key entry)) [
    | inl no_key ↦ absurd (ground arith)
    | inr (key, has) ↦
        (key, has, coalesce_loop-Replaces h l entry key (length l.queue) l' (ground arith))
  ]
