-- ===== src/Lane/InFlight.antt =====
-- The in-flight budget of ClientLane.ts: which entries await an acknowledgement.
use stream_fence_js.Prelude.{
  ℕ, ◌+◌, ◌<◌, ◌≤◌, ◌≡◌, ◌≢◌, inl, inr, refl, ap, Bool-cases, true, false, String, none, some, List,
  [], ◌∷◌, ◌++◌, length, arith, Option-cases, subst, if◌then◌else◌, ◌↔◌, ◌==◌,
}
use stream_fence_js.Message.{LaneEntry, Heap, EntryState, awaiting, write, set_awaiting}
use stream_fence_js.Lane.Queue.{
  count_awaiting, find_pending, mark_awaiting, some_pending, splice_by_id,
}

module _ {P : Type 0} where
  -- No entry of the queue is the object `r`.
  abbrev pub Lacks : ℕ → List (LaneEntry P) → Type 0
  Lacks r [] = Unit {0}
  Lacks r (e ∷ q) = (e.ref ≢ r) × Lacks r q

  -- The entries of the queue are different objects.
  abbrev pub IsDistinct : List (LaneEntry P) → Type 0
  IsDistinct [] = Unit {0}
  IsDistinct (e ∷ q) = Lacks e.ref q × IsDistinct q

  -- Every entry of the list awaits an acknowledgement.
  abbrev pub AllAwaiting : Heap → List (LaneEntry P) → Type 0
  AllAwaiting h [] = Unit {0}
  AllAwaiting h (e ∷ q) = (awaiting h e ≡ true) × AllAwaiting h q

  -- `firstPendingSend` finds the oldest entry that is not in flight.
  find_pending-first :
      (h : Heap) (q : List (LaneEntry P)) (e : LaneEntry P)
      → find_pending h q ≡ some e
      → (a b : List (LaneEntry P)) × (q ≡ a ++ e ∷ b) × AllAwaiting h a × (awaiting h e ≡ false)
  unfolding find_pending
  find_pending-first h [] e f = absurd (ground arith)
  find_pending-first h (x ∷ q) e f = elim (Bool-cases (awaiting h x)) [
    | inr pending ↦ ([], q, ground arith, tt, ground arith)
    | inl sent ↦
        let (a, b, split, all, pending) = find_pending-first h q e (ground arith) in
        (x ∷ a, b, ap (◌∷◌ x) split, (sent, all), pending)
  ]

  count_awaiting-write :
      (h : Heap) (q : List (LaneEntry P)) (e : LaneEntry P) (s : EntryState)
      → Lacks e.ref q
      → count_awaiting (write e s h) q ≡ count_awaiting h q
  unfolding count_awaiting write
  count_awaiting-write h [] e s lacks = refl
  count_awaiting-write h (x ∷ q) e s lacks = ground (arith, count_awaiting-write h q e s lacks.1)

  find_pending-ne :
      (h : Heap) (q : List (LaneEntry P)) (e : LaneEntry P) (r : ℕ)
      → find_pending h q ≡ some e
      → Lacks r q
      → e.ref ≢ r
  unfolding find_pending
  find_pending-ne h [] e r f lacks = absurd (ground arith)
  find_pending-ne h (x ∷ q) e r f lacks =
      ground (arith, λ (g : find_pending h q ≡ some e). find_pending-ne h q e r g lacks.1)

  awaiting-write :
      (h : Heap) (e x : LaneEntry P) (s : EntryState)
      → awaiting (write e s h) x ≡ (if x.ref == e.ref then s.awaiting else awaiting h x)
  unfolding write
  awaiting-write h e x s = ground arith

  write-count :
      (h : Heap) (q : List (LaneEntry P)) (e : LaneEntry P) (s : EntryState)
      → IsDistinct q
      → find_pending h q ≡ some e
      → s.awaiting ≡ true
      → count_awaiting (write e s h) q ≡ count_awaiting h q + 1
  unfolding count_awaiting find_pending
  write-count h [] e s d f now = absurd (ground arith)
  write-count h (x ∷ q) e s d f now = elim (Bool-cases (awaiting h x)) [
    | inr pending ↦
        let same : x ≡ e = ground arith in
        ground (
          arith,
          awaiting-write h e x s,
          count_awaiting-write h q e s (subst (λ (y : LaneEntry P). Lacks y.ref q) same d.0),
        )
    | inl sent ↦
        let later : find_pending h q ≡ some e = ground arith in
        ground (
          arith,
          awaiting-write h e x s,
          write-count h q e s d.1 later now,
          find_pending-ne h q e x.ref later d.0,
        )
  ]

  -- In a queue of different objects, sending the entry that `firstPendingSend` found takes
  -- exactly one place of the in-flight budget.
  mark_awaiting-count :
      (h : Heap) (q : List (LaneEntry P)) (e : LaneEntry P)
      → IsDistinct q
      → find_pending h q ≡ some e
      → count_awaiting (mark_awaiting h e) q ≡ count_awaiting h q + 1
  unfolding mark_awaiting set_awaiting
  mark_awaiting-count h q e d f =
      let (_, _, _, _, pending) = find_pending-first h q e f in
      rw pending (write-count h q e (record (h.cells e.ref) { awaiting = true }) d f refl)

  -- An entry that leaves the queue gives its place in the in-flight budget back, if it had one.
  count_awaiting-splice :
      (h : Heap) (id : String) (q : List (LaneEntry P)) (e : LaneEntry P)
      (kept : List (LaneEntry P))
      → splice_by_id id q ≡ some (e, kept)
      → count_awaiting h q ≡ count_awaiting h kept + (if awaiting h e then 1 else 0)
  unfolding count_awaiting splice_by_id
  count_awaiting-splice h id [] e kept f = absurd (ground arith)
  count_awaiting-splice h id (x ∷ q) e kept f = elim (Option-cases (splice_by_id id q)) [
    | inl missing ↦ ground arith
    | inr ((y, rest), found) ↦ ground (arith, count_awaiting-splice h id q y rest found)
  ]

  -- The in-flight count is below the queue's length exactly when some entry is not in flight.
  some_pending-count :
      (h : Heap) (q : List (LaneEntry P))
      → (count_awaiting h q ≤ length q)
        × ((some_pending h q ≡ true) ↔ (count_awaiting h q < length q))
  unfolding count_awaiting some_pending
  some_pending-count h [] = ground arith
  some_pending-count h (x ∷ q) = ground (arith, some_pending-count h q)

  -- `firstPendingSend` finds nothing in the queue exactly when `hasPendingSend` sees nothing there.
  pub find_pending-some_pending :
      (h : Heap) (q : List (LaneEntry P)) → (find_pending h q ≡ none) ↔ (some_pending h q ≡ false)
  unfolding find_pending some_pending
  find_pending-some_pending h [] = ground arith
  find_pending-some_pending h (x ∷ q) = ground (arith, find_pending-some_pending h q)
