-- ===== src/Ack/Fuel.antt =====
-- Why the loop of `collectExpired` in AckTracker.ts ends: each round takes a handle out of the heap,
-- and puts one back only when it uses up a retry.
use mathlib.Core.List.{Perm, Permᴰ}
use mathlib.Core.Logic.{∥∥₁_elim}
use native.Mathlib.Nat.{ℕ_set}
use native.Mathlib.Decide.{ℕ_discrete}
use stream_fence_js.Prelude.{
  ℕ, ◌+◌, ◌-◌, ◌<◌, ◌≤◌, ◌≡◌, refl, ap, ◌∙◌, false, String, some, List, [], ◌∷◌, length, ltb,
  str_eq, arith, Option-cases, Bool-cases, ltb→lt, ◌==◌, inl, inr, if◌then◌else◌,
}
use stream_fence_js.Prelude.Dict
use stream_fence_js.Message.{LaneEntry, Heap, EntryState, retry_count, write}
use stream_fence_js.Ack.{
  PendingAckState, AckTracker, total_retries, rescheduled, handle_of, expire_state, expire,
}
use stream_fence_js.Ack.Expirations.{ExpirationHandle}
use stream_fence_js.Ack.Expirations.Order.{IsHeap}
use stream_fence_js.Ack.Expirations.Up.{heap_push-IsHeap}
use stream_fence_js.Ack.Expirations.Pop.{Popped}
use stream_fence_js.Ack.Invariant.{IsTracking, expire_gone, expire_stale, expire_current}

length-Permᴰ {ℓ} : {A : Type ℓ} {xs ys : List A} → Permᴰ xs ys → length xs ≡ length ys
length-Permᴰ (Permᴰ.trans left right) = omega (arith, length-Permᴰ left, length-Permᴰ right)
length-Permᴰ (Permᴰ.swap x y) = omega arith
length-Permᴰ (Permᴰ.cons x rest) = omega (arith, length-Permᴰ rest)
length-Permᴰ Permᴰ.nil = omega arith

-- Rearranging a list keeps its length.
pub length-perm {ℓ} : {A : Type ℓ} {xs ys : List A} → Perm xs ys → length xs ≡ length ys
length-perm {xs} {ys} same = ∥∥₁_elim same (ℕ_set (length xs) (length ys)) λ p. length-Permᴰ p

module _ {P : Type 0} where
  -- The retries that the pending messages have left, together.
  unfoldable pub retries_left : Heap → List (String × PendingAckState P) → ℕ
  retries_left h [] = 0
  retries_left h ((_, s) ∷ m) = s.max_retries - retry_count h s.entry + retries_left h m

  pub retries_left-le :
      (h : Heap) (m : List (String × PendingAckState P)) → retries_left h m ≤ total_retries m
  unfolding retries_left total_retries
  retries_left-le h [] = omega arith
  retries_left-le h ((_, s) ∷ m) = omega (arith, retries_left-le h m)

  retry_count-write :
      (h : Heap) (e u : LaneEntry P) (s : EntryState)
      → retry_count (write e s h) u ≡ (if u.ref == e.ref then s.retry_count else retry_count h u)
  unfolding write
  retry_count-write h e u s = ground arith

  -- A write that lowers no retry count leaves no more retries.
  retries_left-write :
      (h : Heap) (e : LaneEntry P) (s : EntryState) (m : List (String × PendingAckState P))
      → retry_count h e ≤ s.retry_count
      → retries_left (write e s h) m ≤ retries_left h m
  unfolding retries_left
  retries_left-write h e s [] up = omega arith
  retries_left-write h e s ((_, u) ∷ m) up =
      ground (arith, retries_left-write h e s m up, retry_count-write h e u.entry s)

  retries_left-set :
      (h : Heap) (k : String) (s s' : PendingAckState P) (m : List (String × PendingAckState P))
      → Dict.get k m ≡ some s
      → retries_left h (Dict.set k s' m) + (s.max_retries - retry_count h s.entry)
        ≡ retries_left h m + (s'.max_retries - retry_count h s'.entry)
  unfolding retries_left Dict.get Dict.set
  retries_left-set h k s s' [] e = absurd (ground arith)
  retries_left-set h k s s' ((j, u) ∷ m) e = elim (Bool-cases (str_eq j k)) [
    | inl here ↦ ground arith
    | inr later ↦ ground (arith, retries_left-set h k s s' m)
  ]

  retries_left-delete :
      (h : Heap) (k : String) (m : List (String × PendingAckState P))
      → retries_left h (Dict.delete k m) ≤ retries_left h m
  unfolding retries_left Dict.delete
  retries_left-delete h k [] = omega arith
  retries_left-delete h k ((j, u) ∷ m) = ground (arith, retries_left-delete h k m)

  -- Counting up one message's retries uses up one of those left.
  retries_left-retry :
      (h : Heap) (k : String) (s : PendingAckState P) (c : EntryState)
      (m : List (String × PendingAckState P))
      → Dict.get k m ≡ some s
      → retry_count h s.entry < s.max_retries
      → c.retry_count ≡ retry_count h s.entry + 1
      → retries_left (write s.entry c h) m + 1 ≤ retries_left h m
  unfolding retries_left Dict.get
  retries_left-retry h k s c [] e below up = absurd (ground arith)
  retries_left-retry h k s c ((j, u) ∷ m) e below up = elim (Bool-cases (str_eq j k)) [
    | inl here ↦
        let same : u ≡ s = ground arith in
        ground (arith, retries_left-write h s.entry c m, retry_count-write h s.entry s.entry c)
    | inr later ↦
        ground (arith, retries_left-retry h k s c m, retry_count-write h s.entry u.entry c)
  ]

  -- After a round on a live state, the handles and the retries left together are no more.
  expire_state-le :
      (now : ℕ) (s : PendingAckState P) (h : Heap) (t : AckTracker P)
      → IsHeap t.heap
      → Dict.get s.key t.pending ≡ some s
      → let r = expire_state now s h t in
        length r.2.heap + retries_left r.1 r.2.pending ≤ length t.heap + retries_left h t.pending
  unfolding expire_state
  expire_state-le now s h t ordered e =
      elim (Bool-cases (ltb (retry_count h s.entry) s.max_retries)) [
        | inl again ↦
            let c : EntryState = record {
              retry_count = retry_count h s.entry + 1;
              awaiting = false;
            } in
            let pushed = heap_push-IsHeap (handle_of (rescheduled now s)) t.heap ordered in
            rw again (
              omega (
                arith,
                length-perm pushed.1,
                retries_left-set (write s.entry c h) s.key s (rescheduled now s) t.pending e,
                retries_left-retry h s.key s c t.pending e (ltb→lt _ _ again) refl,
              ))
        | inr last ↦
            let c : EntryState = record { retry_count = retry_count h s.entry; awaiting = false } in
            rw last (
              omega (
                arith,
                retries_left-delete (write s.entry c h) s.key t.pending,
                retries_left-write h s.entry c t.pending,
              ))
      ]

  expire-le :
      (now : ℕ) (x : ExpirationHandle) (h : Heap) (t : AckTracker P)
      → IsHeap t.heap
      → ((s : PendingAckState P) → Dict.get x.key t.pending ≡ some s → s.key ≡ x.key)
      → let r = expire now x h t in
        length r.2.heap + retries_left r.1 r.2.pending ≤ length t.heap + retries_left h t.pending
  expire-le now x h t ordered keyed = elim (Option-cases (Dict.get x.key t.pending)) [
    | inl gone ↦ rw (expire_gone now x h t gone) (omega arith)
    | inr (s, e) ↦ elim (ℕ_discrete s.generation x.generation) [
      | yes current ↦
          rw (expire_current now x h t s e current)
            (expire_state-le now s h t ordered (ap (λ j. Dict.get j t.pending) (keyed s e) ∙ e))
      | no old ↦ rw (expire_stale now x h t s e old) (omega arith)
    ]
  ]

  -- A round of `collectExpired` lowers the number of handles and retries left together.
  pub round-lt :
      (now : ℕ) (x : ExpirationHandle) (b : List ExpirationHandle) (h : Heap) (t : AckTracker P)
      → IsTracking t
      → Popped t.heap x b
      → let r = expire now x h (record t { heap = b }) in
        length r.2.heap + retries_left r.1 r.2.pending < length t.heap + retries_left h t.pending
  round-lt now x b h t v p = omega (
    arith,
    length-perm p.same,
    expire-le now x h (record t { heap = b }) p.ordered (v.keyed x.key),
  )
