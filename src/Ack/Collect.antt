-- ===== src/Ack/Collect.antt =====
-- `collectExpired` of AckTracker.ts.
use mathlib.Core.List.{Mem, not-mem-nil}
use native.Mathlib.Decide.{dec_le}
use stream_fence_js.Prelude.{
  ℕ, zero, suc, ◌+◌, ◌<◌, ◌≤◌, ◌≡◌, ◌∙◌, sym, ap, String, Option, none, some, List, [], ◌∷◌, ◌++◌,
  length, arith, List-cases, inl, inr, le→leb, lt→not-leb, ◌⊎◌,
}
use stream_fence_js.Prelude.Dict
use stream_fence_js.Prelude.Dict.{get-set_cases, get-delete_cases}
use stream_fence_js.Message.{Heap}
use stream_fence_js.Ack.{
  PendingAckState, AckTracker, RetryDecision, handle_of, expire, collect_loop, collect_expired,
  total_retries,
}
use stream_fence_js.Ack.Expirations.{ExpirationHandle, heap_peek, heap_pop}
use stream_fence_js.Ack.Expirations.Order.{IsHeap}
use stream_fence_js.Ack.Expirations.Pop.{Popped, heap_pop-Pops, root-first}
use stream_fence_js.Ack.Invariant.{IsTracking, round-IsTracking}
use stream_fence_js.Ack.Fuel.{retries_left, retries_left-le, round-lt}

-- What stops the loop.
abbrev pub Stops : ℕ → List ExpirationHandle → Type 0
Stops now a =
    (heap_peek a ≡ none) ⊎ ((x : ExpirationHandle) × (heap_peek a ≡ some x) × (now < x.deadline))

peek-nil : (a : List ExpirationHandle) → a ≡ [] → heap_peek a ≡ none
unfolding heap_peek
peek-nil a e = ground arith

Stops-mem :
    (now : ℕ) (a : List ExpirationHandle) (y : ExpirationHandle)
    → IsHeap a
    → Stops now a
    → Mem y a
    → now < y.deadline
unfolding heap_peek
Stops-mem now [] y h stop m = absurd (not-mem-nil m)
Stops-mem now (x ∷ a) y h stop m =
    let first = root-first x a h y m in
    elim stop [ inl nothing ↦ absurd (ground arith) | inr (z, root, later) ↦ ground (arith, first) ]

module _ {P : Type 0} where
  -- No pending message is due by `now`.
  abbrev pub NoneDue : ℕ → AckTracker P → Type 0
  NoneDue now t =
      (k : String) (s : PendingAckState P) → Dict.get k t.pending ≡ some s → now < s.deadline

  Stops-NoneDue : (now : ℕ) (t : AckTracker P) → IsTracking t → Stops now t.heap → NoneDue now t
  Stops-NoneDue now t v stop k s e =
      Stops-mem now t.heap (handle_of s) v.ordered stop (v.live k s e)

  -- The ways a round begins.
  module _ (fuel now : ℕ) (h : Heap) (t : AckTracker P) where
    loop_empty : heap_peek t.heap ≡ none → collect_loop (suc fuel) now h t ≡ ([], h, t)
    unfolding collect_loop
    loop_empty e = rw (e, collect_loop)

    pub loop_early :
        (x : ExpirationHandle)
        → heap_peek t.heap ≡ some x
        → now < x.deadline
        → collect_loop (suc fuel) now h t ≡ ([], h, t)
    unfolding collect_loop
    loop_early x e early = rw (e, collect_loop) (rw (lt→not-leb x.deadline now early))

    pub loop_takes :
        (x : ExpirationHandle) (b : List ExpirationHandle)
        → heap_peek t.heap ≡ some x
        → heap_pop t.heap ≡ (some x, b)
        → x.deadline ≤ now
        → let r = expire now x h (record t { heap = b }) in
          let rest = collect_loop fuel now r.1 r.2 in
          collect_loop (suc fuel) now h t ≡ (r.0 ++ rest.0, rest.1, rest.2)
    unfolding collect_loop
    loop_takes x b root result due =
        rw (root, collect_loop)
          (rw (le→leb x.deadline now due) (
            rw (ap (λ (r : Option ExpirationHandle × List ExpirationHandle). r.0) result)
              (rw (ap (λ (r : Option ExpirationHandle × List ExpirationHandle). r.1) result))))

    loop_round :
        (x : ExpirationHandle) (b : List ExpirationHandle)
        → Popped t.heap x b
        → x.deadline ≤ now
        → let r = expire now x h (record t { heap = b }) in
          let rest = collect_loop fuel now r.1 r.2 in
          collect_loop (suc fuel) now h t ≡ (r.0 ++ rest.0, rest.1, rest.2)
    loop_round x b p due = loop_takes x b p.root p.result due

  -- What the loop leaves: the invariant, and nothing that is due.
  pub record Collected (now : ℕ) (t : AckTracker P) : Type 0 where
    pub tracking : IsTracking t
    pub none_due : NoneDue now t
    pub settled : Stops now t.heap

  collect_loop-Collected :
      (fuel now : ℕ) (h : Heap) (t : AckTracker P)
      → length t.heap + retries_left h t.pending < fuel
      → IsTracking t
      → Collected now (collect_loop fuel now h t).2
  collect_loop-Collected zero now h t f v = absurd (omega arith)
  collect_loop-Collected (suc fuel) now h t f v = elim (List-cases t.heap) [
    | inl empty ↦
        let nothing = peek-nil t.heap empty in
        rw (loop_empty fuel now h t nothing) (record {
          tracking = v;
          none_due = Stops-NoneDue now t v (inl nothing);
          settled = inl nothing;
        })
    | inr (_, a, e) ↦
        let (x, b, p) = heap_pop-Pops t.heap v.ordered (omega (arith, ap length e)) in
        elim (dec_le x.deadline now) [
          | yes due ↦ rw (loop_round fuel now h t x b p due) (
              collect_loop-Collected fuel now _ _ (omega (arith, round-lt now x b h t v p))
                (round-IsTracking now x b h t v p))
          | no early ↦ rw (loop_early fuel now h t x p.root (omega arith)) (record {
            tracking = v;
            none_due = Stops-NoneDue now t v (inr (x, p.root, omega arith));
            settled = inr (x, p.root, omega arith);
          })
        ]
  ]

  -- If the deadlines form a heap and every pending message has its handle in it, `collectExpired`
  -- at the time `now` keeps that so, and leaves no pending message due by `now`, whatever
  -- timeouts the messages have.
  pub collect_expired-Collected :
      (now : ℕ) (h : Heap) (t : AckTracker P)
      → IsTracking t
      → Collected now (collect_expired now h t).2
  unfolding collect_expired
  collect_expired-Collected now h t v =
      collect_loop-Collected (suc (length t.heap + total_retries t.pending)) now h t
        (omega (arith, retries_left-le h t.pending)) v

  -- A second scan at the same time.
  pub collect_expired-again :
      (now : ℕ) (h : Heap) (t : AckTracker P)
      → IsTracking t
      → let r = collect_expired now h t in collect_expired now r.1 r.2 ≡ ([], r.1, r.2)
  unfolding collect_expired
  collect_expired-again now h t v =
      let r = collect_loop (suc (length t.heap + total_retries t.pending)) now h t in
      elim (collect_expired-Collected now h t v).settled [
        | inl nothing ↦ loop_empty (length r.2.heap + total_retries r.2.pending) now r.1 r.2 nothing
        | inr (x, root, later) ↦
            loop_early (length r.2.heap + total_retries r.2.pending) now r.1 r.2 x root later
      ]

  loops-agree :
      (f g now : ℕ) (h : Heap) (t : AckTracker P)
      → length t.heap + retries_left h t.pending < f
      → length t.heap + retries_left h t.pending < g
      → IsTracking t
      → collect_loop f now h t ≡ collect_loop g now h t
  loops-agree zero g now h t below above v = absurd (omega arith)
  loops-agree (suc f) zero now h t below above v = absurd (omega arith)
  loops-agree (suc f) (suc g) now h t below above v = elim (List-cases t.heap) [
    | inl empty ↦
        let nothing = peek-nil t.heap empty in
        loop_empty f now h t nothing ∙ sym (loop_empty g now h t nothing)
    | inr (_, a, e) ↦
        let (x, b, p) = heap_pop-Pops t.heap v.ordered (omega (arith, ap length e)) in
        elim (dec_le x.deadline now) [
          | yes due ↦
              let r = expire now x h (record t { heap = b }) in
              let rest =
                loops-agree f g now r.1 r.2 (omega (arith, round-lt now x b h t v p))
                  (omega (arith, round-lt now x b h t v p)) (round-IsTracking now x b h t v p) in
              loop_round f now h t x b p due
              ∙ ap (λ (q : List (RetryDecision P) × Heap × AckTracker P). (r.0 ++ q.0, q.1, q.2))
                  rest
              ∙ sym (loop_round g now h t x b p due)
          | no early ↦
              loop_early f now h t x p.root (omega arith)
              ∙ sym (loop_early g now h t x p.root (omega arith))
        ]
  ]

  -- The loop of `collectExpired` ends by itself: if the deadlines form a heap and every pending
  -- message has its handle in it, then with a bound on its rounds above the number of handles and of
  -- all retries, the loop returns the same decisions and leaves the same state as `collectExpired`,
  -- whatever the bound is.
  pub collect_loop-collect_expired :
      (fuel now : ℕ) (h : Heap) (t : AckTracker P)
      → length t.heap + total_retries t.pending < fuel
      → IsTracking t
      → collect_loop fuel now h t ≡ collect_expired now h t
  unfolding collect_expired
  collect_loop-collect_expired fuel now h t above v =
      loops-agree fuel (suc (length t.heap + total_retries t.pending)) now h t
        (omega (arith, retries_left-le h t.pending)) (omega (arith, retries_left-le h t.pending)) v
