-- ===== src/Ack/Invariant.antt =====
-- What the methods of AckTracker.ts keep: the deadlines form a heap, and every pending message has
-- the handle of its own deadline and generation in it.
use mathlib.Core.List.Perm
use mathlib.Core.List.{Mem, Mem-prop, mem-cons_self, mem-cons_of_mem, eq-or-mem_of_mem-cons}
use mathlib.Core.Logic.Or
use native.Mathlib.Decide.{ℕ_discrete}
use stream_fence_js.Prelude.{
  ℕ, ◌≡◌, ◌≢◌, ap, sym, ◌∙◌, String, none, some, List, [], ltb, arith, Option-cases, Bool-cases,
  ==_ne, ==_iff, inl, inr,
}
use stream_fence_js.Prelude.Dict
use stream_fence_js.Prelude.Dict.{get-set_cases, get-delete_cases}
use stream_fence_js.Message.{LaneEntry, Heap, message_id, retry_count}
use stream_fence_js.Ack.{
  PendingAckState, AckTracker, handle_of, register, acknowledge, rescheduled, expire_state, expire,
}
use stream_fence_js.Ack.Expirations.{ExpirationHandle, heap_push}
use stream_fence_js.Ack.Expirations.Order.{IsHeap}
use stream_fence_js.Ack.Expirations.Up.{heap_push-IsHeap}
use stream_fence_js.Ack.Expirations.Pop.{Popped}

module _ {P : Type 0} where
  abbrev pub IsKeyed : List (String × PendingAckState P) → Type 0
  IsKeyed m = (k : String) (s : PendingAckState P) → Dict.get k m ≡ some s → s.key ≡ k

  -- All pending messages but the one that owns the handle `x` have their handles in `a`.
  abbrev pub IsLiveBut :
      ExpirationHandle → List (String × PendingAckState P) → List ExpirationHandle → Type 0
  IsLiveBut x m a =
      (k : String) (s : PendingAckState P)
      → Dict.get k m ≡ some s
      → handle_of s ≢ x
      → Mem (handle_of s) a

  pub record IsTracking (t : AckTracker P) : Type 0 where
    pub ordered : IsHeap t.heap
    pub keyed : IsKeyed t.pending
    pub live :
        (k : String) (s : PendingAckState P)
        → Dict.get k t.pending ≡ some s
        → Mem (handle_of s) t.heap

  -- Writing a state under its own key, with its handle pushed.
  pub put-IsTracking :
      (s : PendingAckState P) (m : List (String × PendingAckState P)) (a : List ExpirationHandle)
      → IsHeap a
      → IsKeyed m
      → ((k : String) (s' : PendingAckState P)
          → Dict.get k m ≡ some s'
          → k ≢ s.key
          → Mem (handle_of s') a)
      → IsTracking (record { pending = Dict.set s.key s m; heap = heap_push (handle_of s) a })
  put-IsTracking s m a h keyed live =
      let pushed = heap_push-IsHeap (handle_of s) a h in
      record {
        ordered = pushed.0;
        keyed = λ k s' e. elim (get-set_cases s.key k s s' m e) [
          | inl own ↦ ap (λ (u : PendingAckState P). u.key) own.1 ∙ own.0
          | inr other ↦ keyed k s' other.1
        ];
        live = λ k s' e. (Perm.mem_iff pushed.1).1 (elim (get-set_cases s.key k s s' m e) [
          | inl own ↦ rw own.1 mem-cons_self
          | inr other ↦ mem-cons_of_mem _ (live k s' other.1 (λ f. other.0 (sym f)))
        ]);
      }

  -- Removing a key.
  pub delete-IsTracking :
      (k : String) (t : AckTracker P)
      → IsTracking t
      → IsTracking (record t { pending = Dict.delete k t.pending })
  delete-IsTracking k t v = record {
    ordered = v.ordered;
    keyed = λ j s e. v.keyed j s (get-delete_cases k j s t.pending e).1;
    live = λ j s e. v.live j s (get-delete_cases k j s t.pending e).1;
  }

  -- If the deadlines form a heap and every pending message has its handle in it, that is so after
  -- `register`.
  pub register-IsTracking :
      (client_id namespace topic : String) (entry : LaneEntry P)
      (ack_timeout_ms max_retries now : ℕ) (t : AckTracker P)
      → IsTracking t
      → IsTracking (register client_id namespace topic entry ack_timeout_ms max_retries now t)
  unfolding register
  register-IsTracking client_id namespace topic entry ack_timeout_ms max_retries now t v =
      put-IsTracking _ t.pending t.heap v.ordered v.keyed (λ k s e ne. v.live k s e)

  -- The round of `collectExpired` after `heapPop` has returned the handle `x`.
  record IsTrackingBut (x : ExpirationHandle) (t : AckTracker P) : Type 0 where
    ordered : IsHeap t.heap
    keyed : IsKeyed t.pending
    live : IsLiveBut x t.pending t.heap

  pass_over-IsTracking :
      (x : ExpirationHandle) (t : AckTracker P)
      → IsTrackingBut x t
      → ((s : PendingAckState P) → Dict.get x.key t.pending ≡ some s → handle_of s ≢ x)
      → IsTracking t
  pass_over-IsTracking x t v stale = record {
    ordered = v.ordered;
    keyed = v.keyed;
    live = λ k s e. v.live k s e (λ f.
        stale s
          (ap (λ (y : ExpirationHandle). Dict.get y.key t.pending) (sym f)
            ∙ ap (λ j. Dict.get j t.pending) (v.keyed k s e)
            ∙ e)
          f);
  }

  expire_state-IsTracking :
      (now : ℕ) (x : ExpirationHandle) (s : PendingAckState P) (h : Heap) (t : AckTracker P)
      → IsTrackingBut x t
      → Dict.get x.key t.pending ≡ some s
      → IsTracking (expire_state now s h t).2
  unfolding expire_state
  expire_state-IsTracking now x s h t v e =
      let own = v.keyed x.key s e in
      let others : (k : String) (s' : PendingAckState P)
          → Dict.get k t.pending ≡ some s'
          → k ≢ s.key
          → Mem (handle_of s') t.heap =
        λ k s' f ne.
          v.live k s' f
            (λ g. ne (sym (v.keyed k s' f) ∙ ap (λ (y : ExpirationHandle). y.key) g ∙ sym own)) in
      elim (Bool-cases (ltb (retry_count h s.entry) s.max_retries)) [
        | inl again ↦
            rw again (put-IsTracking (rescheduled now s) t.pending t.heap v.ordered v.keyed others)
        | inr last ↦ rw last (record {
          ordered = v.ordered;
          keyed = λ j s' f. v.keyed j s' (get-delete_cases s.key j s' t.pending f).1;
          live = λ j s' f.
              let kept = get-delete_cases s.key j s' t.pending f in
              others j s' kept.1 (λ g. kept.0 (sym g));
        })
      ]

  -- The three kinds of round.
  module _ (now : ℕ) (x : ExpirationHandle) (h : Heap) (t : AckTracker P) where
    pub expire_gone : Dict.get x.key t.pending ≡ none → expire now x h t ≡ ([], h, t)
    unfolding expire
    expire_gone e = rw (e, expire)

    pub expire_stale :
        (s : PendingAckState P)
        → Dict.get x.key t.pending ≡ some s
        → s.generation ≢ x.generation
        → expire now x h t ≡ ([], h, t)
    unfolding expire
    expire_stale s e ne = rw (e, expire) (rw (==_ne s.generation x.generation ne))

    pub expire_current :
        (s : PendingAckState P)
        → Dict.get x.key t.pending ≡ some s
        → s.generation ≡ x.generation
        → expire now x h t ≡ expire_state now s h t
    unfolding expire
    expire_current s e eq = rw (e, expire) (rw ((==_iff s.generation x.generation).1 eq))

  expire-IsTracking :
      (now : ℕ) (x : ExpirationHandle) (h : Heap) (t : AckTracker P)
      → IsTrackingBut x t
      → IsTracking (expire now x h t).2
  expire-IsTracking now x h t v = elim (Option-cases (Dict.get x.key t.pending)) [
    | inl gone ↦
        rw (expire_gone now x h t gone) (pass_over-IsTracking x t v (λ s e. absurd (ground arith)))
    | inr (s, e) ↦ elim (ℕ_discrete s.generation x.generation) [
      | yes current ↦
          rw (expire_current now x h t s e current) (expire_state-IsTracking now x s h t v e)
      | no old ↦ rw (expire_stale now x h t s e old) (
          pass_over-IsTracking x t v λ s' e' f.
            let same : s ≡ s' = ground arith in
            old (
              ap (λ (u : PendingAckState P). u.generation) same
              ∙ ap (λ (y : ExpirationHandle). y.generation) f))
    ]
  ]

  -- A round of `collectExpired`: the heap's root is taken out, and treated by `expire`.
  pub round-IsTracking :
      (now : ℕ) (x : ExpirationHandle) (b : List ExpirationHandle) (h : Heap) (t : AckTracker P)
      → IsTracking t
      → Popped t.heap x b
      → IsTracking (expire now x h (record t { heap = b })).2
  round-IsTracking now x b h t v p =
      expire-IsTracking now x h (record t { heap = b })
        (record {
          ordered = p.ordered;
          keyed = v.keyed;
          live = λ k s e ne.
              Or.elim Mem-prop (eq-or-mem_of_mem-cons ((Perm.mem_iff p.same).1 (v.live k s e)))
                (λ f. absurd (ne f)) (λ m. m);
        })

  -- `acknowledge` keeps the invariant.
  pub acknowledge-IsTracking :
      (client_id namespace topic message_id : String) (t : AckTracker P)
      → IsTracking t
      → IsTracking (acknowledge client_id namespace topic message_id t).1
  unfolding acknowledge
  acknowledge-IsTracking client_id namespace topic message_id t v = delete-IsTracking _ t v
