-- ===== src/Ack/Decisions.antt =====
-- Which messages `collectExpired` of AckTracker.ts decides on.
use stream_fence_js.Prelude.{
  All, All-append, ℕ, zero, suc, ◌+◌, ◌≡◌, ◌≢◌, ap, sym, ◌∙◌, String, none, some, List, [], length,
  ltb, leb, arith, Option-cases, Bool-cases, inl, inr, eq_iff, eq_refl,
}
use native.Mathlib.Decide.{ℕ_discrete}
use stream_fence_js.Prelude.Dict
use stream_fence_js.Prelude.Dict.{get-set_cases, get-delete_cases, get-set, get-delete}
use stream_fence_js.Message.{LaneEntry, Heap, message_id, retry_count}
use stream_fence_js.Ack.{
  PendingAckState, AckTracker, RetryDecision, key_for, rescheduled, register, acknowledge,
  expire_state, expire, collect_loop, collect_expired, total_retries,
}
use stream_fence_js.Ack.Expirations.{ExpirationHandle, heap_peek, heap_pop}
use stream_fence_js.Ack.Invariant.{expire_gone, expire_stale, expire_current}

module _ {P : Type 0} where
  abbrev pub state_key : PendingAckState P → String
  state_key s = key_for s.client_id s.namespace s.topic (message_id s.entry)

  -- The key of the message that a decision is about.
  abbrev pub decision_key : RetryDecision P → String
  decision_key d = key_for d.client_id d.namespace d.topic (message_id d.pending_message)

  -- Every state is stored under the key of its client, namespace, topic and message.
  abbrev pub IsNamed : List (String × PendingAckState P) → Type 0
  IsNamed m =
      (k : String) (s : PendingAckState P) → Dict.get k m ≡ some s → (s.key ≡ k) × (state_key s ≡ k)

  pub register-IsNamed :
      (client_id namespace topic : String) (entry : LaneEntry P)
      (ack_timeout_ms max_retries now : ℕ) (t : AckTracker P)
      → IsNamed t.pending
      → IsNamed (register client_id namespace topic entry ack_timeout_ms max_retries now t).pending
  unfolding register
  register-IsNamed client_id namespace topic entry ack_timeout_ms max_retries now t v k s e =
      elim (get-set_cases _ k _ s t.pending e) [
        | inl own ↦ rw own.1 (own.0, own.0)
        | inr other ↦ v k s other.1
      ]

  delete-IsNamed :
      (k : String) (m : List (String × PendingAckState P)) → IsNamed m → IsNamed (Dict.delete k m)
  delete-IsNamed k m v j s e = v j s (get-delete_cases k j s m e).1

  -- The key `k` is not pending after a round, and the round's decisions are about other keys.
  record Silent (k : String) (r : List (RetryDecision P) × Heap × AckTracker P) : Type 0 where
    decisions : All (λ d. decision_key d ≢ k) r.0
    gone : Dict.get k r.2.pending ≡ none
    named : IsNamed r.2.pending

  expire_state-Silent :
      (k : String) (now : ℕ) (s : PendingAckState P) (h : Heap) (t : AckTracker P)
      → Dict.get k t.pending ≡ none
      → IsNamed t.pending
      → Dict.get s.key t.pending ≡ some s
      → Silent k (expire_state now s h t)
  unfolding expire_state
  expire_state-Silent k now s h t gone v e =
      let other : s.key ≢ k = λ f. absurd (ground (arith, ap (λ j. Dict.get j t.pending) f)) in
      let silent : state_key s ≢ k = λ f. other (sym (v s.key s e).1 ∙ f) in
      elim (Bool-cases (ltb (retry_count h s.entry) s.max_retries)) [
        | inl again ↦ rw again (record {
          decisions = (silent, tt);
          gone = ground (arith, get-set s.key k (rescheduled now s) t.pending, eq_iff s.key k);
          named = λ j u f. elim (get-set_cases s.key j (rescheduled now s) u t.pending f) [
            | inl own ↦ rw own.1 (own.0, (v s.key s e).1 ∙ own.0)
            | inr kept ↦ v j u kept.1
          ];
        })
        | inr last ↦ rw last (record {
          decisions = (silent, tt);
          gone = ground (arith, get-delete s.key k t.pending);
          named = delete-IsNamed s.key t.pending v;
        })
      ]

  nothing-Silent :
      (k : String) (h : Heap) (t : AckTracker P)
      → Dict.get k t.pending ≡ none
      → IsNamed t.pending
      → Silent k ([], h, t)
  nothing-Silent k h t gone v = record { decisions = tt; gone = gone; named = v }

  expire-Silent :
      (k : String) (now : ℕ) (x : ExpirationHandle) (h : Heap) (t : AckTracker P)
      → Dict.get k t.pending ≡ none
      → IsNamed t.pending
      → Silent k (expire now x h t)
  expire-Silent k now x h t gone v = elim (Option-cases (Dict.get x.key t.pending)) [
    | inl e ↦ rw (expire_gone now x h t e) (nothing-Silent k h t gone v)
    | inr (s, e) ↦ elim (ℕ_discrete s.generation x.generation) [
      | yes current ↦ rw (expire_current now x h t s e current) (
          expire_state-Silent k now s h t gone v
            (ap (λ j. Dict.get j t.pending) (v x.key s e).0 ∙ e))
      | no old ↦ rw (expire_stale now x h t s e old) (nothing-Silent k h t gone v)
    ]
  ]

  collect_loop-Silent :
      (fuel : ℕ) (k : String) (now : ℕ) (h : Heap) (t : AckTracker P)
      → Dict.get k t.pending ≡ none
      → IsNamed t.pending
      → Silent k (collect_loop fuel now h t)
  unfolding collect_loop
  collect_loop-Silent zero k now h t gone v = nothing-Silent k h t gone v
  collect_loop-Silent (suc fuel) k now h t gone v =
      let idle = nothing-Silent k h t gone v in
      elim (Option-cases (heap_peek t.heap)) [
        | inl e ↦ rw (e, collect_loop) idle
        | inr (x, e) ↦ elim (Bool-cases (leb x.deadline now)) [
          | inr early ↦ rw (e, collect_loop) (rw early idle)
          | inl due ↦ elim (Option-cases (heap_pop t.heap).0) [
            | inl f ↦ rw (e, collect_loop) (rw due (rw f idle))
            | inr (y, f) ↦
                let r = expire now y h (record t { heap = (heap_pop t.heap).1 }) in
                let first =
                  expire-Silent k now y h (record t { heap = (heap_pop t.heap).1 }) gone v in
                let rest = collect_loop-Silent fuel k now r.1 r.2 first.gone first.named in
                rw (e, collect_loop)
                  (rw due (
                    rw f (record {
                      decisions = All-append _ r.0 _ first.decisions rest.decisions;
                      gone = rest.gone;
                      named = rest.named;
                    })))
          ]
        ]
      ]

  collect_expired-Silent :
      (k : String) (now : ℕ) (h : Heap) (t : AckTracker P)
      → Dict.get k t.pending ≡ none
      → IsNamed t.pending
      → Silent k (collect_expired now h t)
  unfolding collect_expired
  collect_expired-Silent k now h t gone v =
      collect_loop-Silent (suc (length t.heap + total_retries t.pending)) k now h t gone v

  -- In a tracker whose states stand under the keys of their messages: once a message is
  -- acknowledged, `collectExpired` neither retries it nor gives it up, at any time, and does not
  -- make it pending again.
  pub acknowledge-collect_expired :
      (client_id namespace topic message_id : String) (now : ℕ) (h : Heap) (t : AckTracker P)
      → IsNamed t.pending
      → let t' = (acknowledge client_id namespace topic message_id t).1 in
        let k = key_for client_id namespace topic message_id in
        All (λ d. decision_key d ≢ k) (collect_expired now h t').0
        × (Dict.get k (collect_expired now h t').2.pending ≡ none)
  unfolding acknowledge
  acknowledge-collect_expired client_id namespace topic message_id now h t v =
      let k = key_for client_id namespace topic message_id in
      let gone : Dict.get k (Dict.delete k t.pending) ≡ none =
        ground (arith, get-delete k k t.pending, eq_refl k) in
      let r =
        collect_expired-Silent k now h (record t { pending = Dict.delete k t.pending }) gone
          (delete-IsNamed k t.pending v) in
      (r.decisions, r.gone)
