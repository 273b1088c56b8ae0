-- ===== src/Ack/Stale.antt =====
-- What AckTracker.ts makes of the handle that a deleted registration has left in its heap.
use stream_fence_js.Prelude.{
  ℕ, suc, ◌+◌, ◌<◌, ◌≤◌, ◌≡◌, refl, ap, sym, ◌∙◌, String, none, some, List, [], ◌∷◌, ◌++◌, length,
  arith, eq_refl, lt→ltb,
}
use stream_fence_js.Prelude.Dict
use stream_fence_js.Prelude.Dict.{get-set, get-delete}
use stream_fence_js.Message.{LaneEntry, Heap, message_id, retry_count}
use stream_fence_js.Ack.{
  PendingAckState, AckTracker, RetryDecision, retry, key_for, rescheduled, register, acknowledge,
  expire_state, expire, collect_loop, collect_expired, generation_of, total_retries, decide,
  handle_of,
}
use stream_fence_js.Ack.Expirations.{
  ExpirationHandle, heap_peek, heap_pop, heap_push, heap_refill, pop_last, bubble_up,
  bubble_up_loop, bubble_down, bubble_down_loop, smallest_index, sooner,
}
use stream_fence_js.Ack.Invariant.{expire_current}
use stream_fence_js.Ack.Collect.{loop_early, loop_takes}

pushed_later :
    (x y : ExpirationHandle) → x.deadline ≤ y.deadline → heap_push y (x ∷ []) ≡ x ∷ y ∷ []
unfolding heap_push bubble_up bubble_up_loop
pushed_later x y later = ground arith

popped_first : (x y : ExpirationHandle) → heap_pop (x ∷ y ∷ []) ≡ (some x, y ∷ [])
unfolding heap_pop heap_refill pop_last bubble_down bubble_down_loop smallest_index sooner
popped_first x y = ground arith

peek_first : (x : ExpirationHandle) (heap : List ExpirationHandle) → heap_peek (x ∷ heap) ≡ some x
unfolding heap_peek
peek_first x heap = refl

pushed_first : (x : ExpirationHandle) → heap_push x [] ≡ x ∷ []
unfolding heap_push bubble_up bubble_up_loop
pushed_first x = refl

module _ {P : Type 0} where
  -- A tracker on which nothing has been registered.
  abbrev pub empty_tracker : AckTracker P
  empty_tracker = record { pending = []; heap = [] }

  -- A round on two handles, of which the first is due and current and its message has a retry left,
  -- and neither the second nor the new one is due: it is the last one.
  retried :
      (fuel now : ℕ) (h : Heap) (t : AckTracker P) (x y : ExpirationHandle) (s : PendingAckState P)
      → t.heap ≡ x ∷ y ∷ []
      → x.deadline ≤ now
      → now < y.deadline
      → y.deadline ≤ now + s.ack_timeout_ms
      → Dict.get x.key t.pending ≡ some s
      → s.generation ≡ x.generation
      → retry_count h s.entry < s.max_retries
      → (collect_loop (suc (suc fuel)) now h t).0 ≡ decide retry s ∷ []
  unfolding collect_loop expire_state
  retried fuel now h t x y s two due early later found current left =
      let t' : AckTracker P = record t { heap = y ∷ [] } in
      let r = expire now x h t' in
      let state : r ≡ expire_state now s h t' = expire_current now x h t' s found current in
      let heap : r.2.heap ≡ y ∷ handle_of (rescheduled now s) ∷ [] =
        ap (λ (q : List (RetryDecision P) × Heap × AckTracker P). q.2.heap) state
        ∙ rw (lt→ltb _ _ left) (pushed_later y (handle_of (rescheduled now s)) later) in
      let decided : r.0 ≡ decide retry s ∷ [] =
        ap (λ (q : List (RetryDecision P) × Heap × AckTracker P). q.0) state
        ∙ rw (lt→ltb _ _ left) refl in
      let rest : collect_loop (suc fuel) now r.1 r.2 ≡ ([], r.1, r.2) =
        loop_early fuel now r.1 r.2 y (ap heap_peek heap ∙ peek_first y _) early in
      ap (λ (q : List (RetryDecision P) × Heap × AckTracker P). q.0)
        (loop_takes (suc fuel) now h t x (y ∷ []) (ap heap_peek two ∙ peek_first x (y ∷ []))
          (ap heap_pop two ∙ popped_first x y) due)
      ∙ ap (λ (q : List (RetryDecision P) × Heap × AckTracker P). r.0 ++ q.0) rest
      ∙ ap (λ ds. ds ++ []) decided

  -- A message is registered while a handle with its key and generation 1 is in the heap.
  left_retries :
      (client_id namespace topic : String) (entry : LaneEntry P)
      (ack_timeout_ms max_retries second later : ℕ) (h : Heap) (t : AckTracker P)
      (x : ExpirationHandle)
      → t.heap ≡ x ∷ []
      → x.key ≡ key_for client_id namespace topic (message_id entry)
      → x.generation ≡ 1
      → Dict.get (key_for client_id namespace topic (message_id entry)) t.pending ≡ none
      → x.deadline ≤ later
      → second ≤ later
      → later < second + ack_timeout_ms
      → retry_count h entry < max_retries
      → (collect_expired later h
          (register client_id namespace topic entry ack_timeout_ms max_retries second t)).0
        ≡ record {
          action = retry;
          client_id = client_id;
          namespace = namespace;
          topic = topic;
          pending_message = entry;
        }
          ∷ []
  unfolding register collect_expired
  left_retries client_id namespace topic entry ack_timeout_ms max_retries second later h t x one
        same young gone due again early left =
      let k = key_for client_id namespace topic (message_id entry) in
      let s : PendingAckState P = record {
        key = k;
        client_id = client_id;
        namespace = namespace;
        topic = topic;
        entry = entry;
        ack_timeout_ms = ack_timeout_ms;
        max_retries = max_retries;
        generation = generation_of (Dict.get k t.pending) + 1;
        deadline = second + ack_timeout_ms;
      } in
      let t' = register client_id namespace topic entry ack_timeout_ms max_retries second t in
      let two : t'.heap ≡ x ∷ handle_of s ∷ [] =
        ap (heap_push (handle_of s)) one ∙ pushed_later x (handle_of s) (omega arith) in
      let fuel : length t'.heap + total_retries t'.pending ≡ suc (suc (total_retries t'.pending)) =
        omega (arith, ap length two) in
      let found : Dict.get x.key (Dict.set k s t.pending) ≡ some s =
        rw same (ground (arith, get-set k k s t.pending, eq_refl k)) in
      let current : s.generation ≡ x.generation = rw gone (sym young) in
      ap (λ (n : ℕ). (collect_loop (suc n) later h t').0) fuel
      ∙ retried (suc (total_retries t'.pending)) later h t' x (handle_of s) s two due early
          (omega arith) found current left

  -- On an empty tracker a message with a retry left is registered, acknowledged, and registered again
  -- with its key. Then `collectExpired`, at any time from the first deadline and the second
  -- registration on and before the second deadline, decides to retry it. Without the first registration
  -- it decides nothing at such a time.
  pub stale_handle_retries :
      (client_id namespace topic : String) (entry : LaneEntry P)
      (ack_timeout_ms max_retries first second later : ℕ) (h : Heap)
      → first + ack_timeout_ms ≤ later
      → second ≤ later
      → later < second + ack_timeout_ms
      → retry_count h entry < max_retries
      → let sent = λ (now : ℕ) (t : AckTracker P).
        register client_id namespace topic entry ack_timeout_ms max_retries now t in
        let acknowledged =
          (acknowledge client_id namespace topic (message_id entry) (sent first empty_tracker)).1 in
        ((collect_expired later h (sent second acknowledged)).0
          ≡ record {
            action = retry;
            client_id = client_id;
            namespace = namespace;
            topic = topic;
            pending_message = entry;
          }
            ∷ [])
        × ((collect_expired later h (sent second empty_tracker)).0 ≡ [])
  unfolding collect_expired register acknowledge Dict.get heap_peek
  stale_handle_retries client_id namespace topic entry ack_timeout_ms max_retries first second later
        h due again early left =
      let k = key_for client_id namespace topic (message_id entry) in
      let state : PendingAckState P = record {
        key = k;
        client_id = client_id;
        namespace = namespace;
        topic = topic;
        entry = entry;
        ack_timeout_ms = ack_timeout_ms;
        max_retries = max_retries;
        generation = 1;
        deadline = first + ack_timeout_ms;
      } in
      let alone =
        register client_id namespace topic entry ack_timeout_ms max_retries second empty_tracker in
      let acknowledged =
        (acknowledge client_id namespace topic (message_id entry) (
          register client_id namespace topic entry ack_timeout_ms max_retries first
            empty_tracker)).1 in
      (
        left_retries client_id namespace topic entry ack_timeout_ms max_retries second later h
            acknowledged (handle_of state) (pushed_first (handle_of state)) refl refl
            (ground (arith, get-delete k k (Dict.set k state []), eq_refl k)) due again early left,
        ap (λ (q : List (RetryDecision P) × Heap × AckTracker P). q.0)
            (loop_early _ later h alone
              (handle_of (record state { deadline = second + ack_timeout_ms }))
              (ap heap_peek (pushed_first _)) early),
      )
