-- ===== src/Ack.antt =====
-- src/internal/delivery/AckTracker.ts, RetryDecision.ts, RetryAction.ts and RetryService.ts: the
-- messages that await an acknowledgement. A method takes the time as an argument, and returns its
-- result and the states that it leaves. `entry.retryCount` and `entry.awaiting` stand in the heap of
-- Message.
pub mod Expirations
pub mod Invariant
pub mod Fuel
pub mod Collect
pub mod Decisions
pub mod Stale
pub mod Removal
use Prim.Native.String.{◌++◌ as str_append}
use stream_fence_js.Prelude.{
  ℕ, zero, suc, ◌+◌, Bool, true, false, String, Option, none, some, List, [], ◌∷◌, ◌++◌, length,
  ltb, leb, str_eq, ◌==◌, ◌&&◌, map, if◌then◌else◌,
}
use stream_fence_js.Prelude.Dict
use stream_fence_js.Message.{LaneEntry, Heap, message_id, retry_count, write}
use Expirations.{ExpirationHandle, heap_peek, heap_push, heap_pop}

pub record PendingAckState (P : Type 0) : Type 0 where
  pub key : String
  pub client_id : String
  pub namespace : String
  pub topic : String
  pub entry : LaneEntry P
  pub ack_timeout_ms : ℕ
  pub max_retries : ℕ
  pub generation : ℕ
  pub deadline : ℕ

pub record AckTracker (P : Type 0) : Type 0 where
  pub pending : List (String × PendingAckState P)
  pub heap : List ExpirationHandle

pub data RetryAction : Type 0 where
  retry exhausted : RetryAction

pub record RetryDecision (P : Type 0) : Type 0 where
  pub action : RetryAction
  pub client_id : String
  pub namespace : String
  pub topic : String
  pub pending_message : LaneEntry P

-- `${clientId}::${namespace}::${topic}::${messageId}`
unfoldable pub key_for : String → String → String → String → String
key_for client_id namespace topic message_id = str_append client_id (
    str_append "::"
      (str_append namespace (str_append "::" (str_append topic (str_append "::" message_id)))))

module _ {P : Type 0} where
  abbrev pub generation_of : Option (PendingAckState P) → ℕ
  generation_of none = 0
  generation_of (some s) = s.generation

  -- The handle that `register` and `collectExpired` push for a state.
  abbrev pub handle_of : PendingAckState P → ExpirationHandle
  handle_of s = record { key = s.key; deadline = s.deadline; generation = s.generation }

  unfoldable pub register :
      String → String → String → LaneEntry P → ℕ → ℕ → ℕ → AckTracker P → AckTracker P
  register client_id namespace topic entry ack_timeout_ms max_retries now t =
      let key = key_for client_id namespace topic (message_id entry) in
      let state : PendingAckState P = record {
        key = key;
        client_id = client_id;
        namespace = namespace;
        topic = topic;
        entry = entry;
        ack_timeout_ms = ack_timeout_ms;
        max_retries = max_retries;
        generation = generation_of (Dict.get key t.pending) + 1;
        deadline = now + ack_timeout_ms;
      } in
      record { pending = Dict.set key state t.pending; heap = heap_push (handle_of state) t.heap }

  unfoldable pub acknowledge :
      String → String → String → String → AckTracker P → Bool × AckTracker P
  acknowledge client_id namespace topic message_id t =
      let key = key_for client_id namespace topic message_id in
      (Dict.has key t.pending, record t { pending = Dict.delete key t.pending })

  abbrev pub decide : RetryAction → PendingAckState P → RetryDecision P
  decide action s = record {
    action = action;
    client_id = s.client_id;
    namespace = s.namespace;
    topic = s.topic;
    pending_message = s.entry;
  }

  -- The state of a message after one more retry is scheduled at time `now`.
  abbrev pub rescheduled : ℕ → PendingAckState P → PendingAckState P
  rescheduled now s = record s { generation = s.generation + 1; deadline = now + s.ack_timeout_ms }

  -- A round of `collectExpired` on the live state of a handle.
  unfoldable pub expire_state :
      ℕ → PendingAckState P → Heap → AckTracker P → List (RetryDecision P) × Heap × AckTracker P
  expire_state now s h t =
      if ltb (retry_count h s.entry) s.max_retries
      then (
        decide retry s ∷ [],
        write s.entry (record { retry_count = retry_count h s.entry + 1; awaiting = false }) h,
        record {
          pending = Dict.set s.key (rescheduled now s) t.pending;
          heap = heap_push (handle_of (rescheduled now s)) t.heap;
        },
      )
      else (
        decide exhausted s ∷ [],
        write s.entry (record { retry_count = retry_count h s.entry; awaiting = false }) h,
        record t { pending = Dict.delete s.key t.pending },
      )

  -- A round of `collectExpired` on a handle that `heapPop` returned: one of a message that is gone,
  -- or of an earlier generation, is passed over.
  unfoldable pub expire :
      ℕ → ExpirationHandle → Heap → AckTracker P → List (RetryDecision P) × Heap × AckTracker P
  unfolding expire_state
  expire now handle h t = elim (Dict.get handle.key t.pending) [
    | none ↦ ([], h, t)
    | some s ↦ if s.generation == handle.generation then expire_state now s h t else ([], h, t)
  ]

  -- The loop of `collectExpired`.
  unfoldable pub collect_loop :
      ℕ → ℕ → Heap → AckTracker P → List (RetryDecision P) × Heap × AckTracker P
  collect_loop zero now h t = ([], h, t)
  collect_loop (suc fuel) now h t = elim (heap_peek t.heap) [
    | none ↦ ([], h, t)
    | some head ↦ elim (leb head.deadline now) [
      | false ↦ ([], h, t)
      | true ↦ elim (heap_pop t.heap).0 [
        | none ↦ ([], h, t)
        | some handle ↦
            let (decided, h', t') = expire now handle h (record t { heap = (heap_pop t.heap).1 }) in
            let (decisions, h'', t'') = collect_loop fuel now h' t' in
            (decided ++ decisions, h'', t'')
      ]
    ]
  ]

  -- The retries that the pending messages may still have, together.
  unfoldable pub total_retries : List (String × PendingAckState P) → ℕ
  total_retries [] = 0
  total_retries ((_, s) ∷ pending) = s.max_retries + total_retries pending

  -- Each round takes a handle, and puts one back only for a retry: so this much fuel is enough.
  unfoldable pub collect_expired :
      ℕ → Heap → AckTracker P → List (RetryDecision P) × Heap × AckTracker P
  unfolding collect_loop
  collect_expired now h t = collect_loop (suc (length t.heap + total_retries t.pending)) now h t

  -- The keys of the states that pass a test, in the order of the map.
  unfoldable pub keys_where :
      (PendingAckState P → Bool) → List (String × PendingAckState P) → List String
  keys_where test [] = []
  keys_where test ((k, s) ∷ pending) =
      let rest = keys_where test pending in if test s then k ∷ rest else rest

  unfoldable pub delete_all :
      List String → List (String × PendingAckState P) → List (String × PendingAckState P)
  delete_all [] pending = pending
  delete_all (k ∷ keys) pending = delete_all keys (Dict.delete k pending)

  abbrev pub of_client : String → PendingAckState P → Bool
  of_client client_id s = str_eq s.client_id client_id

  abbrev pub of_client_topic : String → String → String → PendingAckState P → Bool
  of_client_topic client_id namespace topic s =
      str_eq s.client_id client_id && str_eq s.namespace namespace && str_eq s.topic topic

  unfoldable pub remove_client : String → AckTracker P → AckTracker P
  unfolding keys_where delete_all
  remove_client client_id t = record t {
    pending = delete_all (keys_where (of_client client_id) t.pending) t.pending;
  }

  unfoldable pub remove_client_topic : String → String → String → AckTracker P → AckTracker P
  unfolding keys_where delete_all
  remove_client_topic client_id namespace topic t = record t {
    pending =
        delete_all (keys_where (of_client_topic client_id namespace topic) t.pending) t.pending;
  }

  unfoldable pub pending_count : AckTracker P → ℕ
  pending_count t = length t.pending
