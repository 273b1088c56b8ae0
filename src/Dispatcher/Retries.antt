-- ===== src/Dispatcher/Retries.antt =====
-- `acknowledge`, `processRetries`, `onClientDisconnected` and `onClientUnsubscribed` of
-- TopicDispatcher.ts, and `scan` of RetryService.ts.
use stream_fence_js.Prelude.{
  ℕ, Bool, true, false, not, ◌&&◌, String, Option, none, some, List, [], ◌∷◌, str_eq, ltb,
  if◌then◌else◌,
}
use stream_fence_js.Prelude.Dict
use stream_fence_js.Message.{Heap, message_id, retry_count}
use stream_fence_js.Events.{
  record_retry, record_retry_exhausted, retry, retry_exhausted, client_disconnected, unsubscribed,
}
use stream_fence_js.Spill.{SpillQueue}
use stream_fence_js.Lane.{
  Lane, remove_by_message_id, find_by_message_id, has_pending_send, in_flight_count,
}
use stream_fence_js.Ack.{
  AckTracker, RetryDecision, RetryAction, exhausted, collect_expired, remove_client,
  remove_client_topic,
}
use stream_fence_js.Ack
use stream_fence_js.Sessions.{ClientSessionState, dispose}
use stream_fence_js.Sessions.Registry.{get_session, remove, unsubscribe}
use stream_fence_js.Dispatcher.{
  Dispatcher, metric, event, put_session, put_lane, report, schedule_drain,
}

abbrev pub is_found : {A : Type 0} → Option A → Bool
is_found none = false
is_found (some e) = true

module _ {P : Type 0} {Q : SpillQueue P} where
  -- Whether a lane may be drained again.
  unfoldable pub may_drain : Heap → Lane Q → Bool
  may_drain h l = has_pending_send h l && ltb (in_flight_count h l) l.policy.max_in_flight

module _ {P : Type 0} {Q : SpillQueue P} {C : Type 0} where
  -- The registered session of a client, if it is one of the namespace, and its lane of a topic.
  unfoldable pub lane_at :
      String → String → String → Dispatcher Q C → Option (ClientSessionState Q C × Lane Q)
  lane_at client_id namespace topic d = elim (get_session client_id d.registry) [
    | none ↦ none
    | some s ↦
        if not (str_eq s.namespace namespace)
        then none
        else elim (Dict.get topic s.lanes) [ none ↦ none | some l ↦ some (s, l) ]
  ]

  -- `lane.removeByMessageId(messageId)` on the lane of a session.
  unfoldable pub remove_message :
      String
      → String
      → String
      → ClientSessionState Q C
      → Lane Q
      → Dispatcher Q C
      → Bool × Lane Q × Dispatcher Q C
  remove_message client_id topic id s l d =
      let (removed, h, l') = remove_by_message_id d.heap l id in
      (is_found removed, l', put_lane client_id topic l' s (record d { heap = h }))

  unfoldable pub acknowledge : String → String → String → String → Dispatcher Q C → Dispatcher Q C
  acknowledge client_id namespace topic id d =
      let d₁ : Dispatcher Q C = record d {
        tracker = (Ack.acknowledge client_id namespace topic id d.tracker).1;
      } in
      elim (lane_at client_id namespace topic d₁) [
        | none ↦ d₁
        | some (s, l) ↦
            let (removed, l', d₂) = remove_message client_id topic id s l d₁ in
            if removed && has_pending_send d₂.heap l' then schedule_drain client_id topic d₂ else d₂
      ]

  -- A decision to send a message again.
  unfoldable pub process_retry : RetryDecision P → Dispatcher Q C → Dispatcher Q C
  process_retry r d =
      let id = message_id r.pending_message in
      let told =
        report
          (metric (record_retry r.namespace r.topic)
            ∷ event
                (retry r.namespace r.client_id r.topic id (retry_count d.heap r.pending_message))
            ∷ [])
          d in
      elim (lane_at r.client_id r.namespace r.topic d) [
        | none ↦ told
        | some (s, l) ↦
            if is_found (find_by_message_id l id)
            then schedule_drain r.client_id r.topic told
            else told
      ]

  -- A decision to give a message up.
  unfoldable pub process_exhausted : RetryDecision P → Dispatcher Q C → Dispatcher Q C
  process_exhausted r d =
      let id = message_id r.pending_message in
      let told =
        report
          (metric (record_retry_exhausted r.namespace r.topic)
            ∷ event (
                retry_exhausted r.namespace r.client_id r.topic id
                  (retry_count d.heap r.pending_message))
            ∷ [])
          d in
      elim (lane_at r.client_id r.namespace r.topic d) [
        | none ↦ told
        | some (s, l) ↦
            let (_, l', d') = remove_message r.client_id r.topic id s l told in
            if may_drain d'.heap l' then schedule_drain r.client_id r.topic d' else d'
      ]

  unfoldable pub process_decision : RetryAction → RetryDecision P → Dispatcher Q C → Dispatcher Q C
  process_decision RetryAction.retry r d = process_retry r d
  process_decision exhausted r d = process_exhausted r d

  -- The loop of `processRetries`.
  unfoldable pub process_decisions : List (RetryDecision P) → Dispatcher Q C → Dispatcher Q C
  process_decisions [] d = d
  process_decisions (r ∷ decisions) d = process_decisions decisions (process_decision r.action r d)

  -- The time is that of the scan.
  unfoldable pub process_retries : ℕ → Dispatcher Q C → Dispatcher Q C
  process_retries now d =
      let (decisions, h, t) = collect_expired now d.heap d.tracker in
      process_decisions decisions (record d { heap = h; tracker = t })

  -- A session that the registry has dropped.
  abbrev pub keep_detached :
      String
      → Option (ClientSessionState Q C)
      → List (String × ClientSessionState Q C)
      → List (String × ClientSessionState Q C)
  keep_detached client_id none m = m
  keep_detached client_id (some s) m = Dict.set client_id s m

  -- The lanes' disk queues are cleared here and again by `remove`.
  unfoldable pub on_client_disconnected : String → Dispatcher Q C → Dispatcher Q C
  on_client_disconnected client_id d = elim (get_session client_id d.registry) [
    | none ↦ d
    | some s ↦
        let d' =
          put_session client_id (dispose s)
            (record d { tracker = remove_client client_id d.tracker }) in
        let (disposed, r) = remove client_id d'.registry in
        report (event (client_disconnected s.namespace client_id) ∷ [])
          (record d' { registry = r; detached = keep_detached client_id disposed d.detached })
  ]

  unfoldable pub on_client_unsubscribed : String → String → String → Dispatcher Q C → Dispatcher Q C
  on_client_unsubscribed client_id namespace topic d = elim (get_session client_id d.registry) [
    | none ↦ d
    | some s ↦
        if not (str_eq s.namespace namespace)
        then d
        else report (event (unsubscribed namespace client_id topic) ∷ []) (record d {
          tracker = remove_client_topic client_id namespace topic d.tracker;
          registry = unsubscribe s topic d.registry;
        })
  ]
