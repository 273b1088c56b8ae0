-- ===== src/Dispatcher/Publish.antt =====
-- `publish` and `publishTo` of TopicDispatcher.ts.
use Prim.Native.String.{◌++◌ as str_append}
use stream_fence_js.Prelude.{
  ℕ, ◌+◌, Bool, true, false, not, String, Option, none, some, List, [], ◌∷◌, ◌++◌, Result, ok,
  throws, str_eq, if◌then◌else◌,
}
use stream_fence_js.Prelude.Decimal.{decimal}
use stream_fence_js.Policy.{TopicPolicy, DeliveryMode, best_effort, at_least_once}
use stream_fence_js.Message.{
  OutboundTopicMessage, PublishedMessage, create_outbound_topic_message, new_lane_entry, message_id,
}
use stream_fence_js.Events.{
  record_publish, record_queue_overflow, record_coalesced, record_dropped, record_spill,
  queue_overflow, publish_rejected, publish_accepted,
}
use stream_fence_js.Spill.{SpillQueue}
use stream_fence_js.Lane.{
  Lane, EnqueueStatus, EnqueueResult, coalesced, dropped_oldest_and_accepted, rejected, spilled,
  enqueue,
}
use stream_fence_js.Topics.{find}
use stream_fence_js.Sessions.{ClientSessionState, lane, is_subscribed}
use stream_fence_js.Sessions.Registry.{get_session, subscribers_of}
use stream_fence_js.Dispatcher.{
  Dispatcher, Effect, metric, event, session_of, put_lane, report, schedule_drain,
}

-- What the dispatcher relies on of the platform and of the server: the UTF-8 length of a payload's
-- JSON text, or none if that throws; and what creates a disk queue for a namespace, a client and a
-- topic, or throws.
pub record Platform {P : Type 0} (Q : SpillQueue P) : Type 0 where
  pub byte_length : P → Option ℕ
  pub spill_queue_factory : Option (String → String → String → Result Q.State)

abbrev pub estimate : Option ℕ → ℕ
estimate none = 1
estimate (some n) = n

abbrev pub is_at_least_once : DeliveryMode → Bool
is_at_least_once at_least_once = true
is_at_least_once best_effort = false

unfoldable pub unknown_topic : String → String → String
unknown_topic namespace topic =
    str_append "unknown topic policy for " (str_append namespace (str_append ":" topic))

-- `nextMessageId`, of the sequence number that is next.
unfoldable pub message_id_of : ℕ → String
message_id_of sequence = str_append "msg-" (decimal sequence)

abbrev pub is_rejected : EnqueueStatus → Bool
is_rejected rejected = true
is_rejected _ = false

module _ {P : Type 0} where
  -- What `enqueueForSession` reports on the status of the message.
  abbrev pub outcome_effects : String → String → String → String → EnqueueResult → List (Effect P)
  outcome_effects namespace client_id topic id r =
      let overflow : List (Effect P) =
        metric (record_queue_overflow namespace topic r.reason)
        ∷ event (queue_overflow namespace client_id topic r.reason)
        ∷ [] in
      let accept : List (Effect P) = event (publish_accepted namespace client_id topic id) ∷ [] in
      elim r.status [
        | rejected ↦ overflow ++ event (publish_rejected namespace client_id topic r.reason) ∷ []
        | spilled ↦ overflow ++ metric (record_spill namespace topic) ∷ accept
        | coalesced ↦ metric (record_coalesced namespace topic) ∷ accept
        | dropped_oldest_and_accepted ↦ metric (record_dropped namespace topic) ∷ accept
        | _ ↦ accept
      ]

module _ {P : Type 0} {Q : SpillQueue P} (p : Platform Q) where
  unfoldable pub estimate_bytes : P → ℕ
  estimate_bytes payload = estimate (p.byte_length payload)

  -- The message that is published, with the next message id.
  unfoldable pub outbound : String → String → TopicPolicy → P → ℕ → Result (OutboundTopicMessage P)
  outbound namespace topic policy payload sequence =
      create_outbound_topic_message topic
        (record {
          namespace = namespace;
          topic = topic;
          message_id = message_id_of sequence;
          ack_required = is_at_least_once policy.delivery_mode;
        })
        (payload ∷ []) (estimate_bytes payload)

module _ {P : Type 0} {Q : SpillQueue P} {C : Type 0} where
  -- `enqueueForSession` with the session's lane.
  unfoldable pub enqueue_for_lane :
      ClientSessionState Q C
      → String
      → String
      → Lane Q
      → TopicPolicy
      → OutboundTopicMessage P
      → Dispatcher Q C
      → Dispatcher Q C
  enqueue_for_lane s client_id topic l policy outbound_message d =
      let key = if policy.coalesce then some topic else none in
      let published : PublishedMessage P = record {
        outbound_message = outbound_message;
        coalesce_key = key;
      } in
      let (entry, h) = new_lane_entry published 0 false d.heap in
      let (r, l') = enqueue h l entry in
      let d' = put_lane client_id topic l' s (record d { heap = h }) in
      let told = report (outcome_effects s.namespace s.client_id topic (message_id entry) r) d' in
      if is_rejected r.status then told else schedule_drain client_id topic told

  -- The test of `publishTo` on the session.
  abbrev pub is_recipient : String → String → ClientSessionState Q C → Bool
  is_recipient namespace topic s =
      if not (str_eq s.namespace namespace) then false else is_subscribed topic s

  -- For the session object of a client id, if its lane could be got. A lane that could not be
  -- created is not kept.
  unfoldable pub enqueue_in :
      Result (Option (Lane Q) × ClientSessionState Q C)
      → String
      → String
      → TopicPolicy
      → OutboundTopicMessage P
      → Dispatcher Q C
      → Dispatcher Q C × Option String
  enqueue_in (throws message) client_id topic policy outbound_message d = (d, some message)
  enqueue_in (ok (none, s)) client_id topic policy outbound_message d = (d, none)
  enqueue_in (ok (some l, s)) client_id topic policy outbound_message d =
      (enqueue_for_lane s client_id topic l policy outbound_message d, none)

  -- What follows the loop, unless it has thrown.
  abbrev pub recording :
      String → String → ℕ → Dispatcher Q C × Option String → Dispatcher Q C × Option String
  recording namespace topic bytes (d, some message) = (d, some message)
  recording namespace topic bytes (d, none) =
      (report (metric (record_publish namespace topic bytes) ∷ []) d, none)

  module _ (p : Platform Q) where
    -- For the session object of a client id.
    unfoldable pub enqueue_for_session :
        String
        → String
        → TopicPolicy
        → OutboundTopicMessage P
        → Dispatcher Q C
        → Dispatcher Q C × Option String
    enqueue_for_session client_id topic policy outbound_message d = elim (session_of client_id d) [
      | none ↦ (d, none)
      | some s ↦
          enqueue_in (lane p.spill_queue_factory topic (some policy) s) client_id topic policy
            outbound_message d
    ]

    -- The loop of `publish` over the subscribers, which the first error ends.
    unfoldable pub enqueue_for_sessions :
        List (ClientSessionState Q C)
        → String
        → TopicPolicy
        → OutboundTopicMessage P
        → Dispatcher Q C
        → Dispatcher Q C × Option String
    enqueue_for_sessions [] topic policy outbound_message d = (d, none)
    enqueue_for_sessions (s ∷ sessions) topic policy outbound_message d =
        let (d', thrown) = enqueue_for_session s.client_id topic policy outbound_message d in
        elim thrown [
          | some message ↦ (d', some message)
          | none ↦ enqueue_for_sessions sessions topic policy outbound_message d'
        ]

    -- What follows the making of the message.
    unfoldable pub publish_message :
        String
        → String
        → TopicPolicy
        → Result (OutboundTopicMessage P)
        → Dispatcher Q C
        → Dispatcher Q C × Option String
    publish_message namespace topic policy (throws message) d = (d, some message)
    publish_message namespace topic policy (ok m) d =
        recording namespace topic m.estimated_bytes
          (enqueue_for_sessions (subscribers_of namespace topic d.registry) topic policy m d)

    unfoldable pub publish_message_to :
        String
        → String
        → String
        → TopicPolicy
        → Result (OutboundTopicMessage P)
        → Dispatcher Q C
        → Dispatcher Q C × Option String
    publish_message_to namespace client_id topic policy (throws message) d = (d, some message)
    publish_message_to namespace client_id topic policy (ok m) d =
        recording namespace topic m.estimated_bytes (enqueue_for_session client_id topic policy m d)

    -- The state that a call leaves, and the message of the error if it throws: what was done before
    -- stays done. The sequence number is used up before the message is made.
    unfoldable pub publish : String → String → P → Dispatcher Q C → Dispatcher Q C × Option String
    publish namespace topic payload d = elim (find namespace topic d.policies) [
      | none ↦ (d, some (unknown_topic namespace topic))
      | some policy ↦
          publish_message namespace topic policy
            (outbound p namespace topic policy payload d.next_sequence)
            (record d { next_sequence = d.next_sequence + 1 })
    ]

    unfoldable pub publish_to :
        String → String → String → P → Dispatcher Q C → Dispatcher Q C × Option String
    publish_to namespace client_id topic payload d = elim (find namespace topic d.policies) [
      | none ↦ (d, some (unknown_topic namespace topic))
      | some policy ↦ elim (get_session client_id d.registry) [
        | none ↦ (d, none)
        | some s ↦
            let sent =
              publish_message_to namespace client_id topic policy
                (outbound p namespace topic policy payload d.next_sequence)
                (record d { next_sequence = d.next_sequence + 1 }) in
            if is_recipient namespace topic s then sent else (d, none)
      ]
    ]
