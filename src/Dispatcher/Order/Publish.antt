-- ===== src/Dispatcher/Order/Publish.antt =====
-- `publish` and `publishTo` of TopicDispatcher.ts keep the order of drains.
use stream_fence_js.Prelude.{
  ◌≡◌, refl, ap, sym, ◌∙◌, false, String, Option, none, some, arith, Option-cases, Bool-cases, inl,
  inr, ok, Result, Result-cases, All-of, if◌then◌else◌,
}
use stream_fence_js.Policy.{TopicPolicy}
use stream_fence_js.Message.{OutboundTopicMessage, PublishedMessage, new_lane_entry, message_id}
use stream_fence_js.Spill.{SpillQueue}
use stream_fence_js.Lane.{Lane, enqueue}
use stream_fence_js.Sessions.{ClientSessionState, lane}
use stream_fence_js.Sessions.Registry.{subscribers_of}
use stream_fence_js.Dispatcher.{Dispatcher, session_of, put_lane, report}
use stream_fence_js.Dispatcher.Publish.{
  Platform, outcome_effects, is_rejected, enqueue_for_lane, enqueue_for_session, enqueue_in,
  publish, publish_to,
}
use stream_fence_js.Dispatcher.Sending.{IsKept, Everyone, publish_keeps, publish_to_keeps}
use stream_fence_js.Dispatcher.Sessions.{view}
use stream_fence_js.Dispatcher.Order.{
  IsOrderly, untouched-IsOrderly, put_lane-IsOrderly, schedule_drain-IsOrderly,
}

module _ {P : Type 0} {Q : SpillQueue P} {C : Type 0} where
  -- `lane` changes the lanes of a session and nothing else.
  pub lane-view :
      (f : Option (String → String → String → Result Q.State)) (topic : String)
      (o : Option TopicPolicy) (s : ClientSessionState Q C)
      (r : Option (Lane Q) × ClientSessionState Q C)
      → lane f topic o s ≡ ok r
      → view (some r.1) ≡ view (some s)
  unfolding lane
  lane-view f topic o s r e = ground arith

  enqueue_for_lane-IsOrderly :
      (s : ClientSessionState Q C) (c topic : String) (l : Lane Q) (policy : TopicPolicy)
      (m : OutboundTopicMessage P) (d : Dispatcher Q C)
      → view (session_of c d) ≡ view (some s)
      → IsOrderly none d
      → IsOrderly none (enqueue_for_lane s c topic l policy m d)
  unfolding enqueue_for_lane
  enqueue_for_lane-IsOrderly s c topic l policy m d here v =
      let published : PublishedMessage P = record {
        outbound_message = m;
        coalesce_key = if policy.coalesce then some topic else none;
      } in
      let made = new_lane_entry published 0 false d.heap in
      let entered = enqueue made.1 l made.0 in
      let d₁ : Dispatcher Q C = record d { heap = made.1 } in
      let d₂ = put_lane c topic entered.1 s d₁ in
      let v₂ : IsOrderly none d₂ =
        put_lane-IsOrderly none c topic entered.1 s d d₁ refl refl refl here v in
      let told =
        report (outcome_effects s.namespace s.client_id topic (message_id made.0) entered.0) d₂ in
      let v₃ : IsOrderly none told = untouched-IsOrderly none d₂ told refl refl refl v₂ in
      elim (Bool-cases (is_rejected entered.0.status)) [
        | inl refused ↦ rw refused v₃
        | inr taken ↦ rw taken (schedule_drain-IsOrderly c topic told v₃)
      ]

  module _ (p : Platform Q) where
    enqueue_for_session-IsOrderly :
        (c topic : String) (policy : TopicPolicy) (m : OutboundTopicMessage P) (d : Dispatcher Q C)
        → IsOrderly none d
        → IsOrderly none (enqueue_for_session p c topic policy m d).0
    unfolding enqueue_for_session enqueue_in
    enqueue_for_session-IsOrderly c topic policy m d v = elim (Option-cases (session_of c d)) [
      | inl missing ↦ rw (missing, enqueue_for_session) v
      | inr (s, here) ↦ elim (Result-cases (lane p.spill_queue_factory topic (some policy) s)) [
        | inl (message, thrown) ↦ rw (here, enqueue_for_session) (rw thrown v)
        | inr ((none, s'), found) ↦ rw (here, enqueue_for_session) (rw found v)
        | inr ((some l, s'), found) ↦
            rw (here, enqueue_for_session)
              (rw found (
                enqueue_for_lane-IsOrderly s' c topic l policy m d
                  (ap view here
                    ∙ sym (lane-view p.spill_queue_factory topic (some policy) s _ found))
                  v))
      ]
    ]

    orderly : IsKept p Everyone (IsOrderly {Q = Q} {C = C} none)
    orderly = record {
      numbered = λ d n. untouched-IsOrderly none d (record d { next_sequence = n }) refl refl refl;
      logged = λ d effects. untouched-IsOrderly none d (record d { log = effects }) refl refl refl;
      enqueued = λ c topic policy m d whom. enqueue_for_session-IsOrderly c topic policy m d;
    }

    pub publish-IsOrderly :
        (namespace topic : String) (payload : P) (d : Dispatcher Q C)
        → IsOrderly none d
        → IsOrderly none (publish p namespace topic payload d).0
    publish-IsOrderly namespace topic payload d v =
        publish_keeps orderly namespace topic payload d
          (All-of (subscribers_of namespace topic d.registry) (λ s. tt)) v

    pub publish_to-IsOrderly :
        (namespace client_id topic : String) (payload : P) (d : Dispatcher Q C)
        → IsOrderly none d
        → IsOrderly none (publish_to p namespace client_id topic payload d).0
    publish_to-IsOrderly namespace client_id topic payload d v =
        publish_to_keeps orderly namespace client_id topic payload d tt v
