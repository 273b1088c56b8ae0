-- ===== src/Dispatcher/Lanes/Publish.antt =====
-- `publish` and `publishTo` of TopicDispatcher.ts keep what lanes keep.
use stream_fence_js.Prelude.{
  ◌≡◌, refl, sym, subst, false, String, Option, none, some, [], arith, Option-cases, Bool-cases,
  inl, inr, ok, Result, Result-cases, All-of, if◌then◌else◌,
}
use stream_fence_js.Prelude.Dict
use stream_fence_js.Policy.{TopicPolicy}
use stream_fence_js.Message.{OutboundTopicMessage, PublishedMessage, new_lane_entry, message_id}
use stream_fence_js.Spill.{SpillQueue}
use stream_fence_js.Lane.{Lane, enqueue}
use stream_fence_js.Sessions.{ClientSessionState, lane, create_default_lane, spill_queue_for}
use stream_fence_js.Sessions.Registry.{subscribers_of}
use stream_fence_js.Dispatcher.{Dispatcher, session_of, put_lane, report}
use stream_fence_js.Dispatcher.Publish.{
  Platform, outcome_effects, is_rejected, enqueue_for_lane, enqueue_for_session, enqueue_in,
  publish, publish_to,
}
use stream_fence_js.Dispatcher.Sending.{IsKept, Everyone, publish_keeps, publish_to_keeps}
use stream_fence_js.Dispatcher.Lanes.{
  IsLaneInvariant, Held, AllHeld, set-Held, same-AllHeld, put_lane-AllHeld, schedule_drain-AllHeld,
}

module _ {P : Type 0} {Q : SpillQueue P} {C : Type 0} {Keeps : Lane Q → Type 0}
    (law : IsLaneInvariant Keeps) where
  lane-Held :
      (f : Option (String → String → String → Result Q.State)) (topic : String)
      (policy : TopicPolicy) (s s' : ClientSessionState Q C) (l : Lane Q)
      → lane f topic (some policy) s ≡ ok (some l, s')
      → Held Keeps s
      → Keeps l × Held Keeps s'
  unfolding lane create_default_lane
  lane-Held f topic policy s s' l e v = elim (Option-cases (Dict.get topic s.lanes)) [
    | inr (existing, there) ↦
        let same : l ≡ existing = ground arith in
        let kept : s' ≡ s = ground arith in
        (subst Keeps (sym same) (v topic existing there), subst (Held Keeps) (sym kept) v)
    | inl missing ↦ elim (Result-cases (spill_queue_for f topic s policy.overflow_action)) [
      | inl (message, thrown) ↦ absurd (ground arith)
      | inr (q, opened) ↦
          let created : Lane Q = record {
            policy = policy;
            queue = [];
            queued_bytes = 0;
            spill_queue = q;
          } in
          let new : Keeps created = law.created policy q in
          let same : l ≡ created = ground arith in
          let kept : s' ≡ record s { lanes = Dict.set topic created s.lanes } = ground arith in
          (
            subst Keeps (sym same) new,
            subst (Held Keeps) (sym kept) (set-Held topic created s new v),
          )
    ]
  ]

  enqueue_for_lane-AllHeld :
      (s : ClientSessionState Q C) (c topic : String) (l : Lane Q) (policy : TopicPolicy)
      (m : OutboundTopicMessage P) (d : Dispatcher Q C)
      → Held Keeps s
      → Keeps l
      → AllHeld Keeps d
      → AllHeld Keeps (enqueue_for_lane s c topic l policy m d)
  unfolding enqueue_for_lane
  enqueue_for_lane-AllHeld s c topic l policy m d held k v =
      let published : PublishedMessage P = record {
        outbound_message = m;
        coalesce_key = if policy.coalesce then some topic else none;
      } in
      let made = new_lane_entry published 0 false d.heap in
      let entered = enqueue made.1 l made.0 in
      let d₁ : Dispatcher Q C = record d { heap = made.1 } in
      let d₂ = put_lane c topic entered.1 s d₁ in
      let v₂ : AllHeld Keeps d₂ =
        put_lane-AllHeld c topic entered.1 s d d₁ refl refl held (law.enqueued made.1 l made.0 k)
          v in
      let told =
        report (outcome_effects s.namespace s.client_id topic (message_id made.0) entered.0) d₂ in
      let v₃ : AllHeld Keeps told = same-AllHeld d₂ told refl refl v₂ in
      elim (Bool-cases (is_rejected entered.0.status)) [
        | inl refused ↦ rw refused v₃
        | inr taken ↦ rw taken (schedule_drain-AllHeld c topic told v₃)
      ]

  module _ (p : Platform Q) where
    enqueue_for_session-AllHeld :
        (c topic : String) (policy : TopicPolicy) (m : OutboundTopicMessage P) (d : Dispatcher Q C)
        → AllHeld Keeps d
        → AllHeld Keeps (enqueue_for_session p c topic policy m d).0
    unfolding enqueue_for_session enqueue_in
    enqueue_for_session-AllHeld c topic policy m d v = elim (Option-cases (session_of c d)) [
      | inl missing ↦ rw (missing, enqueue_for_session) v
      | inr (s, here) ↦ elim (Result-cases (lane p.spill_queue_factory topic (some policy) s)) [
        | inl (message, thrown) ↦ rw (here, enqueue_for_session) (rw thrown v)
        | inr ((none, s'), found) ↦ rw (here, enqueue_for_session) (rw found v)
        | inr ((some l, s'), found) ↦
            let (k, held) =
              lane-Held p.spill_queue_factory topic policy s s' l found (v c s here) in
            rw (here, enqueue_for_session)
              (rw found (enqueue_for_lane-AllHeld s' c topic l policy m d held k v))
      ]
    ]

    all_held : IsKept p Everyone (AllHeld {C = C} Keeps)
    all_held = record {
      numbered = λ d n. same-AllHeld d (record d { next_sequence = n }) refl refl;
      logged = λ d effects. same-AllHeld d (record d { log = effects }) refl refl;
      enqueued = λ c topic policy m d whom. enqueue_for_session-AllHeld c topic policy m d;
    }

    pub publish-AllHeld :
        (namespace topic : String) (payload : P) (d : Dispatcher Q C)
        → AllHeld Keeps d
        → AllHeld Keeps (publish p namespace topic payload d).0
    publish-AllHeld namespace topic payload d v =
        publish_keeps all_held namespace topic payload d
          (All-of (subscribers_of namespace topic d.registry) (λ s. tt)) v

    pub publish_to-AllHeld :
        (namespace client_id topic : String) (payload : P) (d : Dispatcher Q C)
        → AllHeld Keeps d
        → AllHeld Keeps (publish_to p namespace client_id topic payload d).0
    publish_to-AllHeld namespace client_id topic payload d v =
        publish_to_keeps all_held namespace client_id topic payload d tt v
