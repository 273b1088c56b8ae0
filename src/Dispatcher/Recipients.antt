-- ===== src/Dispatcher/Recipients.antt =====
-- Who gets what `publish` and `publishTo` of TopicDispatcher.ts send.
use stream_fence_js.Prelude.{
  ◌≡◌, ◌≢◌, refl, ap, sym, ◌∙◌, true, false, String, Option, none, some, str_eq, eq_iff, arith,
  Option-cases, Bool-cases, inl, inr, Result-cases, if◌then◌else◌, All-weaken,
}
use stream_fence_js.Prelude.Dict
use stream_fence_js.Policy.{TopicPolicy}
use stream_fence_js.Message.{OutboundTopicMessage, PublishedMessage, new_lane_entry}
use stream_fence_js.Spill.{SpillQueue}
use stream_fence_js.Lane.{Lane, enqueue}
use stream_fence_js.Topics.{topic_key}
use stream_fence_js.Sessions.{ClientSessionState, lane, start_drain, is_subscribed, has_member}
use stream_fence_js.Sessions.Registry.{subscribers_of}
use stream_fence_js.Sessions.Members.{IsConsistent, subscribers_of-All}
use stream_fence_js.Dispatcher.{Dispatcher, session_of, put_session, put_lane, schedule_drain}
use stream_fence_js.Dispatcher.Publish.{
  Platform, is_rejected, enqueue_for_lane, enqueue_for_session, enqueue_in, publish,
}
use stream_fence_js.Dispatcher.Sending.{IsKept, publish_keeps}
use stream_fence_js.Dispatcher.Sessions.{session_of-put_session, session_of-same}

module _ {P : Type 0} {Q : SpillQueue P} {C : Type 0} (c j : String)
    (apart : str_eq c j ≡ false) where
  put_session-apart :
      (s : ClientSessionState Q C) (d : Dispatcher Q C)
      → session_of j (put_session c s d) ≡ session_of j d
  put_session-apart s d = ground (arith, session_of-put_session c j s d)

  schedule_drain-apart :
      (topic : String) (d : Dispatcher Q C)
      → session_of j (schedule_drain c topic d) ≡ session_of j d
  unfolding schedule_drain start_drain
  schedule_drain-apart topic d = elim (Option-cases (session_of c d)) [
    | inl missing ↦ rw (missing, schedule_drain) refl
    | inr (s, here) ↦ elim (Bool-cases (has_member topic s.draining_topics)) [
      | inl on ↦ rw (here, schedule_drain) (rw on refl)
      | inr off ↦
          rw (here, schedule_drain)
            (rw off (
              session_of-same j (put_session c _ d) (record (put_session c _ d) { tasks = _ }) refl
                refl
              ∙ put_session-apart _ d))
    ]
  ]

  enqueue_for_lane-apart :
      (s : ClientSessionState Q C) (topic : String) (l : Lane Q) (policy : TopicPolicy)
      (m : OutboundTopicMessage P) (d : Dispatcher Q C)
      → session_of j (enqueue_for_lane s c topic l policy m d) ≡ session_of j d
  unfolding enqueue_for_lane put_lane session_of
  enqueue_for_lane-apart s topic l policy m d =
      let published : PublishedMessage P = record {
        outbound_message = m;
        coalesce_key = if policy.coalesce then some topic else none;
      } in
      let made = new_lane_entry published 0 false d.heap in
      let r = enqueue made.1 l made.0 in
      let s' : ClientSessionState Q C = record s { lanes = Dict.set topic r.1 s.lanes } in
      let same : session_of j (put_session c s' (record d { heap = made.1 })) ≡ session_of j d =
        put_session-apart s' (record d { heap = made.1 }) in
      elim (Bool-cases (is_rejected r.0.status)) [
        | inl refused ↦ rw refused same
        | inr taken ↦ rw taken (schedule_drain-apart topic _ ∙ same)
      ]

  pub enqueue_for_session-apart :
      (p : Platform Q) (topic : String) (policy : TopicPolicy) (m : OutboundTopicMessage P)
      (d : Dispatcher Q C)
      → session_of j (enqueue_for_session p c topic policy m d).0 ≡ session_of j d
  unfolding enqueue_for_session enqueue_in
  enqueue_for_session-apart p topic policy m d = elim (Option-cases (session_of c d)) [
    | inl missing ↦ rw (missing, enqueue_for_session) refl
    | inr (s, here) ↦ elim (Result-cases (lane p.spill_queue_factory topic (some policy) s)) [
      | inl (message, thrown) ↦ rw (here, enqueue_for_session) (rw thrown refl)
      | inr ((none, s'), found) ↦ rw (here, enqueue_for_session) (rw found refl)
      | inr ((some l, s'), found) ↦
          rw (here, enqueue_for_session) (rw found (enqueue_for_lane-apart s' topic l policy m d))
    ]
  ]

module _ {P : Type 0} {Q : SpillQueue P} {C : Type 0} (p : Platform Q) where
  -- For the client ids other than `j`, the session of `j` stays what it is.
  apart_kept :
      (j : String) (o : Option (ClientSessionState Q C))
      → IsKept p (λ c. str_eq c j ≡ false) (λ (d : Dispatcher Q C). session_of j d ≡ o)
  apart_kept j o = record {
    numbered = λ d n e. session_of-same j d (record d { next_sequence = n }) refl refl ∙ e;
    logged = λ d effects e. session_of-same j d (record d { log = effects }) refl refl ∙ e;
    enqueued =
        λ c topic policy m d other e. enqueue_for_session-apart c j other p topic policy m d ∙ e;
  }

  -- If all who stand in the subscriptions of the registry are registered and subscribed, `publish`
  -- leaves the session object, with all its lanes, of every client as it was that is not subscribed
  -- to the topic, nor to one with its key, whether the call returns or throws.
  pub publish-session_of :
      (namespace topic : String) (payload : P) (d : Dispatcher Q C) (client_id : String)
      → IsConsistent d.registry
      → ((s : ClientSessionState Q C)
          → Dict.get client_id d.registry.sessions ≡ some s
          → (t : String) → is_subscribed t s ≡ true
          → topic_key s.namespace t ≢ topic_key namespace topic)
      → session_of client_id (publish p namespace topic payload d).0 ≡ session_of client_id d
  publish-session_of namespace topic payload d client_id v apart =
      publish_keeps (apart_kept client_id (session_of client_id d)) namespace topic payload d
        (All-weaken (subscribers_of namespace topic d.registry) not_me
          (subscribers_of-All namespace topic d.registry v))
        refl
    where
      not_me :
          (s : ClientSessionState Q C)
          → (Dict.get s.client_id d.registry.sessions ≡ some s)
            × (t : String) × (is_subscribed t s ≡ true)
            × (topic_key s.namespace t ≡ topic_key namespace topic)
          → str_eq s.client_id client_id ≡ false
      not_me s (there, t, on, at) = elim (Bool-cases (str_eq s.client_id client_id)) [
        | inr other ↦ other
        | inl me ↦ absurd (
            apart s
              (ap (λ c. Dict.get c d.registry.sessions) (sym ((eq_iff s.client_id client_id).0 me))
                ∙ there)
              t on at)
      ]
