-- ===== src/Dispatcher/Filled.antt =====
-- A session to which `publish` of TopicDispatcher.ts has given a message has a lane for its topic.
use stream_fence_js.Prelude.{
  ◌≡◌, refl, ◌∙◌, false, String, none, some, arith, Bool-cases, inl, inr, eq_refl, if◌then◌else◌,
}
use stream_fence_js.Prelude.Dict
use stream_fence_js.Prelude.Dict.{get-set}
use stream_fence_js.Policy.{TopicPolicy}
use stream_fence_js.Message.{OutboundTopicMessage, PublishedMessage, new_lane_entry, message_id}
use stream_fence_js.Spill.{SpillQueue}
use stream_fence_js.Lane.{Lane, enqueue}
use stream_fence_js.Sessions.{ClientSessionState, start_drain, has_member}
use stream_fence_js.Dispatcher.{
  Dispatcher, session_of, put_session, put_lane, report, schedule_drain,
}
use stream_fence_js.Dispatcher.Publish.{is_rejected, outcome_effects, enqueue_for_lane}
use stream_fence_js.Dispatcher.Sessions.{session_of-put_session, session_of-same}

module _ {P : Type 0} {Q : SpillQueue P} {C : Type 0} (c topic : String) where
  -- The session object of the client id has a lane for the topic.
  abbrev pub Filled : Dispatcher Q C → Type 0
  Filled d =
      (s : ClientSessionState Q C) × (l : Lane Q) × (session_of c d ≡ some s)
      × (Dict.get topic s.lanes ≡ some l)

  put_session-Filled :
      (s : ClientSessionState Q C) (l : Lane Q) (d : Dispatcher Q C)
      → Dict.get topic s.lanes ≡ some l
      → Filled (put_session c s d)
  put_session-Filled s l d held =
      (s, l, ground (arith, session_of-put_session c c s d, eq_refl c), held)

  same-Filled :
      (d d' : Dispatcher Q C)
      → d'.registry.sessions ≡ d.registry.sessions
      → d'.detached ≡ d.detached
      → Filled d
      → Filled d'
  same-Filled d d' same rest (s, l, there, held) =
      (s, l, session_of-same c d d' same rest ∙ there, held)

  schedule_drain-Filled : (d : Dispatcher Q C) → Filled d → Filled (schedule_drain c topic d)
  unfolding schedule_drain start_drain
  schedule_drain-Filled d (s, l, here, held) =
      elim (Bool-cases (has_member topic s.draining_topics)) [
        | inl on ↦ rw (here, schedule_drain) (rw on (s, l, here, held))
        | inr off ↦
            rw (here, schedule_drain)
              (rw off (
                same-Filled (put_session c _ d) (record (put_session c _ d) { tasks = _ }) refl refl
                  (put_session-Filled _ l d held)))
      ]

  pub enqueue_for_lane-Filled :
      (s : ClientSessionState Q C) (l : Lane Q) (policy : TopicPolicy) (m : OutboundTopicMessage P)
      (d : Dispatcher Q C)
      → Filled (enqueue_for_lane s c topic l policy m d)
  unfolding enqueue_for_lane put_lane
  enqueue_for_lane-Filled s l policy m d =
      let published : PublishedMessage P = record {
        outbound_message = m;
        coalesce_key = if policy.coalesce then some topic else none;
      } in
      let made = new_lane_entry published 0 false d.heap in
      let r = enqueue made.1 l made.0 in
      let s' : ClientSessionState Q C = record s { lanes = Dict.set topic r.1 s.lanes } in
      let d₁ : Dispatcher Q C = record d { heap = made.1 } in
      let there : Filled (put_session c s' d₁) =
        put_session-Filled s' r.1 d₁
          (ground (arith, get-set topic topic r.1 s.lanes, eq_refl topic)) in
      let told =
        report (outcome_effects s.namespace s.client_id topic (message_id made.0) r.0)
          (put_session c s' d₁) in
      let there' : Filled told = same-Filled (put_session c s' d₁) told refl refl there in
      elim (Bool-cases (is_rejected r.0.status)) [
        | inl refused ↦ rw refused there'
        | inr taken ↦ rw taken (schedule_drain-Filled told there')
      ]
