-- ===== src/Dispatcher/Sending.antt =====
-- What all of `enqueueForSession` keeps is kept by `publish` and `publishTo` of TopicDispatcher.ts,
-- whether they return or throw.
use stream_fence_js.Prelude.{
  ℕ, ◌+◌, String, Option, none, some, List, [], ◌∷◌, Option-cases, Bool-cases, inl, inr,
  Result-cases, All,
}
use stream_fence_js.Policy.{TopicPolicy}
use stream_fence_js.Message.{OutboundTopicMessage}
use stream_fence_js.Spill.{SpillQueue}
use stream_fence_js.Topics.{find}
use stream_fence_js.Sessions.{ClientSessionState}
use stream_fence_js.Sessions.Registry.{subscribers_of, get_session}
use stream_fence_js.Dispatcher.{Dispatcher, Effect}
use stream_fence_js.Dispatcher.Publish.{
  Platform, enqueue_for_session, enqueue_for_sessions, outbound, publish, publish_to,
  publish_message, publish_message_to, is_recipient, recording,
}

abbrev pub Everyone : String → Type 0
Everyone c = Unit {0}

-- A statement on dispatchers that `enqueueForSession` keeps for the client ids of `Whom`.
pub record IsKept {P : Type 0} {Q : SpillQueue P} {C : Type 0} (p : Platform Q)
    (Whom : String → Type 0) (I : Dispatcher Q C → Type 0) : Type 0 where
  pub numbered : (d : Dispatcher Q C) (n : ℕ) → I d → I (record d { next_sequence = n })
  pub logged :
      (d : Dispatcher Q C) (effects : List (Effect P)) → I d → I (record d { log = effects })
  pub enqueued :
      (c topic : String) (policy : TopicPolicy) (m : OutboundTopicMessage P) (d : Dispatcher Q C)
      → Whom c
      → I d
      → I (enqueue_for_session p c topic policy m d).0

module _ {P : Type 0} {Q : SpillQueue P} {C : Type 0} {p : Platform Q} {Whom : String → Type 0}
    {I : Dispatcher Q C → Type 0} (law : IsKept p Whom I) where
  recording_keeps :
      (namespace topic : String) (bytes : ℕ) (r : Dispatcher Q C × Option String)
      → I r.0
      → I (recording namespace topic bytes r).0
  recording_keeps namespace topic bytes (d, some message) v = v
  recording_keeps namespace topic bytes (d, none) v = law.logged d _ v

  enqueue_for_sessions_keeps :
      (ss : List (ClientSessionState Q C)) (topic : String) (policy : TopicPolicy)
      (m : OutboundTopicMessage P) (d : Dispatcher Q C)
      → All (λ s. Whom s.client_id) ss
      → I d
      → I (enqueue_for_sessions p ss topic policy m d).0
  unfolding enqueue_for_sessions
  enqueue_for_sessions_keeps [] topic policy m d whom v = v
  enqueue_for_sessions_keeps (s ∷ ss) topic policy m d (one, others) v =
      let r = enqueue_for_session p s.client_id topic policy m d in
      let v' : I r.0 = law.enqueued s.client_id topic policy m d one v in
      elim (Option-cases r.1) [
        | inl returned ↦
            rw (returned, enqueue_for_sessions)
              (enqueue_for_sessions_keeps ss topic policy m r.0 others v')
        | inr (message, thrown) ↦ rw (thrown, enqueue_for_sessions) v'
      ]

  pub publish_keeps :
      (namespace topic : String) (payload : P) (d : Dispatcher Q C)
      → All (λ s. Whom s.client_id) (subscribers_of namespace topic d.registry)
      → I d
      → I (publish p namespace topic payload d).0
  unfolding publish publish_message
  publish_keeps namespace topic payload d whom v =
      elim (Option-cases (find namespace topic d.policies)) [
        | inl unknown ↦ rw (unknown, publish) v
        | inr (policy, known) ↦
            let d₁ : Dispatcher Q C = record d { next_sequence = d.next_sequence + 1 } in
            let v₁ : I d₁ = law.numbered d _ v in
            elim (Result-cases (outbound p namespace topic policy payload d.next_sequence)) [
              | inl (message, thrown) ↦ rw (known, publish) (rw thrown v₁)
              | inr (m, made) ↦
                  rw (known, publish)
                    (rw made (
                      recording_keeps namespace topic m.estimated_bytes _ (
                        enqueue_for_sessions_keeps (subscribers_of namespace topic d.registry) topic
                          policy m d₁ whom v₁)))
            ]
      ]

  pub publish_to_keeps :
      (namespace client_id topic : String) (payload : P) (d : Dispatcher Q C)
      → Whom client_id
      → I d
      → I (publish_to p namespace client_id topic payload d).0
  unfolding publish_to publish_message_to
  publish_to_keeps namespace client_id topic payload d whom v =
      elim (Option-cases (find namespace topic d.policies)) [
        | inl unknown ↦ rw (unknown, publish_to) v
        | inr (policy, known) ↦ elim (Option-cases (get_session client_id d.registry)) [
          | inl missing ↦ rw (known, publish_to) (rw missing v)
          | inr (s, there) ↦ elim (Bool-cases (is_recipient namespace topic s)) [
            | inr refuses ↦ rw (known, publish_to) (rw there (rw refuses v))
            | inl accepts ↦
                let d₁ : Dispatcher Q C = record d { next_sequence = d.next_sequence + 1 } in
                let v₁ : I d₁ = law.numbered d _ v in
                elim (Result-cases (outbound p namespace topic policy payload d.next_sequence)) [
                  | inl (message, thrown) ↦
                      rw (known, publish_to) (rw there (rw (accepts, thrown) v₁))
                  | inr (m, made) ↦
                      rw (known, publish_to)
                        (rw there (
                          rw (accepts, made)
                            (recording_keeps namespace topic m.estimated_bytes _
                              (law.enqueued client_id topic policy m d₁ whom v₁))))
                ]
          ]
        ]
      ]
