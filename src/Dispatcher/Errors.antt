-- ===== src/Dispatcher/Errors.antt =====
-- When `publish` of TopicDispatcher.ts throws.
use stream_fence_js.Prelude.{
  ◌≡◌, ◌≢◌, ◌↔◌, ◌⊎◌, refl, sym, ap, ◌∙◌, subst, false, ℕ, String, Option, none, some, List, [],
  ◌∷◌, arith, Option-cases, Bool-cases, inl, inr, Result, ok, throws, Result-cases, ◌==◌, Any,
  str_eq, eq_iff, ◌+◌, Any-weaken,
}
use stream_fence_js.Prelude.Dict
use stream_fence_js.Policy.{TopicPolicy, spill_to_disk}
use stream_fence_js.Message.{OutboundTopicMessage, create_outbound_topic_message}
use stream_fence_js.Spill.{SpillQueue}
use stream_fence_js.Lane.{Lane}
use stream_fence_js.Topics.{find}
use stream_fence_js.Sessions.{ClientSessionState, lane, create_default_lane, spill_queue_for}
use stream_fence_js.Sessions.Registry.{subscribers_of}
use stream_fence_js.Dispatcher.{Dispatcher, session_of}
use stream_fence_js.Dispatcher.Publish.{
  Platform, outbound, estimate_bytes, publish, publish_message, enqueue_in, enqueue_for_session,
  enqueue_for_sessions, recording,
}
use stream_fence_js.Dispatcher.Recipients.{enqueue_for_session-apart}
use stream_fence_js.Dispatcher.Filled.{Filled, enqueue_for_lane-Filled}

-- A call has thrown: it has the message of an error.
abbrev pub Throws : {A : Type 0} → A × Option String → Type 0
Throws r = (message : String) × (r.1 ≡ some message)

module _ {P : Type 0} {Q : SpillQueue P} (p : Platform Q) where
  -- JSON text is not empty, so the message can be made.
  outbound_ok :
      (namespace topic : String) (policy : TopicPolicy) (payload : P) (sequence : ℕ)
      → p.byte_length payload ≢ some 0
      → (m : OutboundTopicMessage P) × (outbound p namespace topic policy payload sequence ≡ ok m)
  unfolding outbound estimate_bytes create_outbound_topic_message
  outbound_ok namespace topic policy payload sequence text =
      elim (Option-cases (p.byte_length payload)) [
        | inl unwritable ↦ rw unwritable (_, refl)
        | inr (n, written) ↦ rw written (rw (not_zero n written) (_, refl))
      ]
    where
      not_zero : (n : ℕ) → p.byte_length payload ≡ some n → (n == 0) ≡ false
      not_zero n written = ground arith

some_is : {A : Type 0} {a b : A} → some a ≡ some b → a ≡ b
some_is e = ground arith

module _ {P : Type 0} {Q : SpillQueue P} {C : Type 0} (p : Platform Q) (topic : String)
    (policy : TopicPolicy) where
  -- A session has no lane for the topic, the policy wants one with a disk queue, and the disk queue
  -- cannot be opened.
  pub record CannotOpen (s : ClientSessionState Q C) : Type 0 where
    pub laneless : Dict.get topic s.lanes ≡ none
    pub spills : policy.overflow_action ≡ spill_to_disk
    pub create : String → String → String → Result Q.State
    pub factory : p.spill_queue_factory ≡ some create
    pub message : String
    pub refused : create s.namespace s.client_id topic ≡ throws message

  -- The session object of a client id does so.
  abbrev pub Refuses : Dispatcher Q C → String → Type 0
  Refuses d c = (s : ClientSessionState Q C) × (session_of c d ≡ some s) × CannotOpen s

  lane-CannotOpen :
      (s : ClientSessionState Q C) (message : String)
      → lane p.spill_queue_factory topic (some policy) s ≡ throws message
      → CannotOpen s
  unfolding lane create_default_lane spill_queue_for
  lane-CannotOpen s message e = elim (Option-cases (Dict.get topic s.lanes)) [
    | inr (l, there) ↦ absurd (ground arith)
    | inl missing ↦ elim (Option-cases p.spill_queue_factory) [
      | inl no_factory ↦ absurd (ground arith)
      | inr (create, factory) ↦ elim (Result-cases (create s.namespace s.client_id topic)) [
        | inr (q, opened) ↦ absurd (ground arith)
        | inl (why, refused) ↦ record {
          laneless = missing;
          spills = ground arith;
          create = create;
          factory = factory;
          message = why;
          refused = refused;
        }
      ]
    ]
  ]

  CannotOpen-lane :
      (s : ClientSessionState Q C) (v : CannotOpen s)
      → lane p.spill_queue_factory topic (some policy) s ≡ throws v.message
  unfolding lane create_default_lane spill_queue_for
  CannotOpen-lane s v = ground (arith, v.laneless, v.spills, v.factory, v.refused)

  module _ (m : OutboundTopicMessage P) where
    enqueue_in-ok :
        (a : Option (Lane Q) × ClientSessionState Q C) (c : String) (d : Dispatcher Q C)
        → (enqueue_in (ok a) c topic policy m d).1 ≡ none
    unfolding enqueue_in
    enqueue_in-ok (none, s) c d = refl
    enqueue_in-ok (some l, s) c d = refl

    enqueue_for_session-Throws :
        (c : String) (d : Dispatcher Q C)
        → Throws (enqueue_for_session p c topic policy m d) ↔ Refuses d c
    unfolding enqueue_for_session enqueue_in
    enqueue_for_session-Throws c d = elim (Option-cases (session_of c d)) [
      | inl missing ↦
          rw (missing, enqueue_for_session)
            (λ (_, e). absurd (ground arith), λ (s, there, _). absurd (ground arith))
      | inr (s, here) ↦ elim (Result-cases (lane p.spill_queue_factory topic (some policy) s)) [
        | inl (message, thrown) ↦
            rw (here, enqueue_for_session)
              (rw thrown (λ e. (s, refl, lane-CannotOpen s message thrown), λ r. (message, refl)))
        | inr (a, found) ↦
            let none_thrown : (enqueue_for_session p c topic policy m d).1 ≡ none =
              rw (here, enqueue_for_session) (rw found (enqueue_in-ok a c d)) in
            (
              λ (message, e). absurd (ground (arith, none_thrown)),
              λ (t, there, v).
                  let same : s ≡ t = some_is (sym here ∙ there) in
                  absurd (ground (arith, found, same, CannotOpen-lane t v)),
            )
      ]
    ]

    lane-some :
        (s s' : ClientSessionState Q C)
        → lane p.spill_queue_factory topic (some policy) s ≢ ok (none, s')
    unfolding lane create_default_lane spill_queue_for
    lane-some s s' e = elim (Option-cases (Dict.get topic s.lanes)) [
      | inr (l, there) ↦ absurd (ground arith)
      | inl missing ↦
          elim (Result-cases
            (spill_queue_for p.spill_queue_factory topic s policy.overflow_action)) [
              | inl (message, thrown) ↦ absurd (ground arith)
              | inr (q, opened) ↦ absurd (ground arith)
            ]
    ]

    answered-Filled :
        (c : String) (s : ClientSessionState Q C) (d : Dispatcher Q C)
        → session_of c d ≡ some s
        → (enqueue_for_session p c topic policy m d).1 ≡ none
        → Filled c topic (enqueue_for_session p c topic policy m d).0
    unfolding enqueue_for_session enqueue_in
    answered-Filled c s d here returned =
        elim (Result-cases (lane p.spill_queue_factory topic (some policy) s)) [
          | inl (message, thrown) ↦ absurd (ground arith)
          | inr ((none, s'), found) ↦ absurd (lane-some s s' found)
          | inr ((some l, s'), found) ↦
              rw (here, enqueue_for_session)
                (rw found (enqueue_for_lane-Filled c topic s' l policy m d))
        ]

    nobody :
        (c : String) (d : Dispatcher Q C)
        → session_of c d ≡ none
        → enqueue_for_session p c topic policy m d ≡ (d, none)
    unfolding enqueue_for_session
    nobody c d missing = rw (missing, enqueue_for_session) refl

    -- After the message for one client, if that has not thrown, the same sessions refuse.
    Refuses-after :
        (c j : String) (d : Dispatcher Q C)
        → (enqueue_for_session p c topic policy m d).1 ≡ none
        → Refuses (enqueue_for_session p c topic policy m d).0 j ↔ Refuses d j
    Refuses-after c j d returned = elim (Bool-cases (str_eq c j)) [
      | inr other ↦
          let same = enqueue_for_session-apart c j other p topic policy m d in
          (λ (s, there, v). (s, sym same ∙ there, v), λ (s, there, v). (s, same ∙ there, v))
      | inl me ↦
          let here : c ≡ j = (eq_iff c j).0 me in
          (
            λ (s, there, v). absurd (
                filled s
                  (ap (λ k. session_of k (enqueue_for_session p c topic policy m d).0) here ∙ there)
                  v),
            λ r.
                let (message, thrown) =
                  (enqueue_for_session-Throws c d).1 (subst (Refuses d) (sym here) r) in
                absurd (ground (arith, returned, thrown)),
          )
    ]
      where
        filled :
            (s : ClientSessionState Q C)
            → session_of c (enqueue_for_session p c topic policy m d).0 ≡ some s
            → CannotOpen s
            → ⊥
        filled s there v = elim (Option-cases (session_of c d)) [
          | inl missing ↦
              let gone : session_of c d ≡ some s =
                ap (λ r. session_of c r.0) (sym (nobody c d missing)) ∙ there in
              absurd (ground arith)
          | inr (t, here) ↦
              let (t', l, there', held) = answered-Filled c t d here returned in
              let same : t' ≡ s = some_is (sym there' ∙ there) in
              absurd (ground (arith, v.laneless))
        ]

    enqueue_for_sessions-Throws :
        (ss : List (ClientSessionState Q C)) (d : Dispatcher Q C)
        → Throws (enqueue_for_sessions p ss topic policy m d) ↔ Any (λ s. Refuses d s.client_id) ss
    unfolding enqueue_for_sessions
    enqueue_for_sessions-Throws [] d = (λ (message, e). absurd (ground arith), λ a. absurd a)
    enqueue_for_sessions-Throws (s ∷ ss) d =
        let r = enqueue_for_session p s.client_id topic policy m d in
        elim (Option-cases r.1) [
          | inr (message, thrown) ↦
              let refuses = (enqueue_for_session-Throws s.client_id d).0 (message, thrown) in
              (λ e. inl refuses, λ a. (message, rw (thrown, enqueue_for_sessions) refl))
          | inl returned ↦
              let (to, from) = enqueue_for_sessions-Throws ss r.0 in
              (
                λ (message, e). inr (
                    Any-weaken ss (λ t. (Refuses-after s.client_id t.client_id d returned).0)
                      (to (message, sym (rw (returned, enqueue_for_sessions) refl) ∙ e))),
                λ a. back (r.1) returned (enqueue_for_session-Throws s.client_id d).1 a (λ rest.
                    let (message, e) = from (
                      Any-weaken ss (λ t. (Refuses-after s.client_id t.client_id d returned).1)
                        rest) in
                    (message, rw (returned, enqueue_for_sessions) e)),
              )
        ]
      where
        back :
            {A B : Type 0} {T : Type 0} (o : Option String)
            → o ≡ none
            → (A → (message : String) × (o ≡ some message))
            → A ⊎ B
            → (B → T)
            → T
        back o returned head (inl a) rest = let (message, e) = head a in absurd (ground arith)
        back o returned head (inr b) rest = rest b

module _ {P : Type 0} {Q : SpillQueue P} {C : Type 0} where
  recording-Throws :
      (namespace topic : String) (bytes : ℕ) (r : Dispatcher Q C × Option String)
      → Throws (recording namespace topic bytes r) ↔ Throws r
  recording-Throws namespace topic bytes (d, some message) = (λ e. e, λ e. e)
  recording-Throws namespace topic bytes (d, none) = (λ e. e, λ e. e)

module _ {P : Type 0} {Q : SpillQueue P} {C : Type 0} (p : Platform Q) where
  -- If the payload's JSON text is not empty, `publish` throws exactly if the topic has no policy in
  -- the namespace, or a subscriber of the topic has no lane for it yet and needs one with a disk
  -- queue that cannot be opened.
  pub publish-Throws :
      (namespace topic : String) (payload : P) (d : Dispatcher Q C)
      → p.byte_length payload ≢ some 0
      → Throws (publish p namespace topic payload d) ↔ (
          (find namespace topic d.policies ≡ none)
          ⊎ ((policy : TopicPolicy) × (find namespace topic d.policies ≡ some policy)
              × Any
                  (λ s. Refuses p topic policy d s.client_id)
                  (subscribers_of namespace topic d.registry)))
  unfolding publish publish_message session_of
  publish-Throws namespace topic payload d text =
      elim (Option-cases (find namespace topic d.policies)) [
        | inl unknown ↦ (λ e. inl unknown, λ e. rw (unknown, publish) (_, refl))
        | inr (policy, known) ↦
            let d₁ : Dispatcher Q C = record d { next_sequence = d.next_sequence + 1 } in
            let ss = subscribers_of namespace topic d.registry in
            let (m, made) = outbound_ok p namespace topic policy payload d.next_sequence text in
            let sent = enqueue_for_sessions p ss topic policy m d₁ in
            let whole : publish p namespace topic payload d
                ≡ recording namespace topic m.estimated_bytes sent =
              rw (known, publish) (rw made refl) in
            let (to, from) = enqueue_for_sessions-Throws p topic policy m ss d₁ in
            let (after, before) = recording-Throws namespace topic m.estimated_bytes sent in
            (
              λ (message, e).
                  inr (policy, known, to (after (message, ap (λ r. r.1) (sym whole) ∙ e))),
              λ o.
                  let (message, e) = before (from (refusing d policy known o)) in
                  (message, ap (λ r. r.1) whole ∙ e),
            )
      ]
    where
      refusing :
          (d : Dispatcher Q C) (policy : TopicPolicy)
          → find namespace topic d.policies ≡ some policy
          → (find namespace topic d.policies ≡ none)
            ⊎ ((policy' : TopicPolicy) × (find namespace topic d.policies ≡ some policy')
                × Any
                    (λ s. Refuses p topic policy' d s.client_id)
                    (subscribers_of namespace topic d.registry))
          → Any
              (λ s. Refuses p topic policy d s.client_id)
              (subscribers_of namespace topic d.registry)
      refusing d policy known (inl unknown) = absurd (ground arith)
      refusing d policy known (inr (policy', known', any)) =
          subst
            (λ x.
              Any (λ s. Refuses p topic x d s.client_id)
                (subscribers_of namespace topic d.registry))
            (some_is (sym known' ∙ known)) any
