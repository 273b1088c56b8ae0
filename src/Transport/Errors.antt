-- ===== src/Transport/Errors.antt =====
-- When a client's request makes NamespaceHandler.ts throw.
use stream_fence_js.Prelude.{
  ◌≡◌, ◌≢◌, ◌↔◌, refl, sym, ap, subst, ◌∙◌, true, String, Option, none, some, List, arith,
  Option-cases, Bool-cases, inl, inr, Any,
}
use stream_fence_js.Prelude.Dict
use stream_fence_js.Policy.{TopicPolicy}
use stream_fence_js.Spill.{SpillQueue}
use stream_fence_js.Topics
use stream_fence_js.Topics.{find}
use stream_fence_js.Sessions.{has_member}
use stream_fence_js.Sessions.Registry.{subscribers_of}
use stream_fence_js.Dispatcher.Publish.{Platform, publish}
use stream_fence_js.Dispatcher.Errors.{Throws, Refuses, publish-Throws}
use stream_fence_js.Transport.{
  NamespaceHandler, Request, subscription, unsubscription, publication, ack, topic_name, on_publish,
  answer, receive,
}

-- `topicRegistry.has`
has-find :
    (namespace topic : String) (policies : List (String × TopicPolicy))
    → Topics.has namespace topic policies ≡ true
    → find namespace topic policies ≢ none
unfolding Topics.has Dict.has find
has-find namespace topic policies has missing = ground arith

find-has :
    (namespace topic : String) (policies : List (String × TopicPolicy)) (policy : TopicPolicy)
    → find namespace topic policies ≡ some policy
    → Topics.has namespace topic policies ≡ true
unfolding Topics.has Dict.has find
find-has namespace topic policies policy known = ground arith

-- The topic that a request names has a policy, and a subscriber without a lane for it needs one
-- with a disk queue that cannot be opened.
pub record IsUndeliverable {P : Type 0} {Q : SpillQueue P} {C : Type 0} (p : Platform Q)
    (given : Option String) (h : NamespaceHandler Q C) : Type 0 where
  pub topic : String
  pub policy : TopicPolicy
  pub named : topic_name given ≡ some topic
  pub known : find h.namespace_path topic h.dispatcher.policies ≡ some policy
  pub refused :
      Any
        (λ s. Refuses p topic policy h.dispatcher s.client_id)
        (subscribers_of h.namespace_path topic h.dispatcher.registry)

-- The request publishes to such a topic.
pub record IsRefused {P : Type 0} {Q : SpillQueue P} {C : Type 0} (p : Platform Q)
    (request : Request P) (h : NamespaceHandler Q C) : Type 0 where
  pub given : Option String
  pub payload : P
  pub publishes : request ≡ publication given payload
  pub undeliverable : IsUndeliverable p given h

module _ {P : Type 0} {Q : SpillQueue P} {C : Type 0} (p : Platform Q) where
  on_publish-Throws :
      (given : Option String) (payload : P) (h : NamespaceHandler Q C)
      → p.byte_length payload ≢ some 0
      → Throws (on_publish p given payload h) ↔ IsUndeliverable p given h
  unfolding on_publish
  on_publish-Throws given payload h text = (to, from)
    where
      throws_as :
          (topic : String)
          → topic_name given ≡ some topic
          → Topics.has h.namespace_path topic h.dispatcher.policies ≡ true
          → (on_publish p given payload h).1
            ≡ (publish p h.namespace_path topic payload h.dispatcher).1
      throws_as topic named has = rw (named, on_publish) (rw has refl)

      to : Throws (on_publish p given payload h) → IsUndeliverable p given h
      to (message, e) = elim (Option-cases (topic_name given)) [
        | inl unnamed ↦ absurd (ground arith)
        | inr (topic, named) ↦
            elim (Bool-cases (Topics.has h.namespace_path topic h.dispatcher.policies)) [
              | inr unknown ↦ absurd (ground arith)
              | inl has ↦
                  elim ((publish-Throws p h.namespace_path topic payload h.dispatcher text).0
                    (message, sym (throws_as topic named has) ∙ e)) [
                      | inl missing ↦
                          absurd (has-find h.namespace_path topic h.dispatcher.policies has missing)
                      | inr (policy, known, refused) ↦ record {
                        topic = topic;
                        policy = policy;
                        named = named;
                        known = known;
                        refused = refused;
                      }
                    ]
            ]
      ]

      from : IsUndeliverable p given h → Throws (on_publish p given payload h)
      from u =
          let has = find-has h.namespace_path u.topic h.dispatcher.policies u.policy u.known in
          let (message, e) =
            (publish-Throws p h.namespace_path u.topic payload h.dispatcher text).1
              (inr (u.policy, u.known, u.refused)) in
          (message, throws_as u.topic u.named has ∙ e)

  answer-Throws :
      (client_id : String) (request : Request P) (h : NamespaceHandler Q C)
      → ((payload : P) → p.byte_length payload ≢ some 0)
      → Throws (answer p client_id request h) ↔ IsRefused p request h
  unfolding answer
  answer-Throws client_id (subscription topic) h text =
      (λ (m, e). absurd (ground arith), λ r. absurd (ground (arith, r.publishes)))
  answer-Throws client_id (unsubscription topic) h text =
      (λ (m, e). absurd (ground arith), λ r. absurd (ground (arith, r.publishes)))
  answer-Throws client_id (ack topic id) h text =
      (λ (m, e). absurd (ground arith), λ r. absurd (ground (arith, r.publishes)))
  answer-Throws client_id (publication given payload) h text =
      let (to, from) = on_publish-Throws given payload h (text payload) in
      (
        λ e. record { given = given; payload = payload; publishes = refl; undeliverable = to e },
        λ r. from (
            subst (λ g. IsUndeliverable p g h) (ap (given_of given) (sym r.publishes))
              r.undeliverable),
      )
    where
      given_of : Option String → Request P → Option String
      given_of default (publication g q) = g
      given_of default _ = default

  -- If no payload has an empty JSON text, a request makes its handler throw exactly if the handler
  -- listens to its client and it is a publication to a topic that has a policy and a subscriber who
  -- has no lane for it yet and needs one with a disk queue that cannot be opened.
  pub receive-Throws :
      (client_id : String) (request : Request P) (h : NamespaceHandler Q C)
      → ((payload : P) → p.byte_length payload ≢ some 0)
      → Throws (receive p client_id request h)
        ↔ ((has_member client_id h.connections ≡ true) × IsRefused p request h)
  unfolding receive
  receive-Throws client_id request h text =
      let (to, from) = answer-Throws client_id request h text in
      elim (Bool-cases (has_member client_id h.connections)) [
        | inl heard ↦ rw heard (λ e. (refl, to e), λ (_, r). from r)
        | inr unheard ↦
            rw unheard (λ (message, e). absurd (ground arith), λ (e, r). absurd (ground arith))
      ]
