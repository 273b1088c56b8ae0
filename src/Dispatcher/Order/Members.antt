-- ===== src/Dispatcher/Order/Members.antt =====
-- Connections, subscriptions and disconnections keep the order of drains of TopicDispatcher.ts.
use stream_fence_js.Prelude.{
  ◌≡◌, refl, ap, ◌∙◌, false, String, none, some, [], ◌∷◌, str_eq, eq_iff, eq_refl, arith, not,
  Option-cases, Bool-cases, inl, inr, if◌then◌else◌,
}
use stream_fence_js.Prelude.Dict
use stream_fence_js.Prelude.Dict.{get-set, get-delete}
use stream_fence_js.Events.{unsubscribed}
use stream_fence_js.Spill.{SpillQueue}
use stream_fence_js.Ack.{remove_client_topic}
use stream_fence_js.Sessions.{
  ClientSessionState, has_member, dispose, subscribe_topic, unsubscribe_topic,
}
use stream_fence_js.Sessions.Registry.{register, get_session, subscribe, unsubscribe}
use stream_fence_js.Sessions.Members.{remove_subscription-sessions}
use stream_fence_js.Sessions.Departure.{remove-sessions}
use stream_fence_js.Dispatcher.{Dispatcher, event, session_of, put_session, report}
use stream_fence_js.Dispatcher.Retries.{
  keep_detached, on_client_disconnected, on_client_unsubscribed,
}
use stream_fence_js.Dispatcher.Sessions.{Quiet}
use stream_fence_js.Dispatcher.Order.{IsOrderly, Quiet-IsOrderly}

module _ {P : Type 0} {Q : SpillQueue P} {C : Type 0} where
  -- A registered session object is written.
  rewritten-Quiet :
      (c : String) (s s' : ClientSessionState Q C) (d d' : Dispatcher Q C)
      → Dict.get c d.registry.sessions ≡ some s
      → s'.client_id ≡ s.client_id
      → s'.draining_topics ≡ s.draining_topics
      → d'.registry.sessions ≡ Dict.set c s' d.registry.sessions
      → d'.detached ≡ d.detached
      → Quiet d d'
  unfolding session_of
  rewritten-Quiet c s s' d d' there id topics written same j = ground (
    arith,
    ap (Dict.get j) written,
    ap (Dict.get j) same,
    get-set c j s' d.registry.sessions,
    eq_iff c j,
  )

  -- A registered session leaves the registry.
  detached-Quiet :
      (c : String) (s s' u : ClientSessionState Q C) (d d' : Dispatcher Q C)
      → Dict.get c d.registry.sessions ≡ some s
      → s'.client_id ≡ s.client_id
      → s'.draining_topics ≡ s.draining_topics
      → d'.registry.sessions ≡ Dict.delete c (Dict.set c u d.registry.sessions)
      → d'.detached ≡ Dict.set c s' d.detached
      → Quiet d d'
  unfolding session_of
  detached-Quiet c s s' u d d' there id topics deleted set j = ground (
    arith,
    ap (Dict.get j) deleted,
    ap (Dict.get j) set,
    get-delete c j (Dict.set c u d.registry.sessions),
    get-set c j u d.registry.sessions,
    get-set c j s' d.detached,
    eq_iff c j,
  )

  pub subscribe-IsOrderly :
      (s : ClientSessionState Q C) (topic : String) (d : Dispatcher Q C)
      → get_session s.client_id d.registry ≡ some s
      → IsOrderly none d
      → IsOrderly none (record d { registry = subscribe s topic d.registry })
  unfolding subscribe subscribe_topic get_session
  subscribe-IsOrderly s topic d there v =
      Quiet-IsOrderly none d (record d { registry = subscribe s topic d.registry })
        (rewritten-Quiet s.client_id s (subscribe_topic topic s) d
          (record d { registry = subscribe s topic d.registry }) there refl refl refl refl)
        refl v

  -- The client of the session is new.
  pub register-IsOrderly :
      (s : ClientSessionState Q C) (d : Dispatcher Q C)
      → session_of s.client_id d ≡ none
      → s.draining_topics ≡ []
      → IsOrderly none d
      → IsOrderly none (record d { registry = register s d.registry })
  unfolding register session_of has_member
  register-IsOrderly s d new idle v =
      let put : (j : String)
          → Dict.get j (Dict.set s.client_id s d.registry.sessions)
            ≡ (if str_eq s.client_id j then some s else Dict.get j d.registry.sessions) =
        λ j. get-set s.client_id j s d.registry.sessions in
      let idle_at : (u : String) → has_member u s.draining_topics ≡ false =
        λ u. ap (has_member u) idle in
      record {
        named = λ c n topics e. ground (arith, put c, eq_iff s.client_id c, v.named c n topics);
        exclusive = λ j u. ground (arith, put j, eq_iff s.client_id j, v.exclusive j u, idle_at u);
      }

  pub on_client_unsubscribed-IsOrderly :
      (client_id namespace topic : String) (d : Dispatcher Q C)
      → IsOrderly none d
      → IsOrderly none (on_client_unsubscribed client_id namespace topic d)
  unfolding on_client_unsubscribed get_session unsubscribe unsubscribe_topic session_of
  on_client_unsubscribed-IsOrderly client_id namespace topic d v =
      elim (Option-cases (Dict.get client_id d.registry.sessions)) [
        | inl missing ↦ rw (missing, on_client_unsubscribed) v
        | inr (s, there) ↦ elim (Bool-cases (not (str_eq s.namespace namespace))) [
          | inl other ↦ rw (there, on_client_unsubscribed) (rw other v)
          | inr own ↦
              let id : s.client_id ≡ client_id =
                v.named client_id s.client_id s.draining_topics (ground arith) in
              let d' = report (event (unsubscribed namespace client_id topic) ∷ []) (record d {
                tracker = remove_client_topic client_id namespace topic d.tracker;
                registry = unsubscribe s topic d.registry;
              }) in
              let r = record d.registry {
                sessions = Dict.set s.client_id (unsubscribe_topic topic s) d.registry.sessions;
              } in
              rw (there, on_client_unsubscribed)
                (rw own (
                  Quiet-IsOrderly none d d'
                    (rewritten-Quiet client_id s (unsubscribe_topic topic s) d d' there refl refl
                      (remove_subscription-sessions s.namespace topic s.client_id r
                        ∙ ap (λ c. Dict.set c (unsubscribe_topic topic s) d.registry.sessions) id)
                      refl)
                    refl v))
        ]
      ]

  pub on_client_disconnected-IsOrderly :
      (client_id : String) (d : Dispatcher Q C)
      → IsOrderly none d
      → IsOrderly none (on_client_disconnected client_id d)
  unfolding on_client_disconnected get_session put_session Dict.has dispose
  on_client_disconnected-IsOrderly client_id d v =
      elim (Option-cases (Dict.get client_id d.registry.sessions)) [
        | inl missing ↦ rw (missing, on_client_disconnected) v
        | inr (s, there) ↦
            let r = record d.registry {
              sessions = Dict.set client_id (dispose s) d.registry.sessions;
            } in
            let (disposed, deleted) = remove-sessions client_id (dispose s) r (
              ground (
                arith,
                get-set client_id client_id (dispose s) d.registry.sessions,
                eq_refl client_id,
              )) in
            rw (there, on_client_disconnected)
              (rw there (
                Quiet-IsOrderly none d _
                  (detached-Quiet client_id s (dispose (dispose s)) (dispose s) d _ there refl refl
                    deleted (ap (λ o. keep_detached client_id o d.detached) disposed))
                  refl v))
      ]
