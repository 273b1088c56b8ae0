-- ===== src/Dispatcher/Lanes/Members.antt =====
-- Connections, subscriptions and disconnections in TopicDispatcher.ts keep what lanes keep.
use stream_fence_js.Prelude.{
  ◌≡◌, refl, ap, sym, subst, String, some, List, [], ◌∷◌, map, str_eq, eq_iff, eq_refl, arith, not,
  Option-cases, Bool-cases, inl, inr,
}
use stream_fence_js.Prelude.Dict
use stream_fence_js.Prelude.Dict.{get-set, get-delete, get-map}
use stream_fence_js.Events.{unsubscribed}
use stream_fence_js.Spill.{SpillQueue}
use stream_fence_js.Ack.{remove_client_topic}
use stream_fence_js.Lane.{Lane, clear_spill}
use stream_fence_js.Sessions.{ClientSessionState, dispose, subscribe_topic, unsubscribe_topic}
use stream_fence_js.Sessions.Registry.{register, get_session, subscribe, unsubscribe}
use stream_fence_js.Sessions.Members.{remove_subscription-sessions}
use stream_fence_js.Sessions.Departure.{remove-sessions}
use stream_fence_js.Dispatcher.{Dispatcher, event, session_of, put_session, report}
use stream_fence_js.Dispatcher.Retries.{
  keep_detached, on_client_disconnected, on_client_unsubscribed,
}
use stream_fence_js.Dispatcher.Lanes.{IsLaneInvariant, Held, AllHeld}

module _ {P : Type 0} {Q : SpillQueue P} {C : Type 0} {Keeps : Lane Q → Type 0} where
  registered-Held :
      (c : String) (s : ClientSessionState Q C) (d : Dispatcher Q C)
      → Dict.get c d.registry.sessions ≡ some s
      → AllHeld Keeps d
      → Held Keeps s
  unfolding session_of
  registered-Held c s d there v = v c s (ground arith)

  -- A registered session object is written.
  rewritten-AllHeld :
      (c : String) (s : ClientSessionState Q C) (d d' : Dispatcher Q C)
      → Held Keeps s
      → d'.registry.sessions ≡ Dict.set c s d.registry.sessions
      → d'.detached ≡ d.detached
      → AllHeld Keeps d
      → AllHeld Keeps d'
  unfolding session_of
  rewritten-AllHeld c s d d' held written same v j u e = elim (Bool-cases (str_eq c j)) [
    | inl me ↦
        let found : u ≡ s =
          ground (arith, ap (Dict.get j) written, get-set c j s d.registry.sessions, eq_iff c j) in
        subst (Held Keeps) (sym found) held
    | inr apart ↦ v j u (
        ground (
          arith,
          ap (Dict.get j) written,
          ap (Dict.get j) same,
          get-set c j s d.registry.sessions,
          eq_iff c j,
        ))
  ]

  -- A registered session leaves the registry.
  detached-AllHeld :
      (c : String) (s u : ClientSessionState Q C) (d d' : Dispatcher Q C)
      → Held Keeps s
      → d'.registry.sessions ≡ Dict.delete c (Dict.set c u d.registry.sessions)
      → d'.detached ≡ Dict.set c s d.detached
      → AllHeld Keeps d
      → AllHeld Keeps d'
  unfolding session_of
  detached-AllHeld c s u d d' held deleted set v j w e = elim (Bool-cases (str_eq c j)) [
    | inl me ↦
        let found : w ≡ s = ground (
          arith,
          ap (Dict.get j) deleted,
          ap (Dict.get j) set,
          get-delete c j (Dict.set c u d.registry.sessions),
          get-set c j s d.detached,
          eq_iff c j,
        ) in
        subst (Held Keeps) (sym found) held
    | inr apart ↦ v j w (
        ground (
          arith,
          ap (Dict.get j) deleted,
          ap (Dict.get j) set,
          get-delete c j (Dict.set c u d.registry.sessions),
          get-set c j u d.registry.sessions,
          get-set c j s d.detached,
          eq_iff c j,
        ))
  ]

  pub subscribe-AllHeld :
      (s : ClientSessionState Q C) (topic : String) (d : Dispatcher Q C)
      → get_session s.client_id d.registry ≡ some s
      → AllHeld Keeps d
      → AllHeld Keeps (record d { registry = subscribe s topic d.registry })
  unfolding subscribe subscribe_topic get_session
  subscribe-AllHeld s topic d there v =
      rewritten-AllHeld s.client_id (subscribe_topic topic s) d
        (record d { registry = subscribe s topic d.registry })
        (registered-Held s.client_id s d there v) refl refl v

  pub register-AllHeld :
      (s : ClientSessionState Q C) (d : Dispatcher Q C)
      → s.lanes ≡ []
      → AllHeld Keeps d
      → AllHeld Keeps (record d { registry = register s d.registry })
  unfolding register Dict.get
  register-AllHeld s d fresh v =
      rewritten-AllHeld s.client_id s d (record d { registry = register s d.registry })
        (λ t l e. absurd (ground arith)) refl refl v

  pub on_client_unsubscribed-AllHeld :
      (client_id namespace topic : String) (d : Dispatcher Q C)
      → AllHeld Keeps d
      → AllHeld Keeps (on_client_unsubscribed client_id namespace topic d)
  unfolding on_client_unsubscribed get_session unsubscribe unsubscribe_topic
  on_client_unsubscribed-AllHeld client_id namespace topic d v =
      elim (Option-cases (Dict.get client_id d.registry.sessions)) [
        | inl missing ↦ rw (missing, on_client_unsubscribed) v
        | inr (s, there) ↦ elim (Bool-cases (not (str_eq s.namespace namespace))) [
          | inl other ↦ rw (there, on_client_unsubscribed) (rw other v)
          | inr own ↦
              let d' = report (event (unsubscribed namespace client_id topic) ∷ []) (record d {
                tracker = remove_client_topic client_id namespace topic d.tracker;
                registry = unsubscribe s topic d.registry;
              }) in
              let r = record d.registry {
                sessions = Dict.set s.client_id (unsubscribe_topic topic s) d.registry.sessions;
              } in
              rw (there, on_client_unsubscribed)
                (rw own (
                  rewritten-AllHeld s.client_id (unsubscribe_topic topic s) d d'
                    (registered-Held client_id s d there v)
                    (remove_subscription-sessions s.namespace topic s.client_id r) refl v))
        ]
      ]

module _ {P : Type 0} {Q : SpillQueue P} {C : Type 0} {Keeps : Lane Q → Type 0}
    (law : IsLaneInvariant Keeps) where
  dispose-Held : (s : ClientSessionState Q C) → Held Keeps s → Held Keeps (dispose s)
  unfolding dispose
  dispose-Held s v = cleared s.lanes v
    where
      cleared :
          (m : List (String × Lane Q))
          → ((t : String) (l : Lane Q) → Dict.get t m ≡ some l → Keeps l)
          → (t : String) (l : Lane Q)
          → Dict.get t (map (λ (topic, l). (topic, clear_spill l)) m) ≡ some l
          → Keeps l
      cleared m v t l e =
          let (l', there, same) = get-map t clear_spill l m e in
          subst Keeps (sym same) (law.cleared l' (v t l' there))

  pub on_client_disconnected-AllHeld :
      (client_id : String) (d : Dispatcher Q C)
      → AllHeld Keeps d
      → AllHeld Keeps (on_client_disconnected client_id d)
  unfolding on_client_disconnected get_session put_session Dict.has
  on_client_disconnected-AllHeld client_id d v =
      elim (Option-cases (Dict.get client_id d.registry.sessions)) [
        | inl missing ↦ rw (missing, on_client_disconnected) v
        | inr (s, there) ↦
            let r = record d.registry {
              sessions = Dict.set client_id (dispose s) d.registry.sessions;
            } in
            let (disposed, deleted) = remove-sessions client_id (dispose s) r (
              ground (
                arith,
                get-set client_id client_id (dispose s) d.registry.sessions,
                eq_refl client_id,
              )) in
            let held = registered-Held client_id s d there v in
            rw (there, on_client_disconnected)
              (rw there (
                detached-AllHeld client_id (dispose (dispose s)) (dispose s) d _
                  (dispose-Held (dispose s) (dispose-Held s held)) deleted
                  (ap (λ o. keep_detached client_id o d.detached) disposed) v))
      ]
