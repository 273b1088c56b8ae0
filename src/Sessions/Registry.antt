-- ===== src/Sessions/Registry.antt =====
-- src/internal/delivery/ClientSessionRegistry.ts: which client is subscribed to what. The registry
-- knows a session object under its client id; what is written to a registered object is written
-- there.
use stream_fence_js.Prelude.{String, Option, none, some, List, [], ◌∷◌, length, ◌==◌, if◌then◌else◌}
use stream_fence_js.Prelude.Dict
use stream_fence_js.Spill.{SpillQueue}
use stream_fence_js.Topics.{topic_key}
use stream_fence_js.Sessions.{
  ClientSessionState, add, remove_member, subscribe_topic, unsubscribe_topic, dispose,
}

pub record ClientSessionRegistry {P : Type 0} (Q : SpillQueue P) (C : Type 0) : Type 0 where
  pub sessions : List (String × ClientSessionState Q C)
  pub subscriptions : List (String × List String)

-- The client ids under a key.
abbrev pub ids : Option (List String) → List String
ids none = []
ids (some s) = s

-- An empty set is taken out of the map.
abbrev pub without :
    String → List String → List (String × List String) → List (String × List String)
without key subscribers m =
    if length subscribers == 0 then Dict.delete key m else Dict.set key subscribers m

module _ {P : Type 0} {Q : SpillQueue P} {C : Type 0} where
  unfoldable pub register :
      ClientSessionState Q C → ClientSessionRegistry Q C → ClientSessionRegistry Q C
  register s r = record r { sessions = Dict.set s.client_id s r.sessions }

  unfoldable pub remove_subscription :
      String → String → String → ClientSessionRegistry Q C → ClientSessionRegistry Q C
  unfolding topic_key remove_member
  remove_subscription namespace topic client_id r =
      let key = topic_key namespace topic in
      elim (Dict.get key r.subscriptions) [
        | none ↦ r
        | some subscribers ↦ record r {
          subscriptions = without key (remove_member client_id subscribers) r.subscriptions;
        }
      ]

  -- The loop of `remove` over the topics of the session.
  unfoldable pub remove_subscriptions :
      String → List String → String → ClientSessionRegistry Q C → ClientSessionRegistry Q C
  unfolding remove_subscription
  remove_subscriptions namespace [] client_id r = r
  remove_subscriptions namespace (topic ∷ topics) client_id r =
      remove_subscriptions namespace topics client_id
        (remove_subscription namespace topic client_id r)

  -- Also the session that was disposed of, if there was one.
  unfoldable pub remove :
      String
      → ClientSessionRegistry Q C
      → Option (ClientSessionState Q C) × ClientSessionRegistry Q C
  unfolding remove_subscriptions dispose
  remove client_id r = elim (Dict.get client_id r.sessions) [
    | none ↦ (none, record r { sessions = Dict.delete client_id r.sessions })
    | some s ↦
        let r' = remove_subscriptions s.namespace s.subscriptions client_id r in
        (some (dispose s), record r' { sessions = Dict.delete client_id r'.sessions })
  ]

  unfoldable pub get_session : String → ClientSessionRegistry Q C → Option (ClientSessionState Q C)
  get_session client_id r = Dict.get client_id r.sessions

  -- The loop of `subscribersOf`.
  unfoldable pub sessions_of :
      List String → List (String × ClientSessionState Q C) → List (ClientSessionState Q C)
  sessions_of [] sessions = []
  sessions_of (client_id ∷ client_ids) sessions =
      let rest = sessions_of client_ids sessions in
      elim (Dict.get client_id sessions) [ none ↦ rest | some s ↦ s ∷ rest ]

  unfoldable pub subscribers_of :
      String → String → ClientSessionRegistry Q C → List (ClientSessionState Q C)
  unfolding topic_key sessions_of
  subscribers_of namespace topic r = elim (Dict.get (topic_key namespace topic) r.subscriptions) [
    | none ↦ []
    | some client_ids ↦ sessions_of client_ids r.sessions
  ]

  unfoldable pub subscribe :
      ClientSessionState Q C → String → ClientSessionRegistry Q C → ClientSessionRegistry Q C
  unfolding topic_key add subscribe_topic
  subscribe s topic r =
      let key = topic_key s.namespace topic in
      record {
        sessions = Dict.set s.client_id (subscribe_topic topic s) r.sessions;
        subscriptions =
            Dict.set key (add s.client_id (ids (Dict.get key r.subscriptions))) r.subscriptions;
      }

  -- For the session that is registered under its client id.
  unfoldable pub unsubscribe :
      ClientSessionState Q C → String → ClientSessionRegistry Q C → ClientSessionRegistry Q C
  unfolding unsubscribe_topic remove_subscription
  unsubscribe s topic r =
      remove_subscription s.namespace topic s.client_id
        (record r { sessions = Dict.set s.client_id (unsubscribe_topic topic s) r.sessions })
