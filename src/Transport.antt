-- ===== src/Transport.antt =====
-- src/internal/transport/NamespaceHandler.ts over the dispatcher.
--
-- A socket is known by its id, which is the client id. A handler listens to the socket's events from
-- its connection to its cleanup: that is, as long as the id is a key of `connectionCleanups`.
pub mod Stopping
pub mod Departing
pub mod Errors
use stream_fence_js.Prelude.{
  ◌≡◌, ap, Bool, true, false, not, String, Option, none, some, List, [], ◌∷◌, is_blank,
  if◌then◌else◌,
}
use stream_fence_js.Prelude.Dict
use stream_fence_js.Spill.{SpillQueue}
use stream_fence_js.Topics
use stream_fence_js.Sessions.{ClientSessionState, has_member, add, remove_member}
use stream_fence_js.Sessions.Registry.{register, subscribe, get_session}
use stream_fence_js.Dispatcher.{Dispatcher}
use stream_fence_js.Dispatcher.Publish.{Platform, publish}
use stream_fence_js.Dispatcher.Retries.{acknowledge, on_client_disconnected, on_client_unsubscribed}

pub record NamespaceHandler {P : Type 0} (Q : SpillQueue P) (C : Type 0) : Type 0 where
  pub namespace_path : String
  pub started : Bool
  -- the keys of `connectionCleanups`
  pub connections : List String
  pub dispatcher : Dispatcher Q C

-- What a client sends; a field that is no string is none.
pub data Request (P : Type 0) : Type 0 where
  subscription unsubscription : Option String → Request P
  publication : Option String → P → Request P
  ack : Option String → Option String → Request P

-- `typeof topic !== 'string' || topic.trim() === ''` leaves no topic.
abbrev pub topic_name : Option String → Option String
topic_name none = none
topic_name (some topic) = if is_blank topic then none else some topic

module _ {P : Type 0} {Q : SpillQueue P} {C : Type 0} where
  abbrev pub with_dispatcher : NamespaceHandler Q C → Dispatcher Q C → NamespaceHandler Q C
  with_dispatcher h d = record h { dispatcher = d }

  unfoldable pub start : NamespaceHandler Q C → NamespaceHandler Q C
  start h = if h.started then h else record h { started = true }

  -- The cleanup of a connection, which is also what a disconnect of its socket calls.
  unfoldable pub cleanup : String → NamespaceHandler Q C → NamespaceHandler Q C
  cleanup client_id h = record h {
    dispatcher = on_client_disconnected client_id h.dispatcher;
    connections = remove_member client_id h.connections;
  }

  -- The loop of `stop`.
  unfoldable pub cleanup_all : List String → NamespaceHandler Q C → NamespaceHandler Q C
  cleanup_all [] h = h
  cleanup_all (client_id ∷ rest) h = cleanup_all rest (cleanup client_id h)

  unfoldable pub stop : NamespaceHandler Q C → NamespaceHandler Q C
  stop h =
      if not h.started
      then h
      else record (cleanup_all h.connections h) { connections = []; started = false }

  pub stop_started :
      (h : NamespaceHandler Q C)
      → h.started ≡ true
      → stop h ≡ record (cleanup_all h.connections h) { connections = []; started = false }
  unfolding stop
  stop_started h on =
      ap
        (λ b.
          if not b
          then h
          else record (cleanup_all h.connections h) { connections = []; started = false })
        on

  -- A connection, which is heard of between `start` and `stop`.
  unfoldable pub on_connection : String → C → NamespaceHandler Q C → NamespaceHandler Q C
  on_connection socket_id client h =
      let session : ClientSessionState Q C = record {
        client_id = socket_id;
        namespace = h.namespace_path;
        client = client;
        subscriptions = [];
        lanes = [];
        draining_topics = [];
      } in
      let d : Dispatcher Q C = record h.dispatcher {
        registry = register session h.dispatcher.registry;
      } in
      if h.started
      then record h { connections = add socket_id h.connections; dispatcher = d }
      else h

  -- The session object of the connection is the one that is registered under its id: what takes it
  -- out of the registry is its cleanup, which also ends the listening.
  unfoldable pub on_subscribe : String → Option String → NamespaceHandler Q C → NamespaceHandler Q C
  on_subscribe client_id request h = elim (topic_name request) [
    | none ↦ h
    | some topic ↦
        let d = h.dispatcher in
        if not (Topics.has h.namespace_path topic d.policies)
        then h
        else elim (get_session client_id d.registry) [
          | none ↦ h
          | some s ↦ with_dispatcher h (record d { registry = subscribe s topic d.registry })
        ]
  ]

  unfoldable pub on_unsubscribe :
      String → Option String → NamespaceHandler Q C → NamespaceHandler Q C
  on_unsubscribe client_id request h = elim (topic_name request) [
    | none ↦ h
    | some topic ↦
        with_dispatcher h (on_client_unsubscribed client_id h.namespace_path topic h.dispatcher)
  ]

  -- The handler afterwards, and the message of the error that the dispatcher throws, if it does.
  unfoldable pub on_publish :
      Platform Q → Option String → P → NamespaceHandler Q C → NamespaceHandler Q C × Option String
  on_publish p request payload h = elim (topic_name request) [
    | none ↦ (h, none)
    | some topic ↦
        let (d, thrown) = publish p h.namespace_path topic payload h.dispatcher in
        if not (Topics.has h.namespace_path topic h.dispatcher.policies)
        then (h, none)
        else (with_dispatcher h d, thrown)
  ]

  unfoldable pub on_ack :
      String → Option String → Option String → NamespaceHandler Q C → NamespaceHandler Q C
  on_ack client_id none id h = h
  on_ack client_id (some topic) none h = h
  on_ack client_id (some topic) (some id) h =
      with_dispatcher h (acknowledge client_id h.namespace_path topic id h.dispatcher)

  unfoldable pub answer :
      Platform Q → String → Request P → NamespaceHandler Q C → NamespaceHandler Q C × Option String
  answer p client_id (subscription topic) h = (on_subscribe client_id topic h, none)
  answer p client_id (unsubscription topic) h = (on_unsubscribe client_id topic h, none)
  answer p client_id (publication topic payload) h = on_publish p topic payload h
  answer p client_id (ack topic id) h = (on_ack client_id topic id h, none)

  -- A request that a socket sends, which is heard of while the handler listens to the socket.
  unfoldable pub receive :
      Platform Q → String → Request P → NamespaceHandler Q C → NamespaceHandler Q C × Option String
  receive p client_id request h =
      let answered = answer p client_id request h in
      if has_member client_id h.connections then answered else (h, none)

  -- A socket disconnects.
  unfoldable pub on_disconnect : String → NamespaceHandler Q C → NamespaceHandler Q C
  on_disconnect client_id h = if has_member client_id h.connections then cleanup client_id h else h
