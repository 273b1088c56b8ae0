-- ===== src/Lifecycle.antt =====
-- src/StreamFenceServer.ts: the lifecycle of a server over its dispatcher and its handlers.
--
-- The topic registry, the session registry, the ack tracker and the dispatcher are made and dropped
-- together: they are the `dispatcher`. Of the bootstrap, which is a library's server, `bound` says
-- whether there is one. `start` and `stop` are cut at their awaits.
pub mod Stopping
pub mod Handlers
use stream_fence_js.Prelude.{
  ℕ, ℤ, pos, Bool, true, false, not, ◌&&◌, String, Option, none, some, List, [], ◌∷◌, ◌++◌, map,
  if◌then◌else◌,
}
use stream_fence_js.Prelude.Dict
use stream_fence_js.Policy.{TopicPolicy}
use stream_fence_js.Namespace.{NamespaceSpec, topic_policies_from_namespace_spec}
use stream_fence_js.Topics.{register_all, topic_key}
use stream_fence_js.Spill.{SpillQueue}
use stream_fence_js.Server.{StreamFenceServerSpec}
use stream_fence_js.Dispatcher.{Dispatcher}
use stream_fence_js.Dispatcher.Publish.{Platform, publish, publish_to}
use stream_fence_js.Dispatcher.Retries.{process_retries}
use stream_fence_js.Dispatcher.Step.{new}
use stream_fence_js.Transport.{NamespaceHandler, start, stop}

-- A handler apart from the dispatcher, which all handlers share.
pub record Endpoint : Type 0 where
  pub namespace_path : String
  pub started : Bool
  pub connections : List String

-- The default processor, or one that was attached.
pub data RetryProcessor : Type 0 where
  processes_retries attached : RetryProcessor

-- What listeners are told, with host and port.
pub data Announcement : Type 0 where
  server_starting server_started server_stopping server_stopped : String → ℤ → Announcement

pub record StreamFenceServer {P : Type 0} (Q : SpillQueue P) (C V L M : Type 0) : Type 0 where
  pub spec : StreamFenceServerSpec V L M
  pub running : Bool
  pub listeners : List L
  pub bound : Bool
  pub port : Option ℤ
  pub dispatcher : Option (Dispatcher Q C)
  pub namespace_handlers : List Endpoint
  pub retry_processor : Option RetryProcessor
  pub retry_interval_ms : ℕ
  pub retry_interval : Option ℕ
  -- each with the listeners that are told
  pub announcements : List (Announcement × List L)

abbrev pub or_else : {A : Type 0} → A → Option A → A
or_else default none = default
or_else default (some a) = a

-- The registry that the loop of `start` fills.
unfoldable pub register_namespaces :
    List NamespaceSpec → List (String × TopicPolicy) → List (String × TopicPolicy)
register_namespaces [] policies = policies
register_namespaces (spec ∷ specs) policies =
    register_namespaces specs (register_all (topic_policies_from_namespace_spec spec) policies)

module _ {P : Type 0} {Q : SpillQueue P} {C : Type 0} where
  abbrev pub handler_of : Endpoint → Dispatcher Q C → NamespaceHandler Q C
  handler_of e d = record {
    namespace_path = e.namespace_path;
    started = e.started;
    connections = e.connections;
    dispatcher = d;
  }

  abbrev pub endpoint_of : NamespaceHandler Q C → Endpoint
  endpoint_of h = record {
    namespace_path = h.namespace_path;
    started = h.started;
    connections = h.connections;
  }

  -- The loop of `stop` over the handlers.
  unfoldable pub stop_all : List Endpoint → Dispatcher Q C → Dispatcher Q C
  stop_all [] d = d
  stop_all (e ∷ handlers) d = stop_all handlers (stop (handler_of e d)).dispatcher

  abbrev pub stop_in : List Endpoint → Option (Dispatcher Q C) → Option (Dispatcher Q C)
  stop_in handlers none = none
  stop_in handlers (some d) = some (stop_all handlers d)

-- A handler that has just been started.
abbrev pub open_endpoint : NamespaceSpec → Endpoint
open_endpoint spec = record { namespace_path = spec.path; started = true; connections = [] }

module _ {P : Type 0} {Q : SpillQueue P} {C V L M : Type 0} where
  abbrev pub announce :
      (String → ℤ → Announcement) → ℤ → StreamFenceServer Q C V L M → StreamFenceServer Q C V L M
  announce what port s = record s {
    announcements = s.announcements ++ (what s.spec.host port, s.listeners) ∷ [];
  }

  -- `start` up to the await of the bootstrap.
  unfoldable pub start_server : StreamFenceServer Q C V L M → StreamFenceServer Q C V L M
  start_server s = if s.running then s else record (announce server_starting s.spec.port s) {
    dispatcher = some (new (register_namespaces s.spec.namespaces []));
    bound = true;
    port = some (pos 0);
  }

  -- The rest of `start`, with the port that the bootstrap has.
  unfoldable pub resume_start : ℤ → StreamFenceServer Q C V L M → StreamFenceServer Q C V L M
  resume_start port s = announce server_started port (record s {
    port = some port;
    namespace_handlers = map open_endpoint s.spec.namespaces;
    retry_processor = some (or_else processes_retries s.retry_processor);
    running = true;
    retry_interval = some (or_else s.retry_interval_ms s.retry_interval);
  })

  -- `stop` up to the await of the bootstrap.
  unfoldable pub stop_server : StreamFenceServer Q C V L M → StreamFenceServer Q C V L M
  stop_server s =
      if not s.running && not s.bound
      then s
      else record (announce server_stopping (or_else s.spec.port s.port) s) {
        retry_interval = none;
        dispatcher = stop_in s.namespace_handlers s.dispatcher;
        namespace_handlers = [];
      }

  unfoldable pub resume_stop : StreamFenceServer Q C V L M → StreamFenceServer Q C V L M
  resume_stop s =
      announce server_stopped s.spec.port
        (record s { bound = false; port = none; dispatcher = none; running = false })

  -- A call of the dispatcher, if there is one: the server afterwards, and the message of the error if
  -- the call throws.
  abbrev pub calling :
      (Dispatcher Q C → Dispatcher Q C × Option String)
      → StreamFenceServer Q C V L M
      → StreamFenceServer Q C V L M × Option String
  calling f s = elim s.dispatcher [
    | none ↦ (s, none)
    | some d ↦ let (d', thrown) = f d in (record s { dispatcher = some d' }, thrown)
  ]

  unfoldable pub publish_server :
      Platform Q
      → String
      → String
      → P
      → StreamFenceServer Q C V L M
      → StreamFenceServer Q C V L M × Option String
  publish_server p namespace topic payload s = calling (publish p namespace topic payload) s

  unfoldable pub publish_to_server :
      Platform Q
      → String
      → String
      → String
      → P
      → StreamFenceServer Q C V L M
      → StreamFenceServer Q C V L M × Option String
  publish_to_server p namespace client_id topic payload s =
      calling (publish_to p namespace client_id topic payload) s

  unfoldable pub add_listener : L → StreamFenceServer Q C V L M → StreamFenceServer Q C V L M
  add_listener listener s = record s { listeners = s.listeners ++ listener ∷ [] }

  unfoldable pub attach_retry_processor :
      ℕ → StreamFenceServer Q C V L M → StreamFenceServer Q C V L M
  attach_retry_processor interval_ms s = record s {
    retry_processor = some attached;
    retry_interval_ms = interval_ms;
    retry_interval = if s.running then some interval_ms else s.retry_interval;
  }

  -- The default processor, which the interval calls.
  unfoldable pub process_retries_server :
      ℕ → StreamFenceServer Q C V L M → StreamFenceServer Q C V L M
  process_retries_server now s = elim s.dispatcher [
    | none ↦ s
    | some d ↦ record s { dispatcher = some (process_retries now d) }
  ]
