-- ===== src/Dispatcher.antt =====
-- src/internal/delivery/TopicDispatcher.ts: its state, the sessions it reaches, and `scheduleDrain`.
--
-- A session is an object that a running drain may hold after the registry has dropped it; then it
-- stands in `detached`. Its client id is its identity: a connection has a socket id of its own. A
-- microtask of the event loop, and what a drain awaits, is a `Task`; Dispatcher/Step runs them.
pub mod Publish
pub mod Sending
pub mod Drain
pub mod Retries
pub mod Step
pub mod Sessions
pub mod Order
pub mod Exclusive
pub mod Errors
pub mod Filled
pub mod Recipients
pub mod Lanes
use stream_fence_js.Prelude.{
  ℕ, Bool, true, false, String, Option, none, some, List, [], ◌∷◌, ◌++◌, if◌then◌else◌,
}
use stream_fence_js.Prelude.Dict
use stream_fence_js.Policy.{TopicPolicy}
use stream_fence_js.Message.{LaneEntry, OutboundTopicMessage, Heap}
use stream_fence_js.Spill.{SpillQueue}
use stream_fence_js.Lane.{Lane}
use stream_fence_js.Sessions.{ClientSessionState, start_drain}
use stream_fence_js.Sessions.Registry.{ClientSessionRegistry}
use stream_fence_js.Ack.{AckTracker}
use stream_fence_js.Events.{Metric, ServerEvent}

-- Where `drainTopic` stands, for the session of a client and a topic.
pub data Task (P : Type 0) : Type 0 where
  -- queued by `queueMicrotask`
  queued : String → String → Task P
  -- `drainBestEffort`: `lane.poll()` waits for the disk, or has answered
  polling : String → String → Task P
  polled : String → String → Option (LaneEntry P) → Task P
  -- `drainAtLeastOnce`: `lane.firstPendingSend()` waits for the disk, or has answered
  finding : String → String → Task P
  found : String → String → Option (LaneEntry P) → Task P
  -- the loop is over, and `drainTopic` goes on with its `finally` block
  ending : String → String → Task P

-- What the dispatcher does to the outside. An `emit` is a call of `sendEvent`; in AT_LEAST_ONCE
-- drains the message's metadata is the last of the arguments.
pub data Effect (P : Type 0) : Type 0 where
  metric : Metric → Effect P
  event : ServerEvent → Effect P
  emit : String → OutboundTopicMessage P → Bool → Effect P

pub record Dispatcher {P : Type 0} (Q : SpillQueue P) (C : Type 0) : Type 0 where
  pub policies : List (String × TopicPolicy)
  pub registry : ClientSessionRegistry Q C
  pub detached : List (String × ClientSessionState Q C)
  pub tracker : AckTracker P
  pub heap : Heap
  pub next_sequence : ℕ
  pub tasks : List (Task P)
  pub log : List (Effect P)

module _ {P : Type 0} {Q : SpillQueue P} {C : Type 0} where
  -- The session object of a client id.
  unfoldable pub session_of : String → Dispatcher Q C → Option (ClientSessionState Q C)
  session_of client_id d = elim (Dict.get client_id d.registry.sessions) [
    | some s ↦ some s
    | none ↦ Dict.get client_id d.detached
  ]

  -- The object is written, in the registry if it is registered.
  unfoldable pub put_session : String → ClientSessionState Q C → Dispatcher Q C → Dispatcher Q C
  put_session client_id s d =
      let sessions = d.registry.sessions in
      if Dict.has client_id sessions
      then record d { registry = record d.registry { sessions = Dict.set client_id s sessions } }
      else record d { detached = Dict.set client_id s d.detached }

  unfoldable pub put_lane :
      String → String → Lane Q → ClientSessionState Q C → Dispatcher Q C → Dispatcher Q C
  put_lane client_id topic l s d =
      put_session client_id (record s { lanes = Dict.set topic l s.lanes }) d

  abbrev pub report : List (Effect P) → Dispatcher Q C → Dispatcher Q C
  report effects d = record d { log = d.log ++ effects }

  unfoldable pub schedule_drain : String → String → Dispatcher Q C → Dispatcher Q C
  schedule_drain client_id topic d = elim (session_of client_id d) [
    | none ↦ d
    | some s ↦
        let (started, s') = start_drain topic s in
        let d' = put_session client_id s' d in
        if started then record d' { tasks = d'.tasks ++ queued client_id topic ∷ [] } else d
  ]
