-- ===== src/Dispatcher/Step.antt =====
-- What can happen to the dispatcher of TopicDispatcher.ts: the calls of the server and of the
-- connection handlers, and the event loop, which runs the tasks in an order of its own.
use stream_fence_js.Prelude.{ℕ, ◌≡◌, Bool, String, none, List, [], ◌∷◌, ◌++◌, some}
use stream_fence_js.Policy.{TopicPolicy}
use stream_fence_js.Spill.{SpillQueue}
use stream_fence_js.Sessions.{ClientSessionState}
use stream_fence_js.Sessions.Registry.{register, get_session, subscribe}
use stream_fence_js.Dispatcher.{
  Dispatcher, Task, queued, polling, polled, finding, found, ending, session_of,
}
use stream_fence_js.Dispatcher.Publish.{Platform, publish, publish_to}
use stream_fence_js.Dispatcher.Retries.{
  acknowledge, process_retries, on_client_disconnected, on_client_unsubscribed,
}
use stream_fence_js.Dispatcher.Drain.{run, await}

-- The client and the topic of a drain.
abbrev pub client_of : {P : Type 0} → Task P → String
client_of (queued client_id topic) = client_id
client_of (polling client_id topic) = client_id
client_of (polled client_id topic answer) = client_id
client_of (finding client_id topic) = client_id
client_of (found client_id topic answer) = client_id
client_of (ending client_id topic) = client_id

abbrev pub topic_of : {P : Type 0} → Task P → String
topic_of (queued client_id topic) = topic
topic_of (polling client_id topic) = topic
topic_of (polled client_id topic answer) = topic
topic_of (finding client_id topic) = topic
topic_of (found client_id topic answer) = topic
topic_of (ending client_id topic) = topic

module _ {P : Type 0} {Q : SpillQueue P} {C : Type 0} where
  -- A dispatcher on which nothing has happened.
  abbrev pub new : List (String × TopicPolicy) → Dispatcher Q C
  new policies = record {
    policies = policies;
    registry = record { sessions = []; subscriptions = [] };
    detached = [];
    tracker = record { pending = []; heap = [] };
    heap = record { cells = λ r. record { retry_count = 0; awaiting = Bool.false }; next_ref = 0 };
    next_sequence = 1;
    tasks = [];
    log = [];
  }

  pub data Step (d d' : Dispatcher Q C) : Type 0 where
    -- a call that throws leaves a state too; what the platform does may differ from call to call
    publishes :
        (p : Platform Q) (namespace topic : String) (payload : P)
        → d' ≡ (publish p namespace topic payload d).0
        → Step d d'
    publishes_to :
        (p : Platform Q) (namespace client_id topic : String) (payload : P)
        → d' ≡ (publish_to p namespace client_id topic payload d).0
        → Step d d'
    acknowledges :
        (client_id namespace topic id : String)
        → d' ≡ acknowledge client_id namespace topic id d
        → Step d d'
    scans : (now : ℕ) → d' ≡ process_retries now d → Step d d'
    -- a connection, whose socket id is new
    connects :
        (s : ClientSessionState Q C)
        → session_of s.client_id d ≡ none
        → s.lanes ≡ []
        → s.draining_topics ≡ []
        → d' ≡ record d { registry = register s d.registry }
        → Step d d'
    subscribes :
        (s : ClientSessionState Q C) (topic : String)
        → get_session s.client_id d.registry ≡ some s
        → d' ≡ record d { registry = subscribe s topic d.registry }
        → Step d d'
    unsubscribes :
        (client_id namespace topic : String)
        → d' ≡ on_client_unsubscribed client_id namespace topic d
        → Step d d'
    disconnects : (client_id : String) → d' ≡ on_client_disconnected client_id d → Step d d'
    -- any of the tasks runs
    runs :
        (before after : List (Task P)) (t : Task P) (throws : Bool) (now : ℕ)
        → d.tasks ≡ before ++ t ∷ after
        → d' ≡ run t throws now (record d { tasks = before ++ after })
        → Step d d'
    -- the promise that a task awaits is rejected, and its loop is over
    fails :
        (before after : List (Task P)) (t : Task P)
        → d.tasks ≡ before ++ t ∷ after
        → d' ≡ await (ending (client_of t) (topic_of t)) (record d { tasks = before ++ after })
        → Step d d'

  pub data Reach (d : Dispatcher Q C) : Dispatcher Q C → Type 0 where
    here : Reach d d
    next : {e f : Dispatcher Q C} → Reach d e → Step e f → Reach d f
