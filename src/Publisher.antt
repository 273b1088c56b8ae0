-- ===== src/Publisher.antt =====
-- src/internal/observability/ServerEventPublisher.ts: a listener is told of an event, if it listens
-- to it. A callback may throw; what it does to the rest of the world is a parameter.
use stream_fence_js.Prelude.{◌≡◌, refl, ap, ◌∙◌, Option, none, some, List, [], ◌∷◌, Result, ok}
use stream_fence_js.Events.{
  ServerEvent, on_client_connected, on_client_disconnected, on_subscribed, on_unsubscribed,
  on_publish_accepted, on_publish_rejected, on_queue_overflow, on_retry, on_retry_exhausted,
}

-- The names of the callbacks.
pub data EventName : Type 0 where
  client_connected_event client_disconnected_event subscribed_event unsubscribed_event
        publish_accepted_event :
      EventName
  publish_rejected_event queue_overflow_event retry_event retry_exhausted_event : EventName

unfoldable pub event_name_of : ServerEvent → EventName
event_name_of (on_client_connected namespace client_id transport principal) = client_connected_event
event_name_of (on_client_disconnected namespace client_id) = client_disconnected_event
event_name_of (on_subscribed namespace client_id topic) = subscribed_event
event_name_of (on_unsubscribed namespace client_id topic) = unsubscribed_event
event_name_of (on_publish_accepted namespace client_id topic) = publish_accepted_event
event_name_of (on_publish_rejected namespace client_id topic code reason) = publish_rejected_event
event_name_of (on_queue_overflow namespace client_id topic reason) = queue_overflow_event
event_name_of (on_retry namespace client_id topic id count) = retry_event
event_name_of (on_retry_exhausted namespace client_id topic id count) = retry_exhausted_event

abbrev pub Callback : Type 0 → Type 0
Callback W = ServerEvent → W → Result (Unit {0}) × W

-- The callbacks of a listener, each of which it may leave out.
pub record ServerEventListener (W : Type 0) : Type 0 where
  pub callback : EventName → Option (Callback W)

-- A publisher without a listener is the one of `noOp`.
pub record ServerEventPublisher (W : Type 0) : Type 0 where
  pub listener : Option (ServerEventListener W)

unfoldable pub no_op : {W : Type 0} → ServerEventPublisher W
no_op = record { listener = none }

module _ {W : Type 0} where
  -- `this.listener?.[event]`
  abbrev pub callback_of : Option (ServerEventListener W) → EventName → Option (Callback W)
  callback_of none name = none
  callback_of (some l) name = l.callback name

  -- What is thrown is swallowed.
  abbrev pub call_safely : Option (Callback W) → ServerEvent → W → W
  call_safely none event w = w
  call_safely (some callback) event w = (callback event w).1

  unfoldable pub safe_call : ServerEventPublisher W → ServerEvent → W → W
  unfolding event_name_of
  safe_call p event w = call_safely (callback_of p.listener (event_name_of event)) event w

  unfoldable pub publish_all : ServerEventPublisher W → List ServerEvent → W → W
  unfolding safe_call
  publish_all p [] w = w
  publish_all p (event ∷ events) w = publish_all p events (safe_call p event w)

  -- The same callbacks, which return what they do and never throw.
  abbrev quiet_callback : Option (Callback W) → Option (Callback W)
  quiet_callback none = none
  quiet_callback (some callback) = some (λ event w. (ok tt, (callback event w).1))

  abbrev quiet_listener : Option (ServerEventListener W) → Option (ServerEventListener W)
  quiet_listener none = none
  quiet_listener (some l) = some (record { callback = λ name. quiet_callback (l.callback name) })

  call_safely-quiet :
      (c : Option (Callback W)) (event : ServerEvent) (w : W)
      → call_safely (quiet_callback c) event w ≡ call_safely c event w
  call_safely-quiet none event w = refl
  call_safely-quiet (some callback) event w = refl

  callback_of-quiet :
      (l : Option (ServerEventListener W)) (name : EventName)
      → callback_of (quiet_listener l) name ≡ quiet_callback (callback_of l name)
  callback_of-quiet none name = refl
  callback_of-quiet (some l) name = refl

  -- Whether callbacks throw makes no difference to the events that follow.
  publish_all-quiet :
      (p : ServerEventPublisher W) (events : List ServerEvent) (w : W)
      → publish_all (record { listener = quiet_listener p.listener }) events w
        ≡ publish_all p events w
  unfolding publish_all safe_call
  publish_all-quiet p [] w = refl
  publish_all-quiet p (event ∷ events) w =
      ap (publish_all (record { listener = quiet_listener p.listener }) events) (
        ap (λ c. call_safely c event w) (callback_of-quiet p.listener (event_name_of event))
        ∙ call_safely-quiet (callback_of p.listener (event_name_of event)) event w)
      ∙ publish_all-quiet p events (safe_call p event w)
