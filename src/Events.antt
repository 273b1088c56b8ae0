-- ===== src/Events.antt =====
-- src/ServerMetrics.ts, src/ServerEventListener.ts and
-- src/internal/observability/ServerEventPublisher.ts: what the server reports. A call of a metrics
-- collector or of a listener is a value here, for the log of the component that makes it.
use stream_fence_js.Prelude.{ℕ, String, Option, none}

-- The calls of `ServerMetrics`.
pub data Metric : Type 0 where
  record_connect record_disconnect : String → Metric
  record_publish record_received : String → String → ℕ → Metric
  record_queue_overflow : String → String → String → Metric
  record_retry record_retry_exhausted record_dropped : String → String → Metric
  record_coalesced record_spill : String → String → Metric
  record_auth_rejected record_auth_rate_limited : String → Metric

-- The events of a `ServerEventListener` that ServerEventPublisher.ts publishes, with their fields.
pub data ServerEvent : Type 0 where
  on_client_connected : String → String → String → Option String → ServerEvent
  on_client_disconnected : String → String → ServerEvent
  on_subscribed on_unsubscribed : String → String → String → ServerEvent
  on_publish_accepted : String → String → String → ServerEvent
  on_publish_rejected : String → String → String → String → String → ServerEvent
  on_queue_overflow : String → String → String → String → ServerEvent
  on_retry on_retry_exhausted : String → String → String → String → ℕ → ServerEvent

-- The methods of `ServerEventPublisher`, as the events that they hand to `safeCall`.
abbrev pub queue_overflow : String → String → String → String → ServerEvent
queue_overflow namespace client_id topic reason = on_queue_overflow namespace client_id topic reason

abbrev pub retry : String → String → String → String → ℕ → ServerEvent
retry namespace client_id topic message_id retry_count =
    on_retry namespace client_id topic message_id retry_count

abbrev pub retry_exhausted : String → String → String → String → ℕ → ServerEvent
retry_exhausted namespace client_id topic message_id retry_count =
    on_retry_exhausted namespace client_id topic message_id retry_count

abbrev pub publish_accepted : String → String → String → String → ServerEvent
publish_accepted namespace client_id topic _ = on_publish_accepted namespace client_id topic

abbrev pub publish_rejected : String → String → String → String → ServerEvent
publish_rejected namespace client_id topic reason =
    on_publish_rejected namespace client_id topic reason reason

abbrev pub client_connected : String → String → ServerEvent
client_connected namespace client_id = on_client_connected namespace client_id "websocket" none

abbrev pub client_disconnected : String → String → ServerEvent
client_disconnected namespace client_id = on_client_disconnected namespace client_id

abbrev pub subscribed : String → String → String → ServerEvent
subscribed namespace client_id topic = on_subscribed namespace client_id topic

abbrev pub unsubscribed : String → String → String → ServerEvent
unsubscribed namespace client_id topic = on_unsubscribed namespace client_id topic
