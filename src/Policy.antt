-- ===== src/Policy.antt =====
-- src/DeliveryMode.ts, src/OverflowAction.ts and src/internal/config/TopicPolicy.ts: the delivery
-- policy that every topic of a namespace shares. Numbers are natural numbers here; NamespaceSpec,
-- which refuses negative values, is the place that reads integers.
use stream_fence_js.Prelude.{ℕ, Bool, String}

pub data DeliveryMode : Type 0 where
  best_effort at_least_once : DeliveryMode

pub data OverflowAction : Type 0 where
  drop_oldest reject_new coalesce snapshot_only spill_to_disk : OverflowAction

pub data InboundAckPolicy : Type 0 where
  ack_on_receipt ack_after_handler_success : InboundAckPolicy

pub record TopicPolicy : Type 0 where
  pub namespace : String
  pub topic : String
  pub delivery_mode : DeliveryMode
  pub overflow_action : OverflowAction
  pub max_queued_messages_per_client : ℕ
  pub max_queued_bytes_per_client : ℕ
  pub ack_timeout_ms : ℕ
  pub max_retries : ℕ
  pub coalesce : Bool
  pub allow_polling : Bool
  pub max_in_flight : ℕ
