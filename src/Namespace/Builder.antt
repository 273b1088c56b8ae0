-- ===== src/Namespace/Builder.antt =====
-- The setters of NamespaceSpecBuilder in src/NamespaceSpec.ts. `this`, which they return, is the
-- builder with one field written.
use stream_fence_js.Prelude.{Bool, String, ℤ, List, [], ◌∷◌, ◌++◌}
use stream_fence_js.Policy.{DeliveryMode, OverflowAction, InboundAckPolicy}
use stream_fence_js.Namespace.{Fields}

unfoldable pub auth_required : Bool → Fields → Fields
auth_required value f = record f { auth_required = value }

unfoldable pub topics : List String → Fields → Fields
topics value f = record f { topics = value }

unfoldable pub topic : String → Fields → Fields
topic value f = record f { topics = f.topics ++ value ∷ [] }

unfoldable pub delivery_mode : DeliveryMode → Fields → Fields
delivery_mode value f = record f { delivery_mode = value }

unfoldable pub overflow_action : OverflowAction → Fields → Fields
overflow_action value f = record f { overflow_action = value }

unfoldable pub max_queued_messages_per_client : ℤ → Fields → Fields
max_queued_messages_per_client value f = record f { max_queued_messages_per_client = value }

unfoldable pub max_queued_bytes_per_client : ℤ → Fields → Fields
max_queued_bytes_per_client value f = record f { max_queued_bytes_per_client = value }

unfoldable pub ack_timeout_ms : ℤ → Fields → Fields
ack_timeout_ms value f = record f { ack_timeout_ms = value }

unfoldable pub max_retries : ℤ → Fields → Fields
max_retries value f = record f { max_retries = value }

unfoldable pub coalesce : Bool → Fields → Fields
coalesce value f = record f { coalesce = value }

unfoldable pub allow_polling : Bool → Fields → Fields
allow_polling value f = record f { allow_polling = value }

unfoldable pub max_in_flight : ℤ → Fields → Fields
max_in_flight value f = record f { max_in_flight = value }

unfoldable pub inbound_ack_policy : InboundAckPolicy → Fields → Fields
inbound_ack_policy value f = record f { inbound_ack_policy = value }
