-- ===== src/Namespace.antt =====
-- src/NamespaceSpec.ts and src/internal/config/TopicPolicy.ts: the settings of a namespace, their
-- validation, and the policies of its topics.
--
-- `Fields` is what the setters of the builder write. The checks for null and undefined are left out:
-- the types have no such values here.
pub mod Builder
pub mod Validation
pub mod Policies
use Prim.Native.String.{◌++◌ as str_append}
use stream_fence_js.Prelude.{
  ℕ, Bool, true, false, not, ◌||◌, ◌&&◌, String, List, [], ◌∷◌, map, str_eq, is_blank,
  starts_with_slash, ℤ, pos, is_nonpositive, is_negative, lt_ℤ, to_ℕ, Result, ok, throws, ◌>>=◌,
  ◌>>◌, if◌then◌else◌,
}
use stream_fence_js.Policy.{
  DeliveryMode, best_effort, at_least_once, OverflowAction, drop_oldest, reject_new, coalesce,
  snapshot_only, spill_to_disk, InboundAckPolicy, ack_on_receipt, TopicPolicy,
}

pub record Fields : Type 0 where
  pub path : String
  pub auth_required : Bool
  pub topics : List String
  pub delivery_mode : DeliveryMode
  pub overflow_action : OverflowAction
  pub max_queued_messages_per_client : ℤ
  pub max_queued_bytes_per_client : ℤ
  pub ack_timeout_ms : ℤ
  pub max_retries : ℤ
  pub coalesce : Bool
  pub allow_polling : Bool
  pub max_in_flight : ℤ
  pub inbound_ack_policy : InboundAckPolicy

-- A built specification has the same fields, and cannot be written.
abbrev pub NamespaceSpec : Type 0
NamespaceSpec = Fields

-- `NamespaceSpec.builder(path)`
unfoldable pub builder : String → Fields
builder path = record {
  path = path;
  auth_required = false;
  topics = [];
  delivery_mode = best_effort;
  overflow_action = reject_new;
  max_queued_messages_per_client = pos 64;
  max_queued_bytes_per_client = pos 524288;
  ack_timeout_ms = pos 1000;
  max_retries = pos 0;
  coalesce = false;
  allow_polling = true;
  max_in_flight = pos 1;
  inbound_ack_policy = ack_on_receipt;
}

-- An error is thrown if the test holds.
abbrev pub refuse : Bool → String → Result (Unit {0})
refuse true e = throws e
refuse false e = ok tt

unfoldable pub has_topic : List String → String → Bool
has_topic [] topic = false
has_topic (t ∷ seen) topic = str_eq t topic || has_topic seen topic

-- The loop of `validateBasic` over the topics.
unfoldable pub check_topics : String → List String → List String → Result (Unit {0})
unfolding has_topic
check_topics path seen [] = ok tt
check_topics path seen (topic ∷ topics) = do
  refuse (is_blank topic) (str_append "topic names must not be blank in namespace " path)
  refuse (has_topic seen topic)
      (str_append "duplicate topic in namespace " (str_append path (str_append ": " topic)))
  check_topics path (topic ∷ seen) topics

abbrev pub is_empty : List String → Bool
is_empty [] = true
is_empty (_ ∷ _) = false

unfoldable pub validate_basic : Fields → Result (Unit {0})
unfolding check_topics
validate_basic f = do
  refuse (is_blank f.path || not (starts_with_slash f.path)) "namespace path must start with '/'"
  refuse (is_empty f.topics) "namespace must define at least one topic"
  check_topics f.path [] f.topics
  refuse (is_nonpositive f.max_queued_messages_per_client)
      "maxQueuedMessagesPerClient must be positive"
  refuse (is_nonpositive f.max_queued_bytes_per_client) "maxQueuedBytesPerClient must be positive"
  refuse (is_nonpositive f.ack_timeout_ms) "ackTimeoutMs must be positive"
  refuse (is_negative f.max_retries) "maxRetries must be zero or positive"

abbrev pub is_reliable_action : OverflowAction → Bool
is_reliable_action reject_new = true
is_reliable_action spill_to_disk = true
is_reliable_action _ = false

unfoldable pub validate_at_least_once : Fields → Result (Unit {0})
validate_at_least_once f = do
  refuse (not (is_reliable_action f.overflow_action))
      "AT_LEAST_ONCE namespaces must use REJECT_NEW or SPILL_TO_DISK overflowAction"
  refuse f.coalesce "AT_LEAST_ONCE namespaces cannot enable coalescing"
  refuse (is_nonpositive f.max_retries) "AT_LEAST_ONCE namespaces must allow at least one retry"
  refuse (lt_ℤ f.max_queued_messages_per_client f.max_in_flight)
      "maxInFlight must not exceed maxQueuedMessagesPerClient"

unfoldable pub validate_reliable_mode : Fields → Result (Unit {0})
unfolding validate_at_least_once
validate_reliable_mode f = elim f.delivery_mode [
  | best_effort ↦ ok tt
  | at_least_once ↦ validate_at_least_once f
]

unfoldable pub normalized : Fields → Fields
normalized f = if is_nonpositive f.max_in_flight then record f { max_in_flight = pos 1 } else f

unfoldable pub build : Fields → Result NamespaceSpec
unfolding validate_basic validate_reliable_mode normalized
build f = do validate_basic (normalized f); validate_reliable_mode (normalized f); ok (normalized f)

-- `topicPoliciesFromNamespaceSpec`. The numbers of a built specification are not negative.
unfoldable pub topic_policy : NamespaceSpec → String → TopicPolicy
topic_policy spec topic = record {
  namespace = spec.path;
  topic = topic;
  delivery_mode = spec.delivery_mode;
  overflow_action = spec.overflow_action;
  max_queued_messages_per_client = to_ℕ spec.max_queued_messages_per_client;
  max_queued_bytes_per_client = to_ℕ spec.max_queued_bytes_per_client;
  ack_timeout_ms = to_ℕ spec.ack_timeout_ms;
  max_retries = to_ℕ spec.max_retries;
  coalesce = spec.coalesce;
  allow_polling = spec.allow_polling;
  max_in_flight = to_ℕ spec.max_in_flight;
}

unfoldable pub topic_policies_from_namespace_spec : NamespaceSpec → List TopicPolicy
unfolding topic_policy
topic_policies_from_namespace_spec spec = map (topic_policy spec) spec.topics
