-- ===== src/Message.antt =====
-- src/internal/protocol and the message records of src/internal/delivery: what a topic publishes
-- and what a lane queues. `P` is the type of payload values (`unknown` in the source).
--
-- A LaneEntry object is shared between a lane and the ack tracker, and two of its fields change.
-- So an entry is its identity with its fixed part, and the fields `retryCount` and `awaiting` are
-- kept in a heap under that identity.
use stream_fence_js.Prelude.{
  ℕ, suc, Bool, String, Option, List, Result, ok, throws, ◌==◌, if◌then◌else◌,
}

pub record TopicMessageMetadata : Type 0 where
  pub namespace : String
  pub topic : String
  pub message_id : String
  pub ack_required : Bool

pub record OutboundTopicMessage (P : Type 0) : Type 0 where
  pub event_name : String
  pub metadata : TopicMessageMetadata
  pub event_arguments : List P
  pub estimated_bytes : ℕ

pub record PublishedMessage (P : Type 0) : Type 0 where
  pub outbound_message : OutboundTopicMessage P
  pub coalesce_key : Option String

-- The fixed part of a LaneEntry object, with the object's identity.
pub record LaneEntry (P : Type 0) : Type 0 where
  pub ref : ℕ
  pub published_message : PublishedMessage P

-- The fields of a LaneEntry object that change.
pub record EntryState : Type 0 where
  pub retry_count : ℕ
  pub awaiting : Bool

pub record Heap : Type 0 where
  pub cells : ℕ → EntryState
  pub next_ref : ℕ

module _ {P : Type 0} where
  -- The arguments are copied, and a list is a value. A size below 1 is refused.
  unfoldable pub create_outbound_topic_message :
      String → TopicMessageMetadata → List P → ℕ → Result (OutboundTopicMessage P)
  create_outbound_topic_message event_name metadata event_arguments estimated_bytes =
      if estimated_bytes == 0
      then throws "estimatedBytes must be positive"
      else ok (record {
        event_name = event_name;
        metadata = metadata;
        event_arguments = event_arguments;
        estimated_bytes = estimated_bytes;
      })

  abbrev pub message_id : LaneEntry P → String
  message_id e = e.published_message.outbound_message.metadata.message_id

  abbrev pub estimated_bytes : LaneEntry P → ℕ
  estimated_bytes e = e.published_message.outbound_message.estimated_bytes

  abbrev pub coalesce_key : LaneEntry P → Option String
  coalesce_key e = e.published_message.coalesce_key

  abbrev pub awaiting : Heap → LaneEntry P → Bool
  awaiting h e = (h.cells e.ref).awaiting

  abbrev pub retry_count : Heap → LaneEntry P → ℕ
  retry_count h e = (h.cells e.ref).retry_count

  -- One object's fields are written.
  unfoldable pub write : LaneEntry P → EntryState → Heap → Heap
  write e s h = record h { cells = λ r. if r == e.ref then s else h.cells r }

  unfoldable pub set_awaiting : LaneEntry P → Bool → Heap → Heap
  unfolding write
  set_awaiting e b h = write e (record (h.cells e.ref) { awaiting = b }) h

  -- `new LaneEntry(…)`: a fresh object.
  unfoldable pub new_lane_entry : PublishedMessage P → ℕ → Bool → Heap → LaneEntry P × Heap
  new_lane_entry published_message retry_count awaiting h =
      let e : LaneEntry P = record { ref = h.next_ref; published_message = published_message } in
      let s : EntryState = record { retry_count = retry_count; awaiting = awaiting } in
      (e, record (write e s h) { next_ref = suc h.next_ref })
