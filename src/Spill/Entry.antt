-- ===== src/Spill/Entry.antt =====
-- src/internal/delivery/SpilledEntry.ts: an entry as it is written to disk. What `JSON.stringify` and
-- `JSON.parse` do to the data is not modelled.
use stream_fence_js.Prelude.{
  ℕ, ◌<◌, ◌≡◌, refl, false, String, Option, List, Result, ok, ◌>>=◌, arith,
}
use stream_fence_js.Message.{
  TopicMessageMetadata, LaneEntry, Heap, write, create_outbound_topic_message, new_lane_entry,
  estimated_bytes, awaiting, retry_count,
}

pub record SpilledEntryData (P : Type 0) : Type 0 where
  pub event_name : String
  pub metadata : TopicMessageMetadata
  pub event_arguments : List P
  pub estimated_bytes : ℕ
  pub coalesce_key : Option String
  pub retry_count : ℕ

module _ {P : Type 0} where
  unfoldable pub serialize : Heap → LaneEntry P → SpilledEntryData P
  serialize h entry =
      let msg = entry.published_message.outbound_message in
      record {
        event_name = msg.event_name;
        metadata = msg.metadata;
        event_arguments = msg.event_arguments;
        estimated_bytes = msg.estimated_bytes;
        coalesce_key = entry.published_message.coalesce_key;
        retry_count = retry_count h entry;
      }

  unfoldable pub deserialize : SpilledEntryData P → Heap → Result (LaneEntry P × Heap)
  unfolding create_outbound_topic_message new_lane_entry
  deserialize spilled_data h = do
    outbound_message ←
        create_outbound_topic_message spilled_data.event_name spilled_data.metadata
          spilled_data.event_arguments spilled_data.estimated_bytes
    ok (
        new_lane_entry
          (record { outbound_message = outbound_message; coalesce_key = spilled_data.coalesce_key })
          spilled_data.retry_count false h)

  -- What a recovered entry has of the one that was spilled.
  pub record Restores (h h' : Heap) (e : LaneEntry P) (e' : LaneEntry P) (h'' : Heap) : Type 0 where
    pub message : e'.published_message ≡ e.published_message
    pub retries : retry_count h'' e' ≡ retry_count h e
    pub pending : awaiting h'' e' ≡ false
    pub fresh : e'.ref ≡ h'.next_ref
    pub others : (x : LaneEntry P) → x.ref < h'.next_ref → h''.cells x.ref ≡ h'.cells x.ref

  -- Serialising an entry and deserialising the data, in whatever state the heap then is, succeeds
  -- if the entry's size is positive, and yields a new object with the same message and retry count
  -- that does not await an acknowledgement; objects that exist are not written.
  pub deserialize-serialize :
      (h h' : Heap) (e : LaneEntry P)
      → 0 < estimated_bytes e
      → (e' : LaneEntry P) × (h'' : Heap) × (deserialize (serialize h e) h' ≡ ok (e', h''))
        × Restores h h' e e' h''
  unfolding deserialize serialize create_outbound_topic_message new_lane_entry write
  deserialize-serialize h h' e positive =
      let made = new_lane_entry e.published_message (retry_count h e) false h' in
      (
        made.0,
        made.1,
        ground arith,
        record {
          message = refl;
          retries = ground arith;
          pending = ground arith;
          fresh = refl;
          others = λ x old. ground arith;
        },
      )
