-- ===== src/Tests/Data.antt =====
-- Policies, messages, lanes and trackers that the examples use.
use stream_fence_js.Prelude.{
  ℕ, zero, suc, ◌≤◌, Bool, true, false, String, Option, none, some, List, [], ◌∷◌, ◌++◌, length,
  arith,
}
use stream_fence_js.Policy.{TopicPolicy, OverflowAction, at_least_once}
use stream_fence_js.Message.{LaneEntry, Heap}
use stream_fence_js.Spill.{SpillQueue}
use stream_fence_js.Lane.{Lane}

abbrev take : {A : Type 0} → ℕ → List A → List A
take zero xs = []
take (suc n) [] = []
take (suc n) (x ∷ xs) = x ∷ take n xs

abbrev drop : {A : Type 0} → ℕ → List A → List A
drop zero xs = xs
drop (suc n) [] = []
drop (suc n) (x ∷ xs) = drop n xs

pub length-take : {A : Type 0} (n : ℕ) (xs : List A) → length (take n xs) ≤ n
length-take zero xs = omega arith
length-take (suc n) [] = omega arith
length-take (suc n) (x ∷ xs) = omega (arith, length-take n xs)

abbrev is_nonempty : {A : Type 0} → List A → Bool
is_nonempty [] = false
is_nonempty (x ∷ xs) = true

-- A disk that keeps the spilled entries in order.
abbrev pub disk : SpillQueue ℕ
disk = record {
  State = List (LaneEntry ℕ);
  spill = λ h e s. s ++ e ∷ [];
  has_spilled = is_nonempty;
  recover = λ n h s. (take n s, h, drop n s);
  clear = λ s. [];
  recover-le = λ n h s. length-take n s;
}

abbrev pub policy : OverflowAction → Bool → TopicPolicy
policy action coalesce = record {
  namespace = "/feed";
  topic = "prices";
  delivery_mode = at_least_once;
  overflow_action = action;
  max_queued_messages_per_client = 2;
  max_queued_bytes_per_client = 10;
  ack_timeout_ms = 100;
  max_retries = 2;
  coalesce = coalesce;
  allow_polling = true;
  max_in_flight = 1;
}

abbrev pub entry : ℕ → String → ℕ → Option String → LaneEntry ℕ
entry ref id bytes key = record {
  ref = ref;
  published_message = record {
    outbound_message = record {
      event_name = "prices";
      metadata = record {
        namespace = "/feed";
        topic = "prices";
        message_id = id;
        ack_required = true;
      };
      event_arguments = ref ∷ [];
      estimated_bytes = bytes;
    };
    coalesce_key = key;
  };
}

abbrev pub one : LaneEntry ℕ
one = entry 1 "msg-1" 4 none

abbrev pub two : LaneEntry ℕ
two = entry 2 "msg-2" 6 (some "prices")

abbrev pub three : LaneEntry ℕ
three = entry 3 "msg-3" 5 (some "prices")

abbrev pub four : LaneEntry ℕ
four = entry 4 "msg-4" 7 none

-- No entry awaits an acknowledgement.
abbrev pub idle : Heap
idle = record { cells = λ r. record { retry_count = 0; awaiting = false }; next_ref = 5 }

abbrev pub lane_of : OverflowAction → Bool → List (LaneEntry ℕ) → ℕ → List (LaneEntry ℕ) → Lane disk
lane_of action coalesce queue bytes on_disk = record {
  policy = policy action coalesce;
  queue = queue;
  queued_bytes = bytes;
  spill_queue = some on_disk;
}

-- A lane at both of its limits.
abbrev pub full : OverflowAction → Bool → Lane disk
full action coalesce = lane_of action coalesce (one ∷ two ∷ []) 10 []
