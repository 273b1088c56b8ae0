-- ===== src/Tests/Acks.antt =====
-- The theorems on AckTracker.ts at concrete trackers.
use stream_fence_js.Prelude.{
  ℕ, zero, suc, ◌+◌, length, ◌≡◌, ◌≢◌, String, none, List, [], ◌∷◌, All, arith,
}
use stream_fence_js.Prelude.Dict
use stream_fence_js.Prelude.Dict.{IsDict}
use stream_fence_js.Message.{message_id}
use stream_fence_js.Ack.{
  AckTracker, retry, key_for, register, acknowledge, collect_expired, collect_loop, total_retries,
}
use stream_fence_js.Ack.Expirations.{ExpirationHandle}
use stream_fence_js.Ack.Expirations.Order.{due, IsHeap}
use stream_fence_js.Ack.Expirations.Pop.{Pops, heap_pop-Pops}
use stream_fence_js.Ack.Invariant.{IsTracking, register-IsTracking}
use stream_fence_js.Ack.Stale.{empty_tracker, stale_handle_retries}
use stream_fence_js.Ack.Collect.{Collected, collect_expired-Collected, collect_loop-collect_expired}
use stream_fence_js.Ack.Decisions.{
  IsNamed, decision_key, register-IsNamed, acknowledge-collect_expired,
}
use stream_fence_js.Tests.Data.{one, two, idle}

abbrev handle : String → ℕ → ExpirationHandle
handle key deadline = record { key = key; deadline = deadline; generation = 1 }

-- A heap that is not sorted.
abbrev deadlines : List ExpirationHandle
deadlines = handle "a" 10 ∷ handle "b" 40 ∷ handle "c" 20 ∷ []

deadlines-IsHeap : IsHeap deadlines
unfolding due
deadlines-IsHeap zero p q = absurd (omega arith)
deadlines-IsHeap (suc zero) p q = omega arith
deadlines-IsHeap (suc (suc zero)) p q = omega arith
deadlines-IsHeap (suc (suc (suc c))) p q = absurd (omega arith)

heap_pop-Pops_example : Pops deadlines
heap_pop-Pops_example = heap_pop-Pops deadlines deadlines-IsHeap (omega arith)

abbrev empty : AckTracker ℕ
empty = record { pending = []; heap = [] }

empty-IsTracking : IsTracking empty
unfolding Dict.get
empty-IsTracking = record {
  ordered = λ c p q. absurd (omega arith);
  keyed = λ k s e. absurd (ground arith);
  live = λ k s e. absurd (ground arith);
}

empty-IsNamed : IsNamed empty.pending
unfolding Dict.get
empty-IsNamed k s e = absurd (ground arith)

-- One message of the client c1.
abbrev sent_one : AckTracker ℕ
sent_one = register "c1" "/feed" "prices" one 100 2 0 empty

abbrev pub sent_two : AckTracker ℕ
sent_two = register "c2" "/feed" "prices" two 50 1 10 sent_one

sent_one-IsTracking : IsTracking sent_one
sent_one-IsTracking = register-IsTracking "c1" "/feed" "prices" one 100 2 0 empty empty-IsTracking

pub sent_two-IsTracking : IsTracking sent_two
sent_two-IsTracking =
    register-IsTracking "c2" "/feed" "prices" two 50 1 10 sent_one sent_one-IsTracking

register-IsTracking_example : IsTracking sent_two
register-IsTracking_example =
    register-IsTracking "c2" "/feed" "prices" two 50 1 10 sent_one sent_one-IsTracking

-- At 120 both messages are due, and the one of c2 would be due again.
collect_expired-Collected_example : Collected 120 (collect_expired 120 idle sent_two).2
collect_expired-Collected_example = collect_expired-Collected 120 idle sent_two sent_two-IsTracking

sent_one-IsNamed : IsNamed sent_one.pending
sent_one-IsNamed = register-IsNamed "c1" "/feed" "prices" one 100 2 0 empty empty-IsNamed

acknowledge-collect_expired_example :
    let t = (acknowledge "c1" "/feed" "prices" "msg-1" sent_one).1 in
    let k = key_for "c1" "/feed" "prices" "msg-1" in
    All (λ d. decision_key d ≢ k) (collect_expired 500 idle t).0
    × (Dict.get k (collect_expired 500 idle t).2.pending ≡ none)
acknowledge-collect_expired_example =
    acknowledge-collect_expired "c1" "/feed" "prices" "msg-1" 500 idle sent_one sent_one-IsNamed

-- The message is sent at 0 and again at 90, with a deadline at 190, and the old handle runs out at 100.
stale_handle_retries_example :
    let sent = λ (now : ℕ) (t : AckTracker ℕ). register "c1" "/feed" "prices" one 100 2 now t in
    let acknowledged =
      (acknowledge "c1" "/feed" "prices" (message_id one) (sent 0 empty_tracker)).1 in
    ((collect_expired 120 idle (sent 90 acknowledged)).0
      ≡ record {
        action = retry;
        client_id = "c1";
        namespace = "/feed";
        topic = "prices";
        pending_message = one;
      }
        ∷ [])
    × ((collect_expired 120 idle (sent 90 empty_tracker)).0 ≡ [])
stale_handle_retries_example =
    stale_handle_retries "c1" "/feed" "prices" one 100 2 0 90 120 idle (omega arith) (omega arith)
      (omega arith) (omega arith)

sent_two-IsDict : IsDict sent_two.pending
unfolding register Dict.get Dict.set key_for
sent_two-IsDict = ground arith

-- With any bound that is 3 above the handles and the retries.
collect_loop-collect_expired_example :
    collect_loop (length sent_two.heap + total_retries sent_two.pending + 3) 120 idle sent_two
    ≡ collect_expired 120 idle sent_two
collect_loop-collect_expired_example =
    collect_loop-collect_expired (length sent_two.heap + total_retries sent_two.pending + 3) 120
      idle sent_two (omega arith) sent_two-IsTracking
