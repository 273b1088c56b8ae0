-- ===== src/Tests/Dispatchers.antt =====
-- The theorems on TopicDispatcher.ts at concrete dispatchers.
use stream_fence_js.Prelude.{
  ℕ, ◌≤◌, ◌≡◌, ◌≢◌, ◌↔◌, refl, true, false, String, Option, none, some, List, [], ◌∷◌, throws,
  arith, Any, ◌⊎◌,
}
use stream_fence_js.Prelude.Dict
use stream_fence_js.Policy.{TopicPolicy, reject_new, spill_to_disk}
use stream_fence_js.Message.{create_outbound_topic_message, new_lane_entry}
use stream_fence_js.Dispatcher.Lanes.Exact.{Reach-IsAccounted}
use stream_fence_js.Lane.Queue.{sum_bytes}
use stream_fence_js.Lane.{Lane, enqueue, enqueue_fitting, fits, accept}
use stream_fence_js.Topics.{topic_key, find}
use stream_fence_js.Sessions.{
  ClientSessionState, has_member, is_subscribed, subscribe_topic, add, lane, create_default_lane,
  spill_queue_for, start_drain,
}
use stream_fence_js.Sessions.Registry.{
  register, subscribe, get_session, subscribers_of, sessions_of,
}
use stream_fence_js.Sessions.Members.{IsConsistent, subscribe-IsConsistent}
use stream_fence_js.Dispatcher.{Dispatcher, session_of, put_session, put_lane, schedule_drain}
use stream_fence_js.Dispatcher.Publish.{
  Platform, publish, estimate_bytes, outbound, message_id_of, enqueue_for_sessions,
  enqueue_for_session, enqueue_for_lane, enqueue_in, publish_message,
}
use stream_fence_js.Dispatcher.Step.{new, Reach, here, next, connects, subscribes, publishes}
use stream_fence_js.Dispatcher.Sessions.{view}
use stream_fence_js.Dispatcher.Order.{drains, flag}
use stream_fence_js.Dispatcher.Exclusive.{Reach-drains}
use stream_fence_js.Dispatcher.Errors.{Throws, Refuses, publish-Throws}
use stream_fence_js.Dispatcher.Recipients.{publish-session_of}
use stream_fence_js.Tests.Data.{disk, policy, lane_of}
use stream_fence_js.Tests.Sessions.{client}

abbrev pub platform : Platform disk
platform = record { byte_length = λ n. some 4; spill_queue_factory = none }

abbrev pub policies : List (String × TopicPolicy)
unfolding topic_key
policies = (topic_key "/feed" "prices", policy reject_new false) ∷ []

abbrev empty : Dispatcher disk ℕ
empty = new policies

abbrev connected : Dispatcher disk ℕ
connected = record empty { registry = register client empty.registry }

abbrev pub listening : Dispatcher disk ℕ
listening = record connected { registry = subscribe client "prices" connected.registry }

abbrev pub published : Dispatcher disk ℕ
published = (publish platform "/feed" "prices" 7 listening).0

connected_registered : get_session "c1" connected.registry ≡ some client
unfolding get_session register Dict.get Dict.set
connected_registered = refl

nobody_there : session_of "c1" empty ≡ none
unfolding session_of Dict.get
nobody_there = refl

pub published-Reach : Reach empty published
published-Reach =
    next
      (next (next here (connects client nobody_there refl refl refl))
        (subscribes client "prices" connected_registered refl))
      (publishes platform "/feed" "prices" 7 refl)

-- The drain of the message that was published.
Reach-drains_example :
    (drains "c1" "prices" published.tasks ≤ 1)
    × (drains "c1" "prices" published.tasks ≡ flag "prices" (view (session_of "c1" published)))
Reach-drains_example = Reach-drains policies published "c1" "prices" published-Reach

one_drain : drains "c1" "prices" published.tasks ≡ 1
unfolding publish publish_message find topic_key Dict.get Dict.has outbound estimate_bytes
    message_id_of create_outbound_topic_message subscribers_of sessions_of enqueue_for_sessions
    enqueue_for_session enqueue_in session_of lane create_default_lane spill_queue_for
    enqueue_for_lane new_lane_entry enqueue enqueue_fitting fits accept put_lane put_session
    schedule_drain start_drain has_member add subscribe subscribe_topic register Dict.set
one_drain = refl

written : platform.byte_length 7 ≢ some 0
written e = ground arith

-- The namespace's disk queues cannot be opened, and the client has no lane yet.
abbrev pub refusing : Platform disk
refusing = record {
  byte_length = λ n. some 4;
  spill_queue_factory = some (λ namespace client_id topic. throws "EACCES");
}

abbrev pub spilling : Dispatcher disk ℕ
unfolding topic_key
spilling = record listening {
  policies = (topic_key "/feed" "prices", policy spill_to_disk false) ∷ [];
}

publish-Throws_example : Throws (publish refusing "/feed" "prices" 7 spilling) ↔ (
    (find "/feed" "prices" spilling.policies ≡ none)
    ⊎ ((policy : TopicPolicy) × (find "/feed" "prices" spilling.policies ≡ some policy)
        × Any
            (λ s. Refuses refusing "prices" policy spilling s.client_id)
            (subscribers_of "/feed" "prices" spilling.registry)))
publish-Throws_example = publish-Throws refusing "/feed" "prices" 7 spilling written

publish_throws : (publish refusing "/feed" "prices" 7 spilling).1 ≡ some "EACCES"
unfolding publish publish_message find topic_key Dict.get Dict.has outbound estimate_bytes
    message_id_of create_outbound_topic_message subscribers_of sessions_of enqueue_for_sessions
    enqueue_for_session enqueue_in session_of lane create_default_lane spill_queue_for register
    subscribe subscribe_topic add Dict.set
publish_throws = refl

connected-IsConsistent : IsConsistent connected.registry
unfolding register has_member Dict.get
connected-IsConsistent c k m = absurd (ground arith)

connected_own :
    (t : ClientSessionState disk ℕ)
    → Dict.get "c1" connected.registry.sessions ≡ some t
    → t ≡ client
unfolding register Dict.set Dict.get
connected_own t e = ground arith

listening-IsConsistent : IsConsistent listening.registry
listening-IsConsistent =
    subscribe-IsConsistent client "prices" connected.registry connected_own connected-IsConsistent

-- The client c2 is not connected.
nobody_else :
    (s : ClientSessionState disk ℕ)
    → Dict.get "c2" listening.registry.sessions ≡ some s
    → (t : String) → is_subscribed t s ≡ true
    → topic_key s.namespace t ≢ topic_key "/feed" "prices"
unfolding register subscribe Dict.set Dict.get
nobody_else s e t on = absurd (ground arith)

publish-session_of_example : session_of "c2" published ≡ session_of "c2" listening
publish-session_of_example =
    publish-session_of platform "/feed" "prices" 7 listening "c2" listening-IsConsistent nobody_else

abbrev session_or : Option (ClientSessionState disk ℕ) → ClientSessionState disk ℕ
session_or none = client
session_or (some s) = s

abbrev lane_or : Option (Lane disk) → Lane disk
lane_or none = lane_of reject_new false [] 0 []
lane_or (some l) = l

-- The session of the client and its lane, with the message in it.
abbrev receiving : ClientSessionState disk ℕ
receiving = session_or (session_of "c1" published)

abbrev filled : Lane disk
filled = lane_or (Dict.get "prices" receiving.lanes)

receiving_there : session_of "c1" published ≡ some receiving
unfolding publish publish_message find topic_key Dict.get Dict.has outbound estimate_bytes
    message_id_of create_outbound_topic_message subscribers_of sessions_of enqueue_for_sessions
    enqueue_for_session enqueue_in session_of lane create_default_lane spill_queue_for
    enqueue_for_lane new_lane_entry enqueue enqueue_fitting fits accept put_lane put_session
    schedule_drain start_drain has_member add subscribe subscribe_topic register Dict.set
receiving_there = refl

filled_there : Dict.get "prices" receiving.lanes ≡ some filled
unfolding publish publish_message find topic_key Dict.get Dict.has outbound estimate_bytes
    message_id_of create_outbound_topic_message subscribers_of sessions_of enqueue_for_sessions
    enqueue_for_session enqueue_in session_of lane create_default_lane spill_queue_for
    enqueue_for_lane new_lane_entry enqueue enqueue_fitting fits accept put_lane put_session
    schedule_drain start_drain has_member add subscribe subscribe_topic register Dict.set
filled_there = refl

filled_bytes : filled.queued_bytes ≡ 4
unfolding publish publish_message find topic_key Dict.get Dict.has outbound estimate_bytes
    message_id_of create_outbound_topic_message subscribers_of sessions_of enqueue_for_sessions
    enqueue_for_session enqueue_in session_of lane create_default_lane spill_queue_for
    enqueue_for_lane new_lane_entry enqueue enqueue_fitting fits accept put_lane put_session
    schedule_drain start_drain has_member add subscribe subscribe_topic register Dict.set
filled_bytes = refl

Reach-IsAccounted_example : filled.queued_bytes ≡ sum_bytes filled.queue
Reach-IsAccounted_example =
    Reach-IsAccounted policies published "c1" "prices" receiving filled published-Reach
      receiving_there filled_there
