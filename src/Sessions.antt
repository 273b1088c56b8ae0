-- ===== src/Sessions.antt =====
-- src/internal/delivery/ClientSessionState.ts: what the server keeps for a client. `C` stands for
-- its transport client. The lane factory that the server passes creates the lanes that
-- `createDefaultLane` creates with a factory of disk queues, which it is here: a call of the
-- constructor of a disk queue, which reads and makes directories and may throw.
pub mod Registry
pub mod Members
pub mod Departure
use stream_fence_js.Prelude.{
  ℕ, Bool, true, false, String, Option, none, some, List, [], ◌∷◌, map, ◌||◌, str_eq, if◌then◌else◌,
  Result, ok, ◌>>=◌,
}
use stream_fence_js.Prelude.Dict
use stream_fence_js.Policy.{TopicPolicy, OverflowAction, spill_to_disk}
use stream_fence_js.Spill.{SpillQueue}
use stream_fence_js.Lane.{Lane, clear_spill}

-- `Set<string>`, in the order of insertion.
unfoldable pub has_member : String → List String → Bool
has_member x [] = false
has_member x (y ∷ s) = str_eq y x || has_member x s

unfoldable pub add : String → List String → List String
add x [] = x ∷ []
add x (y ∷ s) = if str_eq y x then y ∷ s else y ∷ add x s

unfoldable pub remove_member : String → List String → List String
remove_member x [] = []
remove_member x (y ∷ s) = let rest = remove_member x s in if str_eq y x then rest else y ∷ rest

pub record ClientSessionState {P : Type 0} (Q : SpillQueue P) (C : Type 0) : Type 0 where
  pub client_id : String
  pub namespace : String
  pub client : C
  pub subscriptions : List String
  pub lanes : List (String × Lane Q)
  pub draining_topics : List String

module _ {P : Type 0} {Q : SpillQueue P} {C : Type 0} where
  unfoldable pub subscribe_topic : String → ClientSessionState Q C → ClientSessionState Q C
  subscribe_topic topic s = record s { subscriptions = add topic s.subscriptions }

  unfoldable pub unsubscribe_topic : String → ClientSessionState Q C → ClientSessionState Q C
  unsubscribe_topic topic s = record s { subscriptions = remove_member topic s.subscriptions }

  unfoldable pub is_subscribed : String → ClientSessionState Q C → Bool
  is_subscribed topic s = has_member topic s.subscriptions

  unfoldable pub spill_queue_for :
      Option (String → String → String → Result Q.State)
      → String
      → ClientSessionState Q C
      → OverflowAction
      → Result (Option Q.State)
  spill_queue_for (some create) topic s spill_to_disk = do
    queue ← create s.namespace s.client_id topic
    ok (some queue)
  spill_queue_for _ topic s _ = ok none

  -- A spill queue is created for SPILL_TO_DISK, if the session has a factory for them; where that
  -- throws there is no lane.
  unfoldable pub create_default_lane :
      Option (String → String → String → Result Q.State)
      → String
      → TopicPolicy
      → ClientSessionState Q C
      → Result (Lane Q)
  unfolding spill_queue_for
  create_default_lane spill_queue_factory topic policy s = do
    spill_queue ← spill_queue_for spill_queue_factory topic s policy.overflow_action
    ok (record { policy = policy; queue = []; queued_bytes = 0; spill_queue = spill_queue })

  -- `lane(topic, policy)`: the lane of a topic, created if there is none and a policy is given.
  unfoldable pub lane :
      Option (String → String → String → Result Q.State)
      → String
      → Option TopicPolicy
      → ClientSessionState Q C
      → Result (Option (Lane Q) × ClientSessionState Q C)
  unfolding create_default_lane
  lane spill_queue_factory topic policy s = elim (Dict.get topic s.lanes) [
    | some existing ↦ ok (some existing, s)
    | none ↦ elim policy [
      | none ↦ ok (none, s)
      | some p ↦ do
        created ← create_default_lane spill_queue_factory topic p s
        ok (some created, record s { lanes = Dict.set topic created s.lanes })
    ]
  ]

  unfoldable pub start_drain : String → ClientSessionState Q C → Bool × ClientSessionState Q C
  start_drain topic s =
      if has_member topic s.draining_topics
      then (false, s)
      else (true, record s { draining_topics = add topic s.draining_topics })

  unfoldable pub finish_drain : String → ClientSessionState Q C → ClientSessionState Q C
  finish_drain topic s = record s { draining_topics = remove_member topic s.draining_topics }

  unfoldable pub is_draining : String → ClientSessionState Q C → Bool
  is_draining topic s = has_member topic s.draining_topics

  unfoldable pub all_lanes : ClientSessionState Q C → List (Lane Q)
  all_lanes s = map (λ (_, l). l) s.lanes

  unfoldable pub dispose : ClientSessionState Q C → ClientSessionState Q C
  dispose s = record s { lanes = map (λ (topic, l). (topic, clear_spill l)) s.lanes }
