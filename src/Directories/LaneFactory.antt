-- ===== src/Directories/LaneFactory.antt =====
-- `createLaneFactory` of src/StreamFenceServer.ts: the lane of a topic with its disk queue.
use Prim.Native.String.{String}
use stream_fence_js.Prelude.{Option, none, some, List, [], Result, ok, ◌>>=◌, ◌≡◌, arith}
use stream_fence_js.Policy.{TopicPolicy, OverflowAction, spill_to_disk}
use stream_fence_js.Spill.{SpillQueue}
use stream_fence_js.Lane.{Lane}
use stream_fence_js.Sessions.{ClientSessionState, create_default_lane, spill_queue_for}
use stream_fence_js.Directories.{spill_directory}

-- `open_queue` is the constructor of the disk queue, which may throw.
unfoldable pub spill_queue_of :
    {S : Type 0} → (String → Result S) → OverflowAction → String → Result (Option S)
spill_queue_of open_queue spill_to_disk directory = do queue ← open_queue directory; ok (some queue)
spill_queue_of open_queue _ directory = ok none

module _ {P : Type 0} {Q : SpillQueue P} where
  unfoldable pub create_lane :
      (String → Result Q.State)
      → (List String → String)
      → String
      → String
      → String
      → String
      → TopicPolicy
      → Result (Lane Q)
  unfolding spill_queue_of spill_directory
  create_lane open_queue join spill_root_path client_id namespace topic policy = do
    spill_queue ←
        spill_queue_of open_queue policy.overflow_action
          (spill_directory join spill_root_path namespace client_id topic)
    ok (record { policy = policy; queue = []; queued_bytes = 0; spill_queue = spill_queue })

module _ {P : Type 0} {Q : SpillQueue P} {C : Type 0} where
  -- The lane factory that the server passes to its sessions creates, and throws, as the sessions do
  -- by themselves with a factory of disk queues in the directories of the server.
  create_lane-create_default_lane :
      (open_queue : String → Result Q.State) (join : List String → String) (root topic : String)
      (policy : TopicPolicy) (s : ClientSessionState Q C)
      → create_lane {Q = Q} open_queue join root s.client_id s.namespace topic policy
        ≡ create_default_lane
            (some (λ namespace client_id topic.
              open_queue (spill_directory join root namespace client_id topic)))
            topic
            policy
            s
  unfolding create_lane spill_queue_of create_default_lane spill_queue_for
  create_lane-create_default_lane open_queue join root topic policy s = ground arith
