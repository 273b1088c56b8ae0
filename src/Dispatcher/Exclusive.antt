-- ===== src/Dispatcher/Exclusive.antt =====
-- At most one drain per session and topic in TopicDispatcher.ts, whatever happens.
use stream_fence_js.Prelude.{◌≡◌, ◌≤◌, subst, sym, String, none, List, arith}
use stream_fence_js.Prelude.Dict
use stream_fence_js.Policy.{TopicPolicy}
use stream_fence_js.Spill.{SpillQueue}
use stream_fence_js.Dispatcher.{Dispatcher, ending, session_of}
use stream_fence_js.Dispatcher.Step.{
  Step, publishes, publishes_to, acknowledges, scans, connects, subscribes, unsubscribes,
  disconnects, runs, fails, Reach, here, next, new, client_of, topic_of,
}
use stream_fence_js.Dispatcher.Sessions.{view}
use stream_fence_js.Dispatcher.Order.{IsOrderly, drains, flag, await-IsOrderly, take-IsOrderly}
use stream_fence_js.Dispatcher.Order.Publish.{publish-IsOrderly, publish_to-IsOrderly}
use stream_fence_js.Dispatcher.Order.Drain.{run-IsOrderly}
use stream_fence_js.Dispatcher.Order.Retries.{acknowledge-IsOrderly, process_retries-IsOrderly}
use stream_fence_js.Dispatcher.Order.Members.{
  register-IsOrderly, subscribe-IsOrderly, on_client_unsubscribed-IsOrderly,
  on_client_disconnected-IsOrderly,
}

module _ {P : Type 0} {Q : SpillQueue P} {C : Type 0} where
  -- Every step of the dispatcher keeps the order of drains: every session has its own client id, a
  -- topic of a session is marked as being drained exactly if one drain of it is under way, and there
  -- is never a second one.
  pub Step-IsOrderly : (d d' : Dispatcher Q C) → Step d d' → IsOrderly none d → IsOrderly none d'
  Step-IsOrderly d d' (publishes p namespace topic payload e) v =
      subst (IsOrderly none) (sym e) (publish-IsOrderly p namespace topic payload d v)
  Step-IsOrderly d d' (publishes_to p namespace c topic payload e) v =
      subst (IsOrderly none) (sym e) (publish_to-IsOrderly p namespace c topic payload d v)
  Step-IsOrderly d d' (acknowledges c namespace topic id e) v =
      subst (IsOrderly none) (sym e) (acknowledge-IsOrderly c namespace topic id d v)
  Step-IsOrderly d d' (scans now e) v =
      subst (IsOrderly none) (sym e) (process_retries-IsOrderly now d v)
  Step-IsOrderly d d' (connects s new lanes idle e) v =
      subst (IsOrderly none) (sym e) (register-IsOrderly s d new idle v)
  Step-IsOrderly d d' (subscribes s topic there e) v =
      subst (IsOrderly none) (sym e) (subscribe-IsOrderly s topic d there v)
  Step-IsOrderly d d' (unsubscribes c namespace topic e) v =
      subst (IsOrderly none) (sym e) (on_client_unsubscribed-IsOrderly c namespace topic d v)
  Step-IsOrderly d d' (disconnects c e) v =
      subst (IsOrderly none) (sym e) (on_client_disconnected-IsOrderly c d v)
  Step-IsOrderly d d' (runs before after t throws now split e) v =
      subst (IsOrderly none) (sym e)
        (run-IsOrderly t throws now _ (take-IsOrderly before after t d split v))
  Step-IsOrderly d d' (fails before after t split e) v = subst (IsOrderly none) (sym e) (
      await-IsOrderly (ending (client_of t) (topic_of t)) _
        (take-IsOrderly before after t d split v))

  Reach-IsOrderly : (d d' : Dispatcher Q C) → Reach d d' → IsOrderly none d → IsOrderly none d'
  Reach-IsOrderly d d' here v = v
  Reach-IsOrderly d d' (next {e} {f} r step) v = Step-IsOrderly e d' step (Reach-IsOrderly d e r v)

  new-IsOrderly :
      (policies : List (String × TopicPolicy)) → IsOrderly {Q = Q} {C = C} none (new policies)
  unfolding session_of Dict.get
  new-IsOrderly policies = record {
    named = λ c n topics e. absurd (ground arith);
    exclusive = λ j u. omega arith;
  }

  pub reached-IsOrderly :
      (policies : List (String × TopicPolicy)) (d : Dispatcher Q C)
      → Reach (new policies) d
      → IsOrderly none d
  reached-IsOrderly policies d r = Reach-IsOrderly (new policies) d r (new-IsOrderly policies)

  -- In every state that the dispatcher reaches from a new one, whatever is published,
  -- acknowledged, retried, connected, subscribed, unsubscribed and disconnected, in whatever
  -- order the event loop runs the tasks, and whichever sends and awaits fail, as long as every
  -- connection has a client id of its own: a client and a topic have at most one drain under
  -- way, and they have one exactly if the session's object has the topic marked as being
  -- drained.
  pub Reach-drains :
      (policies : List (String × TopicPolicy)) (d : Dispatcher Q C) (client_id topic : String)
      → Reach (new policies) d
      → (drains client_id topic d.tasks ≤ 1)
        × (drains client_id topic d.tasks ≡ flag topic (view (session_of client_id d)))
  Reach-drains policies d client_id topic r =
      let v = reached-IsOrderly policies d r in
      let same : drains client_id topic d.tasks ≡ flag topic (view (session_of client_id d)) =
        omega (arith, v.exclusive client_id topic) in
      (ground arith, same)
