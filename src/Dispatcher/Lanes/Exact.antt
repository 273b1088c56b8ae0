-- ===== src/Dispatcher/Lanes/Exact.antt =====
-- The lanes in all states that TopicDispatcher.ts reaches.
use stream_fence_js.Prelude.{◌≡◌, refl, subst, sym, String, some, List, ◌∷◌, arith}
use stream_fence_js.Prelude.Dict
use stream_fence_js.Policy.{TopicPolicy}
use stream_fence_js.Spill.{SpillQueue}
use stream_fence_js.Lane.{Lane}
use stream_fence_js.Lane.Queue.{sum_bytes}
use stream_fence_js.Lane.Bounds.{IsAccounted}
use stream_fence_js.Lane.Refill.{refill_from_disk-IsAccounted}
use stream_fence_js.Lane.Accounts.{
  enqueue-IsAccounted, shift-IsAccounted, poll_resume-IsAccounted, remove_by_message_id-IsAccounted,
  clear_spill-IsAccounted,
}
use stream_fence_js.Sessions.{ClientSessionState}
use stream_fence_js.Dispatcher.{Dispatcher, ending, session_of}
use stream_fence_js.Dispatcher.Step.{
  Step, publishes, publishes_to, acknowledges, scans, connects, subscribes, unsubscribes,
  disconnects, runs, fails, client_of, topic_of, Reach, here, next, new,
}
use stream_fence_js.Dispatcher.Lanes.{IsLaneInvariant, AllHeld, same-AllHeld}
use stream_fence_js.Dispatcher.Lanes.Publish.{publish-AllHeld, publish_to-AllHeld}
use stream_fence_js.Dispatcher.Lanes.Drain.{await-AllHeld, run-AllHeld}
use stream_fence_js.Dispatcher.Lanes.Retries.{acknowledge-AllHeld, process_retries-AllHeld}
use stream_fence_js.Dispatcher.Lanes.Members.{
  register-AllHeld, subscribe-AllHeld, on_client_unsubscribed-AllHeld,
  on_client_disconnected-AllHeld,
}

module _ {P : Type 0} {Q : SpillQueue P} {C : Type 0} {Keeps : Lane Q → Type 0}
    (law : IsLaneInvariant Keeps) where
  Step-AllHeld : (d d' : Dispatcher Q C) → Step d d' → AllHeld Keeps d → AllHeld Keeps d'
  Step-AllHeld d d' (publishes p namespace topic payload e) v =
      subst (AllHeld Keeps) (sym e) (publish-AllHeld law p namespace topic payload d v)
  Step-AllHeld d d' (publishes_to p namespace c topic payload e) v =
      subst (AllHeld Keeps) (sym e) (publish_to-AllHeld law p namespace c topic payload d v)
  Step-AllHeld d d' (acknowledges c namespace topic id e) v =
      subst (AllHeld Keeps) (sym e) (acknowledge-AllHeld law c namespace topic id d v)
  Step-AllHeld d d' (scans now e) v =
      subst (AllHeld Keeps) (sym e) (process_retries-AllHeld law now d v)
  Step-AllHeld d d' (connects s new lanes idle e) v =
      subst (AllHeld Keeps) (sym e) (register-AllHeld s d lanes v)
  Step-AllHeld d d' (subscribes s topic there e) v =
      subst (AllHeld Keeps) (sym e) (subscribe-AllHeld s topic d there v)
  Step-AllHeld d d' (unsubscribes c namespace topic e) v =
      subst (AllHeld Keeps) (sym e) (on_client_unsubscribed-AllHeld c namespace topic d v)
  Step-AllHeld d d' (disconnects c e) v =
      subst (AllHeld Keeps) (sym e) (on_client_disconnected-AllHeld law c d v)
  Step-AllHeld d d' (runs before after t throws now split e) v =
      subst (AllHeld Keeps) (sym e) (run-AllHeld law t throws now _ (same-AllHeld d _ refl refl v))
  Step-AllHeld d d' (fails before after t split e) v =
      subst (AllHeld Keeps) (sym e)
        (await-AllHeld law (ending (client_of t) (topic_of t)) _ (same-AllHeld d _ refl refl v))

  -- What a new lane has and every operation on a lane keeps holds of all lanes of all session
  -- objects in every state that the dispatcher reaches from a new one.
  pub Reach-AllHeld :
      (policies : List (String × TopicPolicy)) (d : Dispatcher Q C)
      → Reach (new policies) d
      → AllHeld Keeps d
  unfolding session_of Dict.get
  Reach-AllHeld policies d here = λ c s e. absurd (ground arith)
  Reach-AllHeld policies d (next {e} {f} r step) =
      Step-AllHeld e d step (Reach-AllHeld policies e r)

module _ {P : Type 0} {Q : SpillQueue P} where
  exact : IsLaneInvariant (IsAccounted {Q = Q})
  unfolding sum_bytes
  exact = record {
    created = λ policy s. refl;
    enqueued = λ h l e. enqueue-IsAccounted h l e;
    shifted = λ h l e q. shift-IsAccounted h l (e ∷ q);
    polled = λ h l. poll_resume-IsAccounted h l;
    refilled = λ h l v. (refill_from_disk-IsAccounted h l v).0;
    removed = λ h l id. remove_by_message_id-IsAccounted h l id;
    cleared = λ l. clear_spill-IsAccounted l;
  }

module _ {P : Type 0} {Q : SpillQueue P} {C : Type 0} where
  -- In every state that the dispatcher reaches from a new one by its steps, in which every
  -- connection has a client id of its own, the byte count of every lane of every session object
  -- is the sum of the sizes of the messages in its queue.
  pub Reach-IsAccounted :
      (policies : List (String × TopicPolicy)) (d : Dispatcher Q C) (client_id topic : String)
      (s : ClientSessionState Q C) (l : Lane Q)
      → Reach (new policies) d
      → session_of client_id d ≡ some s
      → Dict.get topic s.lanes ≡ some l
      → l.queued_bytes ≡ sum_bytes l.queue
  Reach-IsAccounted policies d client_id topic s l r there held =
      Reach-AllHeld exact policies d r client_id s there topic l held
