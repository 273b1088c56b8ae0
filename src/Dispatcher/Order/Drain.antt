-- ===== src/Dispatcher/Order/Drain.antt =====
-- The drains of TopicDispatcher.ts keep the order of drains.
use stream_fence_js.Prelude.{
  ◌≡◌, refl, ap, ◌∙◌, true, false, Bool, ℕ, String, Option, none, some, List, [], ◌∷◌, arith,
  Option-cases, Bool-cases, inl, inr, ltb,
}
use stream_fence_js.Prelude.Dict
use stream_fence_js.Policy.{DeliveryMode, best_effort, at_least_once}
use stream_fence_js.Message.{LaneEntry}
use stream_fence_js.Spill.{SpillQueue}
use stream_fence_js.Lane.{Lane, has_spilled, in_flight_count, shift, poll_resume, refill_from_disk}
use stream_fence_js.Lane.Queue.{find_pending, mark_awaiting}
use stream_fence_js.Ack.{register}
use stream_fence_js.Sessions.{ClientSessionState}
use stream_fence_js.Dispatcher.{
  Dispatcher, Task, queued, polling, polled, finding, found, ending, emit, session_of, report,
}
use stream_fence_js.Dispatcher.Retries.{may_drain}
use stream_fence_js.Dispatcher.Drain.{
  lane_of, finish, end_drain, next_poll, next_find, start_mode, drain_topic, resume_poll,
  resume_best_effort, resume_find, take_back, resume_at_least_once, run,
}
use stream_fence_js.Dispatcher.Step.{client_of, topic_of}
use stream_fence_js.Dispatcher.Sessions.{view, session_of-same}
use stream_fence_js.Dispatcher.Order.{
  IsOrderly, await-IsOrderly, untouched-IsOrderly, put_lane-IsOrderly, schedule_drain-IsOrderly,
  finish-IsOrderly,
}

module _ {P : Type 0} {Q : SpillQueue P} {C : Type 0} where
  lane_of-session_of :
      (c topic : String) (s : ClientSessionState Q C) (l : Lane Q) (d : Dispatcher Q C)
      → lane_of c topic d ≡ some (s, l)
      → session_of c d ≡ some s
  unfolding lane_of
  lane_of-session_of c topic s l d here = elim (Option-cases (session_of c d)) [
    | inl missing ↦ absurd (ground arith)
    | inr (s', there) ↦ elim (Option-cases (Dict.get topic s'.lanes)) [
      | inl missing ↦ absurd (ground arith)
      | inr (l', held) ↦ ground arith
    ]
  ]

  pub end_drain-IsOrderly :
      (c t : String) (d : Dispatcher Q C)
      → IsOrderly (some (c, t)) d
      → IsOrderly none (end_drain c t d)
  unfolding end_drain
  end_drain-IsOrderly c t d v =
      let d' = finish c t d in
      let v' = finish-IsOrderly c t d v in
      elim (Option-cases (lane_of c t d')) [
        | inl missing ↦ rw (missing, end_drain) v'
        | inr ((s, l), here) ↦ elim (Bool-cases (may_drain d'.heap l)) [
          | inl more ↦ rw (here, end_drain) (rw more (schedule_drain-IsOrderly c t d' v'))
          | inr done ↦ rw (here, end_drain) (rw done v')
        ]
      ]

  next_poll-IsOrderly :
      (c t : String) (s : ClientSessionState Q C) (l : Lane Q) (d : Dispatcher Q C)
      → view (session_of c d) ≡ view (some s)
      → IsOrderly (some (c, t)) d
      → IsOrderly none (next_poll c t s l d)
  unfolding next_poll
  next_poll-IsOrderly c t s l d here v = next l.queue refl
    where
      next : (q : List (LaneEntry P)) → l.queue ≡ q → IsOrderly none (next_poll c t s l d)
      next [] empty = elim (Bool-cases (has_spilled l)) [
        | inl disk ↦ rw (empty, next_poll) (rw disk (await-IsOrderly (polling c t) d v))
        | inr none_left ↦
            rw (empty, next_poll) (rw none_left (await-IsOrderly (polled c t none) d v))
      ]
      next (e ∷ q) queue =
          let r = shift d.heap l (e ∷ q) in
          rw (queue, next_poll)
            (await-IsOrderly (polled c t r.0) _ (
              put_lane-IsOrderly (some (c, t)) c t r.2 s d (record d { heap = r.1 }) refl refl refl
                here v))

  next_find-IsOrderly :
      (c t : String) (l : Lane Q) (d : Dispatcher Q C)
      → IsOrderly (some (c, t)) d
      → IsOrderly none (next_find c t l d)
  unfolding next_find
  next_find-IsOrderly c t l d v =
      elim (Bool-cases (ltb (in_flight_count d.heap l) l.policy.max_in_flight)) [
        | inr full ↦ rw (full, next_find) (await-IsOrderly (ending c t) d v)
        | inl room ↦ elim (Option-cases (find_pending d.heap l.queue)) [
          | inr (e, pending) ↦
              rw (room, next_find) (rw pending (await-IsOrderly (found c t (some e)) d v))
          | inl sent ↦ elim (Bool-cases (has_spilled l)) [
            | inl disk ↦
                rw (room, next_find) (rw sent (rw disk (await-IsOrderly (finding c t) d v)))
            | inr nothing ↦
                rw (room, next_find) (rw sent (rw nothing (await-IsOrderly (found c t none) d v)))
          ]
        ]
      ]

  start_mode-IsOrderly :
      (m : DeliveryMode) (c t : String) (s : ClientSessionState Q C) (l : Lane Q)
      (d : Dispatcher Q C)
      → view (session_of c d) ≡ view (some s)
      → IsOrderly (some (c, t)) d
      → IsOrderly none (start_mode m c t s l d)
  unfolding start_mode
  start_mode-IsOrderly best_effort c t s l d here v = next_poll-IsOrderly c t s l d here v
  start_mode-IsOrderly at_least_once c t s l d here v = next_find-IsOrderly c t l d v

  drain_topic-IsOrderly :
      (c t : String) (d : Dispatcher Q C)
      → IsOrderly (some (c, t)) d
      → IsOrderly none (drain_topic c t d)
  unfolding drain_topic
  drain_topic-IsOrderly c t d v = elim (Option-cases (lane_of c t d)) [
    | inl missing ↦ rw (missing, drain_topic) (finish-IsOrderly c t d v)
    | inr ((s, l), here) ↦
        rw (here, drain_topic)
          (start_mode-IsOrderly l.policy.delivery_mode c t s l d
            (ap view (lane_of-session_of c t s l d here)) v)
  ]

  resume_poll-IsOrderly :
      (c t : String) (d : Dispatcher Q C)
      → IsOrderly (some (c, t)) d
      → IsOrderly none (resume_poll c t d)
  unfolding resume_poll
  resume_poll-IsOrderly c t d v = elim (Option-cases (lane_of c t d)) [
    | inl missing ↦ rw (missing, resume_poll) (await-IsOrderly (ending c t) d v)
    | inr ((s, l), here) ↦
        let r = poll_resume d.heap l in
        rw (here, resume_poll)
          (await-IsOrderly (polled c t r.0) _ (
            put_lane-IsOrderly (some (c, t)) c t r.2 s d (record d { heap = r.1 }) refl refl refl
              (ap view (lane_of-session_of c t s l d here)) v))
  ]

  resume_best_effort-IsOrderly :
      (c t : String) (o : Option (LaneEntry P)) (d : Dispatcher Q C)
      → IsOrderly (some (c, t)) d
      → IsOrderly none (resume_best_effort c t o d)
  unfolding resume_best_effort
  resume_best_effort-IsOrderly c t none d v = await-IsOrderly (ending c t) d v
  resume_best_effort-IsOrderly c t (some e) d v =
      let d₁ = report (emit c e.published_message.outbound_message false ∷ []) d in
      let v₁ = untouched-IsOrderly (some (c, t)) d d₁ refl refl refl v in
      elim (Option-cases (lane_of c t d₁)) [
        | inl missing ↦ rw (missing, resume_best_effort) (await-IsOrderly (ending c t) d₁ v₁)
        | inr ((s, l), here) ↦
            rw (here, resume_best_effort)
              (next_poll-IsOrderly c t s l d₁ (ap view (lane_of-session_of c t s l d₁ here)) v₁)
      ]

  resume_find-IsOrderly :
      (c t : String) (d : Dispatcher Q C)
      → IsOrderly (some (c, t)) d
      → IsOrderly none (resume_find c t d)
  unfolding resume_find
  resume_find-IsOrderly c t d v = elim (Option-cases (lane_of c t d)) [
    | inl missing ↦ rw (missing, resume_find) (await-IsOrderly (ending c t) d v)
    | inr ((s, l), here) ↦
        let r = refill_from_disk d.heap l in
        rw (here, resume_find)
          (await-IsOrderly (found c t (find_pending r.0 r.1.queue)) _ (
            put_lane-IsOrderly (some (c, t)) c t r.1 s d (record d { heap = r.0 }) refl refl refl
              (ap view (lane_of-session_of c t s l d here)) v))
  ]

  take_back-IsOrderly :
      (c t : String) (e : LaneEntry P) (s : ClientSessionState Q C) (l : Lane Q)
      (d : Dispatcher Q C)
      → view (session_of c d) ≡ view (some s)
      → IsOrderly (some (c, t)) d
      → IsOrderly (some (c, t)) (take_back c t e s l d).1
  unfolding take_back
  take_back-IsOrderly c t e s l d here v =
      put_lane-IsOrderly (some (c, t)) c t _ s d _ refl refl refl here v

  resume_at_least_once-IsOrderly :
      (c t : String) (o : Option (LaneEntry P)) (throws : Bool) (now : ℕ) (d : Dispatcher Q C)
      → IsOrderly (some (c, t)) d
      → IsOrderly none (resume_at_least_once c t o throws now d)
  unfolding resume_at_least_once
  resume_at_least_once-IsOrderly c t none throws now d v = await-IsOrderly (ending c t) d v
  resume_at_least_once-IsOrderly c t (some e) throws now d v = elim (Option-cases (lane_of c t d)) [
    | inl missing ↦ rw (missing, resume_at_least_once) (await-IsOrderly (ending c t) d v)
    | inr ((s, l), here) ↦
        let sent = report (emit c e.published_message.outbound_message true ∷ []) (record d {
          heap = mark_awaiting d.heap e;
          tracker =
              register s.client_id s.namespace t e l.policy.ack_timeout_ms l.policy.max_retries now
                d.tracker;
        }) in
        let v₁ : IsOrderly (some (c, t)) sent =
          untouched-IsOrderly (some (c, t)) d sent refl refl refl v in
        let here₁ : view (session_of c sent) ≡ view (some s) =
          ap view (session_of-same c d sent refl refl ∙ lane_of-session_of c t s l d here) in
        let undone = take_back c t e s l sent in
        let v₂ = take_back-IsOrderly c t e s l sent here₁ v₁ in
        elim (Bool-cases throws) [
          | inl thrown ↦
              rw (here, resume_at_least_once)
                (rw thrown (next_find-IsOrderly c t undone.0 undone.1 v₂))
          | inr fine ↦ rw (here, resume_at_least_once) (rw fine (next_find-IsOrderly c t l sent v₁))
        ]
  ]

  -- A task that runs.
  pub run-IsOrderly :
      (t : Task P) (throws : Bool) (now : ℕ) (d : Dispatcher Q C)
      → IsOrderly (some (client_of t, topic_of t)) d
      → IsOrderly none (run t throws now d)
  unfolding run
  run-IsOrderly (queued c t) throws now d v = drain_topic-IsOrderly c t d v
  run-IsOrderly (polling c t) throws now d v = resume_poll-IsOrderly c t d v
  run-IsOrderly (polled c t o) throws now d v = resume_best_effort-IsOrderly c t o d v
  run-IsOrderly (finding c t) throws now d v = resume_find-IsOrderly c t d v
  run-IsOrderly (found c t o) throws now d v = resume_at_least_once-IsOrderly c t o throws now d v
  run-IsOrderly (ending c t) throws now d v = end_drain-IsOrderly c t d v
