-- ===== src/Dispatcher/Lanes/Drain.antt =====
-- The drains of TopicDispatcher.ts keep what lanes keep.
use stream_fence_js.Prelude.{
  ◌≡◌, refl, true, false, Bool, ℕ, String, Option, none, some, List, [], ◌∷◌, arith, Option-cases,
  Bool-cases, inl, inr, ltb,
}
use stream_fence_js.Prelude.Dict
use stream_fence_js.Policy.{DeliveryMode, best_effort, at_least_once}
use stream_fence_js.Message.{LaneEntry, message_id}
use stream_fence_js.Spill.{SpillQueue}
use stream_fence_js.Lane.{Lane, has_spilled, in_flight_count, shift, poll_resume, refill_from_disk}
use stream_fence_js.Lane.Queue.{find_pending, mark_awaiting}
use stream_fence_js.Ack.{register}
use stream_fence_js.Sessions.{ClientSessionState}
use stream_fence_js.Dispatcher.{
  Dispatcher, Task, queued, polling, polled, finding, found, ending, emit, session_of, put_lane,
  report,
}
use stream_fence_js.Dispatcher.Retries.{may_drain}
use stream_fence_js.Dispatcher.Drain.{
  await, lane_of, finish, end_drain, next_poll, next_find, start_mode, drain_topic, resume_poll,
  resume_best_effort, resume_find, take_back, resume_at_least_once, run,
}
use stream_fence_js.Dispatcher.Lanes.{
  IsLaneInvariant, Held, AllHeld, same-AllHeld, put_lane-AllHeld, schedule_drain-AllHeld,
  finish-AllHeld,
}

module _ {P : Type 0} {Q : SpillQueue P} {C : Type 0} {Keeps : Lane Q → Type 0}
    (law : IsLaneInvariant Keeps) where
  lane_of-Held :
      (c topic : String) (s : ClientSessionState Q C) (l : Lane Q) (d : Dispatcher Q C)
      → lane_of c topic d ≡ some (s, l)
      → AllHeld Keeps d
      → Held Keeps s × Keeps l
  unfolding lane_of
  lane_of-Held c topic s l d here v = elim (Option-cases (session_of c d)) [
    | inl missing ↦ absurd (ground arith)
    | inr (s', there) ↦ elim (Option-cases (Dict.get topic s'.lanes)) [
      | inl missing ↦ absurd (ground arith)
      | inr (l', held) ↦
          let same : s ≡ s' = ground arith in
          let same_lane : l ≡ l' = ground arith in
          rw (same, same_lane) (v c s' there, v c s' there topic l' held)
    ]
  ]

  pub await-AllHeld :
      (t : Task P) (d : Dispatcher Q C) → AllHeld Keeps d → AllHeld Keeps (await t d)
  await-AllHeld t d v = same-AllHeld d (await t d) refl refl v

  end_drain-AllHeld :
      (c t : String) (d : Dispatcher Q C) → AllHeld Keeps d → AllHeld Keeps (end_drain c t d)
  unfolding end_drain
  end_drain-AllHeld c t d v =
      let d' = finish c t d in
      let v' = finish-AllHeld c t d v in
      elim (Option-cases (lane_of c t d')) [
        | inl missing ↦ rw (missing, end_drain) v'
        | inr ((s, l), here) ↦ elim (Bool-cases (may_drain d'.heap l)) [
          | inl more ↦ rw (here, end_drain) (rw more (schedule_drain-AllHeld c t d' v'))
          | inr done ↦ rw (here, end_drain) (rw done v')
        ]
      ]

  next_poll-AllHeld :
      (c t : String) (s : ClientSessionState Q C) (l : Lane Q) (d : Dispatcher Q C)
      → Held Keeps s
      → Keeps l
      → AllHeld Keeps d
      → AllHeld Keeps (next_poll c t s l d)
  unfolding next_poll
  next_poll-AllHeld c t s l d held k v = next l.queue refl
    where
      next : (q : List (LaneEntry P)) → l.queue ≡ q → AllHeld Keeps (next_poll c t s l d)
      next [] empty = elim (Bool-cases (has_spilled l)) [
        | inl disk ↦ rw (empty, next_poll) (rw disk (await-AllHeld (polling c t) d v))
        | inr none_left ↦ rw (empty, next_poll) (rw none_left (await-AllHeld (polled c t none) d v))
      ]
      next (e ∷ q) queue =
          let r = shift d.heap l (e ∷ q) in
          rw (queue, next_poll)
            (await-AllHeld (polled c t r.0) (put_lane c t r.2 s (record d { heap = r.1 })) (
              put_lane-AllHeld c t r.2 s d (record d { heap = r.1 }) refl refl held
                (law.shifted d.heap l e q queue k) v))

  next_find-AllHeld :
      (c t : String) (l : Lane Q) (d : Dispatcher Q C)
      → AllHeld Keeps d
      → AllHeld Keeps (next_find c t l d)
  unfolding next_find
  next_find-AllHeld c t l d v =
      elim (Bool-cases (ltb (in_flight_count d.heap l) l.policy.max_in_flight)) [
        | inr full ↦ rw (full, next_find) (await-AllHeld (ending c t) d v)
        | inl room ↦ elim (Option-cases (find_pending d.heap l.queue)) [
          | inr (e, pending) ↦
              rw (room, next_find) (rw pending (await-AllHeld (found c t (some e)) d v))
          | inl sent ↦ elim (Bool-cases (has_spilled l)) [
            | inl disk ↦ rw (room, next_find) (rw sent (rw disk (await-AllHeld (finding c t) d v)))
            | inr nothing ↦
                rw (room, next_find) (rw sent (rw nothing (await-AllHeld (found c t none) d v)))
          ]
        ]
      ]

  start_mode-AllHeld :
      (m : DeliveryMode) (c t : String) (s : ClientSessionState Q C) (l : Lane Q)
      (d : Dispatcher Q C)
      → Held Keeps s
      → Keeps l
      → AllHeld Keeps d
      → AllHeld Keeps (start_mode m c t s l d)
  unfolding start_mode
  start_mode-AllHeld best_effort c t s l d held k v = next_poll-AllHeld c t s l d held k v
  start_mode-AllHeld at_least_once c t s l d held k v = next_find-AllHeld c t l d v

  drain_topic-AllHeld :
      (c t : String) (d : Dispatcher Q C) → AllHeld Keeps d → AllHeld Keeps (drain_topic c t d)
  unfolding drain_topic
  drain_topic-AllHeld c t d v = elim (Option-cases (lane_of c t d)) [
    | inl missing ↦ rw (missing, drain_topic) (finish-AllHeld c t d v)
    | inr ((s, l), here) ↦
        let (held, k) = lane_of-Held c t s l d here v in
        rw (here, drain_topic) (start_mode-AllHeld l.policy.delivery_mode c t s l d held k v)
  ]

  resume_poll-AllHeld :
      (c t : String) (d : Dispatcher Q C) → AllHeld Keeps d → AllHeld Keeps (resume_poll c t d)
  unfolding resume_poll
  resume_poll-AllHeld c t d v = elim (Option-cases (lane_of c t d)) [
    | inl missing ↦ rw (missing, resume_poll) (await-AllHeld (ending c t) d v)
    | inr ((s, l), here) ↦
        let (held, k) = lane_of-Held c t s l d here v in
        let r = poll_resume d.heap l in
        rw (here, resume_poll)
          (await-AllHeld (polled c t r.0) (put_lane c t r.2 s (record d { heap = r.1 })) (
            put_lane-AllHeld c t r.2 s d (record d { heap = r.1 }) refl refl held
              (law.polled d.heap l k) v))
  ]

  resume_best_effort-AllHeld :
      (c t : String) (o : Option (LaneEntry P)) (d : Dispatcher Q C)
      → AllHeld Keeps d
      → AllHeld Keeps (resume_best_effort c t o d)
  unfolding resume_best_effort
  resume_best_effort-AllHeld c t none d v = await-AllHeld (ending c t) d v
  resume_best_effort-AllHeld c t (some e) d v =
      let d₁ = report (emit c e.published_message.outbound_message false ∷ []) d in
      let v₁ : AllHeld Keeps d₁ = same-AllHeld d d₁ refl refl v in
      elim (Option-cases (lane_of c t d₁)) [
        | inl missing ↦ rw (missing, resume_best_effort) (await-AllHeld (ending c t) d₁ v₁)
        | inr ((s, l), here) ↦
            let (held, k) = lane_of-Held c t s l d₁ here v₁ in
            rw (here, resume_best_effort) (next_poll-AllHeld c t s l d₁ held k v₁)
      ]

  resume_find-AllHeld :
      (c t : String) (d : Dispatcher Q C) → AllHeld Keeps d → AllHeld Keeps (resume_find c t d)
  unfolding resume_find
  resume_find-AllHeld c t d v = elim (Option-cases (lane_of c t d)) [
    | inl missing ↦ rw (missing, resume_find) (await-AllHeld (ending c t) d v)
    | inr ((s, l), here) ↦
        let (held, k) = lane_of-Held c t s l d here v in
        let r = refill_from_disk d.heap l in
        rw (here, resume_find)
          (await-AllHeld (found c t (find_pending r.0 r.1.queue))
            (put_lane c t r.1 s (record d { heap = r.0 }))
            (put_lane-AllHeld c t r.1 s d (record d { heap = r.0 }) refl refl held
              (law.refilled d.heap l k) v))
  ]

  take_back-AllHeld :
      (c t : String) (e : LaneEntry P) (s : ClientSessionState Q C) (l : Lane Q)
      (d : Dispatcher Q C)
      → Held Keeps s
      → Keeps l
      → AllHeld Keeps d
      → AllHeld Keeps (take_back c t e s l d).1
  unfolding take_back
  take_back-AllHeld c t e s l d held k v =
      put_lane-AllHeld c t _ s d _ refl refl held (law.removed d.heap l (message_id e) k) v

  resume_at_least_once-AllHeld :
      (c t : String) (o : Option (LaneEntry P)) (throws : Bool) (now : ℕ) (d : Dispatcher Q C)
      → AllHeld Keeps d
      → AllHeld Keeps (resume_at_least_once c t o throws now d)
  unfolding resume_at_least_once
  resume_at_least_once-AllHeld c t none throws now d v = await-AllHeld (ending c t) d v
  resume_at_least_once-AllHeld c t (some e) throws now d v = elim (Option-cases (lane_of c t d)) [
    | inl missing ↦ rw (missing, resume_at_least_once) (await-AllHeld (ending c t) d v)
    | inr ((s, l), here) ↦
        let (held, k) = lane_of-Held c t s l d here v in
        let sent = report (emit c e.published_message.outbound_message true ∷ []) (record d {
          heap = mark_awaiting d.heap e;
          tracker =
              register s.client_id s.namespace t e l.policy.ack_timeout_ms l.policy.max_retries now
                d.tracker;
        }) in
        let v₁ : AllHeld Keeps sent = same-AllHeld d sent refl refl v in
        let undone = take_back c t e s l sent in
        let v₂ = take_back-AllHeld c t e s l sent held k v₁ in
        elim (Bool-cases throws) [
          | inl thrown ↦
              rw (here, resume_at_least_once)
                (rw thrown (next_find-AllHeld c t undone.0 undone.1 v₂))
          | inr fine ↦ rw (here, resume_at_least_once) (rw fine (next_find-AllHeld c t l sent v₁))
        ]
  ]

  pub run-AllHeld :
      (t : Task P) (throws : Bool) (now : ℕ) (d : Dispatcher Q C)
      → AllHeld Keeps d
      → AllHeld Keeps (run t throws now d)
  unfolding run
  run-AllHeld (queued c t) throws now d v = drain_topic-AllHeld c t d v
  run-AllHeld (polling c t) throws now d v = resume_poll-AllHeld c t d v
  run-AllHeld (polled c t o) throws now d v = resume_best_effort-AllHeld c t o d v
  run-AllHeld (finding c t) throws now d v = resume_find-AllHeld c t d v
  run-AllHeld (found c t o) throws now d v = resume_at_least_once-AllHeld c t o throws now d v
  run-AllHeld (ending c t) throws now d v = end_drain-AllHeld c t d v
