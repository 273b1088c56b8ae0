-- ===== src/Dispatcher/Drain.antt =====
-- `drainTopic`, `drainBestEffort` and `drainAtLeastOnce` of TopicDispatcher.ts, cut at their awaits:
-- each function runs to the next await, which it leaves as a task, or to the end of the drain.
use stream_fence_js.Prelude.{
  ℕ, Bool, true, false, String, Option, none, some, [], ◌∷◌, ◌++◌, ltb, if◌then◌else◌,
}
use stream_fence_js.Prelude.Dict
use stream_fence_js.Policy.{DeliveryMode, best_effort, at_least_once}
use stream_fence_js.Message.{LaneEntry, message_id}
use stream_fence_js.Spill.{SpillQueue}
use stream_fence_js.Lane.{
  Lane, shift, has_spilled, poll_resume, refill_from_disk, remove_by_message_id, in_flight_count,
}
use stream_fence_js.Lane.Queue.{find_pending, mark_awaiting}
use stream_fence_js.Ack.{register}
use stream_fence_js.Ack
use stream_fence_js.Sessions.{ClientSessionState, finish_drain}
use stream_fence_js.Dispatcher.{
  Dispatcher, Task, queued, polling, polled, finding, found, ending, emit, session_of, put_session,
  put_lane, report, schedule_drain,
}
use stream_fence_js.Dispatcher.Retries.{may_drain}

module _ {P : Type 0} {Q : SpillQueue P} {C : Type 0} where
  abbrev pub await : Task P → Dispatcher Q C → Dispatcher Q C
  await t d = record d { tasks = d.tasks ++ t ∷ [] }

  -- `session.lane(topic)` of the session object.
  unfoldable pub lane_of :
      String → String → Dispatcher Q C → Option (ClientSessionState Q C × Lane Q)
  lane_of client_id topic d = elim (session_of client_id d) [
    | none ↦ none
    | some s ↦ elim (Dict.get topic s.lanes) [ none ↦ none | some l ↦ some (s, l) ]
  ]

  -- `session.finishDrain(topic)`
  unfoldable pub finish : String → String → Dispatcher Q C → Dispatcher Q C
  finish client_id topic d = elim (session_of client_id d) [
    | none ↦ d
    | some s ↦ put_session client_id (finish_drain topic s) d
  ]

  -- The `finally` block of `drainTopic`.
  unfoldable pub end_drain : String → String → Dispatcher Q C → Dispatcher Q C
  end_drain client_id topic d =
      let d' = finish client_id topic d in
      elim (lane_of client_id topic d') [
        | none ↦ d'
        | some (s, l) ↦ if may_drain d'.heap l then schedule_drain client_id topic d' else d'
      ]

  -- A call of `lane.poll()` in `drainBestEffort`.
  unfoldable pub next_poll :
      String → String → ClientSessionState Q C → Lane Q → Dispatcher Q C → Dispatcher Q C
  next_poll client_id topic s l d = elim l.queue [
    | [] ↦
        if has_spilled l
        then await (polling client_id topic) d
        else await (polled client_id topic none) d
    | entry ∷ queue ↦
        let (answer, h, l') = shift d.heap l (entry ∷ queue) in
        await (polled client_id topic answer)
          (put_lane client_id topic l' s (record d { heap = h }))
  ]

  -- A round of `drainAtLeastOnce` up to `await lane.firstPendingSend()`.
  unfoldable pub next_find : String → String → Lane Q → Dispatcher Q C → Dispatcher Q C
  next_find client_id topic l d =
      if ltb (in_flight_count d.heap l) l.policy.max_in_flight
      then elim (find_pending d.heap l.queue) [
        | some entry ↦ await (found client_id topic (some entry)) d
        | none ↦
            if has_spilled l
            then await (finding client_id topic) d
            else await (found client_id topic none) d
      ]
      else await (ending client_id topic) d

  unfoldable pub start_mode :
      DeliveryMode
      → String
      → String
      → ClientSessionState Q C
      → Lane Q
      → Dispatcher Q C
      → Dispatcher Q C
  start_mode best_effort client_id topic s l d = next_poll client_id topic s l d
  start_mode at_least_once client_id topic s l d = next_find client_id topic l d

  -- `drainTopic`. Without a lane it is over at once.
  unfoldable pub drain_topic : String → String → Dispatcher Q C → Dispatcher Q C
  drain_topic client_id topic d = elim (lane_of client_id topic d) [
    | none ↦ finish client_id topic d
    | some (s, l) ↦ start_mode l.policy.delivery_mode client_id topic s l d
  ]

  -- The disk has answered `poll`.
  unfoldable pub resume_poll : String → String → Dispatcher Q C → Dispatcher Q C
  resume_poll client_id topic d = elim (lane_of client_id topic d) [
    | none ↦ await (ending client_id topic) d
    | some (s, l) ↦
        let (answer, h, l') = poll_resume d.heap l in
        await (polled client_id topic answer)
          (put_lane client_id topic l' s (record d { heap = h }))
  ]

  -- The rest of a round of `drainBestEffort`; what `sendEvent` throws is ignored.
  unfoldable pub resume_best_effort :
      String → String → Option (LaneEntry P) → Dispatcher Q C → Dispatcher Q C
  resume_best_effort client_id topic none d = await (ending client_id topic) d
  resume_best_effort client_id topic (some entry) d =
      let message = entry.published_message.outbound_message in
      let d' = report (emit client_id message false ∷ []) d in
      elim (lane_of client_id topic d') [
        | none ↦ await (ending client_id topic) d'
        | some (s, l) ↦ next_poll client_id topic s l d'
      ]

  -- The disk has answered `firstPendingSend`.
  unfoldable pub resume_find : String → String → Dispatcher Q C → Dispatcher Q C
  resume_find client_id topic d = elim (lane_of client_id topic d) [
    | none ↦ await (ending client_id topic) d
    | some (s, l) ↦
        let (h, l') = refill_from_disk d.heap l in
        await (found client_id topic (find_pending h l'.queue))
          (put_lane client_id topic l' s (record d { heap = h }))
  ]

  -- The `catch` block of `drainAtLeastOnce`.
  unfoldable pub take_back :
      String
      → String
      → LaneEntry P
      → ClientSessionState Q C
      → Lane Q
      → Dispatcher Q C
      → Lane Q × Dispatcher Q C
  take_back client_id topic entry s l d =
      let id = message_id entry in
      let (_, t) = Ack.acknowledge s.client_id s.namespace topic id d.tracker in
      let (_, h, l') = remove_by_message_id d.heap l id in
      (l', put_lane client_id topic l' s (record d { tracker = t; heap = h }))

  -- The rest of a round of `drainAtLeastOnce`, at the time `now`; `throws` says whether `sendEvent`
  -- throws.
  unfoldable pub resume_at_least_once :
      String → String → Option (LaneEntry P) → Bool → ℕ → Dispatcher Q C → Dispatcher Q C
  resume_at_least_once client_id topic none throws now d = await (ending client_id topic) d
  resume_at_least_once client_id topic (some entry) throws now d =
      let message = entry.published_message.outbound_message in
      elim (lane_of client_id topic d) [
        | none ↦ await (ending client_id topic) d
        | some (s, l) ↦
            let sent = report (emit client_id message true ∷ []) (record d {
              heap = mark_awaiting d.heap entry;
              tracker =
                  register s.client_id s.namespace topic entry l.policy.ack_timeout_ms
                    l.policy.max_retries now d.tracker;
            }) in
            let (l', undone) = take_back client_id topic entry s l sent in
            if throws then next_find client_id topic l' undone else next_find client_id topic l sent
      ]

  -- A task runs: what `throws` and `now` are is up to the platform.
  unfoldable pub run : Task P → Bool → ℕ → Dispatcher Q C → Dispatcher Q C
  run (queued client_id topic) throws now d = drain_topic client_id topic d
  run (polling client_id topic) throws now d = resume_poll client_id topic d
  run (polled client_id topic answer) throws now d = resume_best_effort client_id topic answer d
  run (finding client_id topic) throws now d = resume_find client_id topic d
  run (found client_id topic answer) throws now d =
      resume_at_least_once client_id topic answer throws now d
  run (ending client_id topic) throws now d = end_drain client_id topic d
