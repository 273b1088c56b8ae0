-- ===== src/Dispatcher/Lanes/Retries.antt =====
-- `acknowledge` and `processRetries` of TopicDispatcher.ts keep what lanes keep.
use stream_fence_js.Prelude.{
  ◌≡◌, refl, ◌&&◌, ℕ, String, some, List, [], ◌∷◌, Option-cases, Bool-cases, inl, inr,
}
use stream_fence_js.Message.{message_id, retry_count}
use stream_fence_js.Events.{record_retry_exhausted, retry_exhausted}
use stream_fence_js.Spill.{SpillQueue}
use stream_fence_js.Lane.{Lane, has_pending_send, find_by_message_id}
use stream_fence_js.Ack.{RetryDecision, RetryAction, exhausted, collect_expired}
use stream_fence_js.Ack
use stream_fence_js.Sessions.{ClientSessionState}
use stream_fence_js.Dispatcher.{Dispatcher, metric, event, report}
use stream_fence_js.Dispatcher.Retries.{
  is_found, may_drain, lane_at, remove_message, acknowledge, process_retry, process_exhausted,
  process_decision, process_decisions, process_retries,
}
use stream_fence_js.Dispatcher.Order.Retries.{lane_at-session_of, lane_at-get}
use stream_fence_js.Dispatcher.Lanes.{
  IsLaneInvariant, Held, AllHeld, same-AllHeld, put_lane-AllHeld, schedule_drain-AllHeld,
}

module _ {P : Type 0} {Q : SpillQueue P} {C : Type 0} {Keeps : Lane Q → Type 0}
    (law : IsLaneInvariant Keeps) where
  lane_at-Held :
      (c namespace topic : String) (s : ClientSessionState Q C) (l : Lane Q) (d : Dispatcher Q C)
      → lane_at c namespace topic d ≡ some (s, l)
      → AllHeld Keeps d
      → Held Keeps s × Keeps l
  lane_at-Held c namespace topic s l d here v =
      let held = v c s (lane_at-session_of c namespace topic s l d here) in
      (held, held topic l (lane_at-get c namespace topic s l d here))

  remove_message-AllHeld :
      (c topic id : String) (s : ClientSessionState Q C) (l : Lane Q) (d : Dispatcher Q C)
      → Held Keeps s
      → Keeps l
      → AllHeld Keeps d
      → AllHeld Keeps (remove_message c topic id s l d).2
  unfolding remove_message
  remove_message-AllHeld c topic id s l d held k v =
      put_lane-AllHeld c topic _ s d _ refl refl held (law.removed d.heap l id k) v

  pub acknowledge-AllHeld :
      (c namespace topic id : String) (d : Dispatcher Q C)
      → AllHeld Keeps d
      → AllHeld Keeps (acknowledge c namespace topic id d)
  unfolding acknowledge
  acknowledge-AllHeld c namespace topic id d v =
      let d₁ : Dispatcher Q C = record d {
        tracker = (Ack.acknowledge c namespace topic id d.tracker).1;
      } in
      let v₁ : AllHeld Keeps d₁ = same-AllHeld d d₁ refl refl v in
      elim (Option-cases (lane_at c namespace topic d₁)) [
        | inl missing ↦ rw (missing, acknowledge) v₁
        | inr ((s, l), here) ↦
            let r = remove_message c topic id s l d₁ in
            let (held, k) = lane_at-Held c namespace topic s l d₁ here v₁ in
            let v₂ = remove_message-AllHeld c topic id s l d₁ held k v₁ in
            elim (Bool-cases (r.0 && has_pending_send r.2.heap r.1)) [
              | inl more ↦ rw (here, acknowledge) (rw more (schedule_drain-AllHeld c topic r.2 v₂))
              | inr done ↦ rw (here, acknowledge) (rw done v₂)
            ]
      ]

  process_retry-AllHeld :
      (r : RetryDecision P) (d : Dispatcher Q C)
      → AllHeld Keeps d
      → AllHeld Keeps (process_retry r d)
  unfolding process_retry
  process_retry-AllHeld r d v = elim (Option-cases (lane_at r.client_id r.namespace r.topic d)) [
    | inl missing ↦ rw (missing, process_retry) (same-AllHeld d _ refl refl v)
    | inr ((s, l), here) ↦
        elim (Bool-cases (is_found (find_by_message_id l (message_id r.pending_message)))) [
          | inl held ↦
              rw (here, process_retry)
                (rw held
                  (schedule_drain-AllHeld r.client_id r.topic _ (same-AllHeld d _ refl refl v)))
          | inr gone ↦ rw (here, process_retry) (rw gone (same-AllHeld d _ refl refl v))
        ]
  ]

  process_exhausted-AllHeld :
      (r : RetryDecision P) (d : Dispatcher Q C)
      → AllHeld Keeps d
      → AllHeld Keeps (process_exhausted r d)
  unfolding process_exhausted
  process_exhausted-AllHeld r d v =
      elim (Option-cases (lane_at r.client_id r.namespace r.topic d)) [
        | inl missing ↦ rw (missing, process_exhausted) (same-AllHeld d _ refl refl v)
        | inr ((s, l), here) ↦
            let told =
              report
                (metric (record_retry_exhausted r.namespace r.topic)
                  ∷ event (
                      retry_exhausted r.namespace r.client_id r.topic (message_id r.pending_message)
                        (retry_count d.heap r.pending_message))
                  ∷ [])
                d in
            let q = remove_message r.client_id r.topic (message_id r.pending_message) s l told in
            let (held, k) = lane_at-Held r.client_id r.namespace r.topic s l d here v in
            let v' =
              remove_message-AllHeld r.client_id r.topic (message_id r.pending_message) s l told
                held k (same-AllHeld d told refl refl v) in
            elim (Bool-cases (may_drain q.2.heap q.1)) [
              | inl more ↦
                  rw (here, process_exhausted)
                    (rw more (schedule_drain-AllHeld r.client_id r.topic q.2 v'))
              | inr done ↦ rw (here, process_exhausted) (rw done v')
            ]
      ]

  process_decision-AllHeld :
      (a : RetryAction) (r : RetryDecision P) (d : Dispatcher Q C)
      → AllHeld Keeps d
      → AllHeld Keeps (process_decision a r d)
  unfolding process_decision
  process_decision-AllHeld RetryAction.retry r d v = process_retry-AllHeld r d v
  process_decision-AllHeld exhausted r d v = process_exhausted-AllHeld r d v

  process_decisions-AllHeld :
      (decisions : List (RetryDecision P)) (d : Dispatcher Q C)
      → AllHeld Keeps d
      → AllHeld Keeps (process_decisions decisions d)
  unfolding process_decisions
  process_decisions-AllHeld [] d v = v
  process_decisions-AllHeld (r ∷ decisions) d v =
      process_decisions-AllHeld decisions (process_decision r.action r d)
        (process_decision-AllHeld r.action r d v)

  pub process_retries-AllHeld :
      (now : ℕ) (d : Dispatcher Q C) → AllHeld Keeps d → AllHeld Keeps (process_retries now d)
  unfolding process_retries
  process_retries-AllHeld now d v =
      process_decisions-AllHeld (collect_expired now d.heap d.tracker).0 _
        (same-AllHeld d _ refl refl v)
