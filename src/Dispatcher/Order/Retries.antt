-- ===== src/Dispatcher/Order/Retries.antt =====
-- `acknowledge` and `processRetries` of TopicDispatcher.ts keep the order of drains.
use stream_fence_js.Prelude.{
  ◌≡◌, refl, ap, ◌∙◌, ◌&&◌, ℕ, String, none, some, List, [], ◌∷◌, str_eq, arith, Option-cases,
  Bool-cases, inl, inr,
}
use stream_fence_js.Prelude.Dict
use stream_fence_js.Message.{message_id, retry_count}
use stream_fence_js.Events.{record_retry_exhausted, retry_exhausted}
use stream_fence_js.Spill.{SpillQueue}
use stream_fence_js.Lane.{Lane, has_pending_send, find_by_message_id}
use stream_fence_js.Ack.{RetryDecision, RetryAction, exhausted, collect_expired}
use stream_fence_js.Ack
use stream_fence_js.Sessions.{ClientSessionState}
use stream_fence_js.Sessions.Registry.{get_session}
use stream_fence_js.Dispatcher.{Dispatcher, metric, event, report, session_of}
use stream_fence_js.Dispatcher.Retries.{
  is_found, may_drain, lane_at, remove_message, acknowledge, process_retry, process_exhausted,
  process_decision, process_decisions, process_retries,
}
use stream_fence_js.Dispatcher.Sessions.{view, session_of-same}
use stream_fence_js.Dispatcher.Order.{
  IsOrderly, untouched-IsOrderly, put_lane-IsOrderly, schedule_drain-IsOrderly,
}

module _ {P : Type 0} {Q : SpillQueue P} {C : Type 0} where
  pub lane_at-session_of :
      (c namespace topic : String) (s : ClientSessionState Q C) (l : Lane Q) (d : Dispatcher Q C)
      → lane_at c namespace topic d ≡ some (s, l)
      → session_of c d ≡ some s
  unfolding lane_at session_of get_session
  lane_at-session_of c namespace topic s l d here =
      elim (Option-cases (Dict.get c d.registry.sessions)) [
        | inl missing ↦ absurd (ground arith)
        | inr (t, there) ↦ elim (Bool-cases (str_eq t.namespace namespace)) [
          | inr other ↦ absurd (ground arith)
          | inl own ↦ elim (Option-cases (Dict.get topic t.lanes)) [
            | inl missing ↦ absurd (ground arith)
            | inr (l', held) ↦ ground arith
          ]
        ]
      ]

  pub lane_at-get :
      (c namespace topic : String) (s : ClientSessionState Q C) (l : Lane Q) (d : Dispatcher Q C)
      → lane_at c namespace topic d ≡ some (s, l)
      → Dict.get topic s.lanes ≡ some l
  unfolding lane_at get_session
  lane_at-get c namespace topic s l d here = elim (Option-cases (Dict.get c d.registry.sessions)) [
    | inl missing ↦ absurd (ground arith)
    | inr (t, there) ↦ elim (Bool-cases (str_eq t.namespace namespace)) [
      | inr other ↦ absurd (ground arith)
      | inl own ↦ elim (Option-cases (Dict.get topic t.lanes)) [
        | inl missing ↦ absurd (ground arith)
        | inr (l', held) ↦ ground arith
      ]
    ]
  ]

  remove_message-IsOrderly :
      (c topic id : String) (s : ClientSessionState Q C) (l : Lane Q) (d : Dispatcher Q C)
      → view (session_of c d) ≡ view (some s)
      → IsOrderly none d
      → IsOrderly none (remove_message c topic id s l d).2
  unfolding remove_message
  remove_message-IsOrderly c topic id s l d here v =
      put_lane-IsOrderly none c topic _ s d _ refl refl refl here v

  pub acknowledge-IsOrderly :
      (c namespace topic id : String) (d : Dispatcher Q C)
      → IsOrderly none d
      → IsOrderly none (acknowledge c namespace topic id d)
  unfolding acknowledge
  acknowledge-IsOrderly c namespace topic id d v =
      let d₁ : Dispatcher Q C = record d {
        tracker = (Ack.acknowledge c namespace topic id d.tracker).1;
      } in
      let v₁ : IsOrderly none d₁ = untouched-IsOrderly none d d₁ refl refl refl v in
      elim (Option-cases (lane_at c namespace topic d₁)) [
        | inl missing ↦ rw (missing, acknowledge) v₁
        | inr ((s, l), here) ↦
            let r = remove_message c topic id s l d₁ in
            let v₂ =
              remove_message-IsOrderly c topic id s l d₁
                (ap view (lane_at-session_of c namespace topic s l d₁ here)) v₁ in
            elim (Bool-cases (r.0 && has_pending_send r.2.heap r.1)) [
              | inl more ↦
                  rw (here, acknowledge) (rw more (schedule_drain-IsOrderly c topic r.2 v₂))
              | inr done ↦ rw (here, acknowledge) (rw done v₂)
            ]
      ]

  process_retry-IsOrderly :
      (r : RetryDecision P) (d : Dispatcher Q C)
      → IsOrderly none d
      → IsOrderly none (process_retry r d)
  unfolding process_retry
  process_retry-IsOrderly r d v = elim (Option-cases (lane_at r.client_id r.namespace r.topic d)) [
    | inl missing ↦ rw (missing, process_retry) (untouched-IsOrderly none d _ refl refl refl v)
    | inr ((s, l), here) ↦
        elim (Bool-cases (is_found (find_by_message_id l (message_id r.pending_message)))) [
          | inl held ↦
              rw (here, process_retry)
                (rw held (
                  schedule_drain-IsOrderly r.client_id r.topic _
                    (untouched-IsOrderly none d _ refl refl refl v)))
          | inr gone ↦
              rw (here, process_retry) (rw gone (untouched-IsOrderly none d _ refl refl refl v))
        ]
  ]

  process_exhausted-IsOrderly :
      (r : RetryDecision P) (d : Dispatcher Q C)
      → IsOrderly none d
      → IsOrderly none (process_exhausted r d)
  unfolding process_exhausted
  process_exhausted-IsOrderly r d v =
      elim (Option-cases (lane_at r.client_id r.namespace r.topic d)) [
        | inl missing ↦
            rw (missing, process_exhausted) (untouched-IsOrderly none d _ refl refl refl v)
        | inr ((s, l), here) ↦
            let told = told_of r d in
            let q = remove_message r.client_id r.topic (message_id r.pending_message) s l told in
            let v' =
              remove_message-IsOrderly r.client_id r.topic (message_id r.pending_message) s l told
                (ap view (
                  session_of-same r.client_id d told refl refl
                  ∙ lane_at-session_of r.client_id r.namespace r.topic s l d here))
                (untouched-IsOrderly none d told refl refl refl v) in
            elim (Bool-cases (may_drain q.2.heap q.1)) [
              | inl more ↦
                  rw (here, process_exhausted)
                    (rw more (schedule_drain-IsOrderly r.client_id r.topic q.2 v'))
              | inr done ↦ rw (here, process_exhausted) (rw done v')
            ]
      ]
    where
      told_of : RetryDecision P → Dispatcher Q C → Dispatcher Q C
      told_of r d =
          report
            (metric (record_retry_exhausted r.namespace r.topic)
              ∷ event (
                  retry_exhausted r.namespace r.client_id r.topic (message_id r.pending_message)
                    (retry_count d.heap r.pending_message))
              ∷ [])
            d

  process_decision-IsOrderly :
      (a : RetryAction) (r : RetryDecision P) (d : Dispatcher Q C)
      → IsOrderly none d
      → IsOrderly none (process_decision a r d)
  unfolding process_decision
  process_decision-IsOrderly RetryAction.retry r d v = process_retry-IsOrderly r d v
  process_decision-IsOrderly exhausted r d v = process_exhausted-IsOrderly r d v

  process_decisions-IsOrderly :
      (decisions : List (RetryDecision P)) (d : Dispatcher Q C)
      → IsOrderly none d
      → IsOrderly none (process_decisions decisions d)
  unfolding process_decisions
  process_decisions-IsOrderly [] d v = v
  process_decisions-IsOrderly (r ∷ decisions) d v =
      process_decisions-IsOrderly decisions (process_decision r.action r d)
        (process_decision-IsOrderly r.action r d v)

  pub process_retries-IsOrderly :
      (now : ℕ) (d : Dispatcher Q C) → IsOrderly none d → IsOrderly none (process_retries now d)
  unfolding process_retries
  process_retries-IsOrderly now d v =
      process_decisions-IsOrderly (collect_expired now d.heap d.tracker).0 _
        (untouched-IsOrderly none d _ refl refl refl v)
