-- ===== src/RetryService.antt =====
-- src/internal/delivery/RetryService.ts: a timer of its own over the ack tracker.
use stream_fence_js.Prelude.{ℕ, ◌≡◌, ap, Option, none, some, List}
use stream_fence_js.Message.{Heap}
use stream_fence_js.Spill.{SpillQueue}
use stream_fence_js.Ack.{AckTracker, RetryDecision, collect_expired}
use stream_fence_js.Ack.Invariant.{IsTracking}
use stream_fence_js.Ack.Collect.{collect_expired-again}
use stream_fence_js.Dispatcher.{Dispatcher}
use stream_fence_js.Dispatcher.Retries.{process_retries, process_decisions}

-- The interval that is installed, in milliseconds.
pub record RetryService : Type 0 where
  pub interval_handle : Option ℕ
  pub interval_ms : ℕ

unfoldable pub start_timer : RetryService → RetryService
start_timer r = elim r.interval_handle [
  | some handle ↦ r
  | none ↦ record r { interval_handle = some r.interval_ms }
]

unfoldable pub stop_timer : RetryService → RetryService
stop_timer r = elim r.interval_handle [
  | none ↦ r
  | some handle ↦ record r { interval_handle = none }
]

module _ {P : Type 0} where
  unfoldable pub scan : ℕ → Heap → AckTracker P → List (RetryDecision P) × Heap × AckTracker P
  unfolding collect_expired
  scan now h t = collect_expired now h t

module _ {P : Type 0} {Q : SpillQueue P} {C : Type 0} where
  -- The callback of the interval, which drops the decisions.
  unfoldable pub tick : ℕ → Dispatcher Q C → Dispatcher Q C
  tick now d = let (_, h, t) = scan now d.heap d.tracker in record d { heap = h; tracker = t }

  -- If the deadlines form a heap and every pending message has its handle in it: when the service's
  -- own timer has scanned the tracker, `processRetries` at the same time finds nothing that is due
  -- and changes nothing, and after both no drain is scheduled that was not before, the registered
  -- sessions and the queues of their lanes are as they were, and no retry and no failure is reported.
  pub process_retries-tick :
      (now : ℕ) (d : Dispatcher Q C)
      → IsTracking d.tracker
      → let d' = process_retries now (tick now d) in
        (d' ≡ tick now d) × (d'.tasks ≡ d.tasks) × (d'.registry ≡ d.registry) × (d'.log ≡ d.log)
  unfolding process_retries tick scan process_decisions
  process_retries-tick now d v =
      let idle : process_retries now (tick now d) ≡ tick now d =
        ap
          (λ (r : List (RetryDecision P) × Heap × AckTracker P).
            process_decisions r.0 (record d { heap = r.1; tracker = r.2 }))
          (collect_expired-again now d.heap d.tracker v) in
      (
        idle,
        ap (λ (x : Dispatcher Q C). x.tasks) idle,
        ap (λ (x : Dispatcher Q C). x.registry) idle,
        ap (λ (x : Dispatcher Q C). x.log) idle,
      )
