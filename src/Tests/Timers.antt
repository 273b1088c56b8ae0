-- ===== src/Tests/Timers.antt =====
-- The theorem on RetryService.ts at a concrete dispatcher.
use stream_fence_js.Prelude.{ℕ, ◌≡◌}
use stream_fence_js.Dispatcher.{Dispatcher}
use stream_fence_js.Dispatcher.Retries.{process_retries}
use stream_fence_js.RetryService.{tick, process_retries-tick}
use stream_fence_js.Tests.Data.{disk}
use stream_fence_js.Tests.Acks.{sent_two, sent_two-IsTracking}
use stream_fence_js.Tests.Dispatchers.{listening}

-- Two messages are pending, and both are due at 120.
abbrev waiting : Dispatcher disk ℕ
waiting = record listening { tracker = sent_two }

process_retries-tick_example :
    let d = process_retries 120 (tick 120 waiting) in
    (d ≡ tick 120 waiting)
    × (d.tasks ≡ waiting.tasks)
    × (d.registry ≡ waiting.registry)
    × (d.log ≡ waiting.log)
process_retries-tick_example = process_retries-tick 120 waiting sent_two-IsTracking
