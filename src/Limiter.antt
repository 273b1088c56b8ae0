-- ===== src/Limiter.antt =====
-- src/internal/security/AuthRateLimiter.ts: addresses that fail to authenticate too often are shut
-- out for a while. The clock is an argument.
pub mod Lockout
use stream_fence_js.Prelude.{
  ℕ, ◌+◌, Bool, true, false, String, Option, none, some, List, ltb, leb, ◌==◌, if◌then◌else◌,
}
use stream_fence_js.Prelude.Dict

pub record FailureState : Type 0 where
  pub failures : ℕ
  pub cooldown_until : ℕ

pub record AuthRateLimiter : Type 0 where
  pub entries : List (String × FailureState)
  pub max_failures : ℕ
  pub cooldown_ms : ℕ

unfoldable pub is_limited : String → ℕ → AuthRateLimiter → Bool × AuthRateLimiter
is_limited remote_address now l = elim (Dict.get remote_address l.entries) [
  | none ↦ (false, l)
  | some state ↦
      if state.cooldown_until == 0
      then (false, l)
      else if leb state.cooldown_until now
      then (false, record l { entries = Dict.delete remote_address l.entries })
      else (true, l)
]

-- `current?.failures ?? 0`
abbrev pub failures_of : Option FailureState → ℕ
failures_of none = 0
failures_of (some state) = state.failures

-- The state that `recordFailure` writes.
abbrev pub failed : ℕ → ℕ → AuthRateLimiter → FailureState
failed failures now l =
    if ltb failures l.max_failures
    then record { failures = failures; cooldown_until = 0 }
    else record { failures = failures; cooldown_until = now + l.cooldown_ms }

unfoldable pub record_failure : String → ℕ → AuthRateLimiter → AuthRateLimiter
record_failure remote_address now l =
    let failures = failures_of (Dict.get remote_address l.entries) + 1 in
    record l { entries = Dict.set remote_address (failed failures now l) l.entries }

unfoldable pub record_success : String → AuthRateLimiter → AuthRateLimiter
record_success remote_address l = record l { entries = Dict.delete remote_address l.entries }
