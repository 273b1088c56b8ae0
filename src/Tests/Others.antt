-- ===== src/Tests/Others.antt =====
-- The theorems on AuthRateLimiter.ts, SpilledEntry.ts and TopicRegistry.ts at concrete inputs.
use stream_fence_js.Prelude.{
  String, ◌≢◌, eq_iff, ℕ, ◌+◌, ◌≡◌, refl, some, [], ◌∷◌, ◌&&◌, ltb, leb, ok, arith,
}
use stream_fence_js.Prelude.Dict
use stream_fence_js.Message.{LaneEntry, Heap}
use stream_fence_js.Limiter.{FailureState, AuthRateLimiter, is_limited}
use stream_fence_js.Limiter.Lockout.{count, fail_all, fail_all-is_limited}
use stream_fence_js.Spill.Entry.{serialize, deserialize, Restores, deserialize-serialize}
use stream_fence_js.Tests.Data.{two, idle}

abbrev limiter : AuthRateLimiter
limiter = record { entries = []; max_failures = 3; cooldown_ms = 100 }

-- Three failures, the last at 30: shut out at 129, and not at 130.
fail_all-is_limited_example :
    (is_limited "10.0.0.1" 129 (fail_all "10.0.0.1" (10 ∷ 20 ∷ 30 ∷ []) limiter)).0
    ≡ (leb 3 (count "10.0.0.1" limiter + 3) && ltb 129 130)
fail_all-is_limited_example = fail_all-is_limited "10.0.0.1" (10 ∷ 20 ∷ []) 30 129 limiter

different : ◌≢◌ {A = String} "10.0.0.1" "10.0.0.2"
different e = ground (arith, (eq_iff "10.0.0.1" "10.0.0.2").1 e)

abbrev locked : FailureState
locked = record { failures = 3; cooldown_until = 130 }

abbrev locking : AuthRateLimiter
locking = record limiter { entries = ("10.0.0.1", locked) ∷ [] }

locked_found : Dict.get "10.0.0.1" locking.entries ≡ some locked
unfolding Dict.get
locked_found = refl

deserialize-serialize_example :
    (e' : LaneEntry ℕ) × (h'' : Heap) × (deserialize (serialize idle two) idle ≡ ok (e', h''))
    × Restores idle idle two e' h''
deserialize-serialize_example = deserialize-serialize idle idle two (omega arith)
