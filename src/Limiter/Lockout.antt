-- ===== src/Limiter/Lockout.antt =====
-- When AuthRateLimiter.ts shuts an address out.
use stream_fence_js.Prelude.{
  ℕ, ◌+◌, ◌≤◌, ap, sym, ◌∙◌, not, Option, ◌==◌, ◌≡◌, ◌≢◌, Bool, false, String, none, some, List, [],
  ◌∷◌, ◌++◌, ◌&&◌, length, ltb, leb, arith, eq_iff, eq_refl,
}
use stream_fence_js.Prelude.Dict
use stream_fence_js.Prelude.Dict.{get-set, get-delete}
use stream_fence_js.Limiter.{
  FailureState, AuthRateLimiter, is_limited, failures_of, failed, record_failure, record_success,
}

-- The failures that are counted for an address.
abbrev pub count : String → AuthRateLimiter → ℕ
count a l = failures_of (Dict.get a l.entries)

-- Failures of one address at a sequence of times.
abbrev pub fail_all : String → List ℕ → AuthRateLimiter → AuthRateLimiter
fail_all a [] l = l
fail_all a (t ∷ ts) l = fail_all a ts (record_failure a t l)

record_failure-get :
    (a : String) (t : ℕ) (l : AuthRateLimiter)
    → Dict.get a (record_failure a t l).entries ≡ some (failed (count a l + 1) t l)
unfolding record_failure
record_failure-get a t l =
    ground (arith, get-set a a (failed (count a l + 1) t l) l.entries, eq_refl a)

record_failure-count :
    (a : String) (t : ℕ) (l : AuthRateLimiter) → count a (record_failure a t l) ≡ count a l + 1
record_failure-count a t l = rw (record_failure-get a t l) (ground arith)

-- What `isLimited` reads of an address's state.
shut_out : ℕ → Option FailureState → Bool
shut_out now none = false
shut_out now (some s) = not (s.cooldown_until == 0) && ltb now s.cooldown_until

is_limited-shut_out :
    (a : String) (now : ℕ) (l : AuthRateLimiter)
    → (is_limited a now l).0 ≡ shut_out now (Dict.get a l.entries)
unfolding is_limited shut_out
is_limited-shut_out a now l = ground arith

record_failure-limited :
    (a : String) (t now : ℕ) (l : AuthRateLimiter)
    → (is_limited a now (record_failure a t l)).0
      ≡ (leb l.max_failures (count a l + 1) && ltb now (t + l.cooldown_ms))
unfolding shut_out
record_failure-limited a t now l =
    is_limited-shut_out a now (record_failure a t l) ∙ rw (record_failure-get a t l) (ground arith)

-- After any failures of an address, the last of them at the time `t`, the address is shut out at
-- the time `now` exactly if the failures counted so far and these reach `maxFailures`, and `now` is
-- before the end of the cooldown that began at `t`.
pub fail_all-is_limited :
    (a : String) (ts : List ℕ) (t now : ℕ) (l : AuthRateLimiter)
    → (is_limited a now (fail_all a (ts ++ t ∷ []) l)).0
      ≡ (leb l.max_failures (count a l + length (ts ++ t ∷ [])) && ltb now (t + l.cooldown_ms))
unfolding record_failure
fail_all-is_limited a [] t now l = record_failure-limited a t now l
fail_all-is_limited a (u ∷ ts) t now l =
    let rest = fail_all-is_limited a ts t now (record_failure a u l) in
    ground (arith, rest, record_failure-count a u l)

-- A failure or a success of one address changes neither the count nor the answer for another.
is_limited-elsewhere :
    (a b : String) (t now : ℕ) (l : AuthRateLimiter)
    → a ≢ b
    → ((is_limited b now (record_failure a t l)).0 ≡ (is_limited b now l).0)
      × ((is_limited b now (record_success a l)).0 ≡ (is_limited b now l).0)
      × (count b (record_failure a t l) ≡ count b l)
      × (count b (record_success a l) ≡ count b l)
unfolding record_failure record_success
is_limited-elsewhere a b t now l ne =
    let kept : Dict.get b (record_failure a t l).entries ≡ Dict.get b l.entries =
      ground (arith, get-set a b (failed (count a l + 1) t l) l.entries, eq_iff a b) in
    let left : Dict.get b (record_success a l).entries ≡ Dict.get b l.entries =
      ground (arith, get-delete a b l.entries, eq_iff a b) in
    (same _ kept, same _ left, ap failures_of kept, ap failures_of left)
  where
    same :
        (l' : AuthRateLimiter)
        → Dict.get b l'.entries ≡ Dict.get b l.entries
        → (is_limited b now l').0 ≡ (is_limited b now l).0
    same l' e =
        is_limited-shut_out b now l' ∙ ap (shut_out now) e ∙ sym (is_limited-shut_out b now l)

-- An address whose cooldown has run out is not shut out, and `isLimited` forgets it as a success
-- does: it starts again with no failure counted.
is_limited-expired :
    (a : String) (now : ℕ) (l : AuthRateLimiter) (s : FailureState)
    → Dict.get a l.entries ≡ some s
    → s.cooldown_until ≢ 0
    → s.cooldown_until ≤ now
    → ((is_limited a now l).0 ≡ false)
      × (count a (is_limited a now l).1 ≡ 0)
      × ((is_limited a now l).1 ≡ record_success a l)
unfolding is_limited record_success
is_limited-expired a now l s e set out = ground (arith, get-delete a a l.entries, eq_refl a)
