-- ===== src/Namespace/Policies.antt =====
-- The topic policies of a specification that `build` of NamespaceSpec.ts has accepted.
use stream_fence_js.Prelude.{
  ◌<◌, ◌≤◌, ◌≡◌, ◌⊎◌, subst, sym, false, String, map, arith, All, All-map, ℤ, pos, negsuc, to_ℕ,
  lt_ℤ, is_nonpositive, ok, Bool-cases, inl, inr,
}
use stream_fence_js.Policy.{TopicPolicy, at_least_once, reject_new, spill_to_disk}
use stream_fence_js.Namespace.{
  Fields, NamespaceSpec, normalized, build, topic_policy, topic_policies_from_namespace_spec,
}
use stream_fence_js.Namespace.Validation.{IsPositive, IsValid, build-IsValid}

-- What the lanes and the ack tracker rely on in a policy.
pub record IsUsable (p : TopicPolicy) : Type 0 where
  pub messages : 0 < p.max_queued_messages_per_client
  pub bytes : 0 < p.max_queued_bytes_per_client
  pub ack_timeout : 0 < p.ack_timeout_ms
  pub in_flight : 0 < p.max_in_flight
  pub reliable :
      p.delivery_mode ≡ at_least_once
      → ((p.overflow_action ≡ reject_new) ⊎ (p.overflow_action ≡ spill_to_disk))
        × (p.coalesce ≡ false)
        × (0 < p.max_retries)
        × (p.max_in_flight ≤ p.max_queued_messages_per_client)

positive : (z : ℤ) → IsPositive z → 0 < to_ℕ z
positive (pos n) h = h
positive (negsuc n) h = absurd h

not_less : (y z : ℤ) → lt_ℤ y z ≡ false → IsPositive y → to_ℕ z ≤ to_ℕ y
not_less (pos a) (pos b) e h = ground arith
not_less y z e h = ground arith

at_least_one : (z : ℤ) → is_nonpositive z ≡ false → 0 < to_ℕ z
at_least_one (pos n) e = ground arith
at_least_one (negsuc n) e = ground arith

pub normalized-in_flight : (f : Fields) → 0 < to_ℕ (normalized f).max_in_flight
unfolding normalized
normalized-in_flight f = elim (Bool-cases (is_nonpositive f.max_in_flight)) [
  | inl low ↦ rw low (ground arith)
  | inr set ↦ rw set (at_least_one f.max_in_flight set)
]

topic_policy-IsUsable :
    (f : NamespaceSpec) (topic : String)
    → 0 < to_ℕ f.max_in_flight
    → IsValid f
    → IsUsable (topic_policy f topic)
unfolding topic_policy
topic_policy-IsUsable f topic flight v = record {
  messages = positive f.max_queued_messages_per_client v.messages;
  bytes = positive f.max_queued_bytes_per_client v.bytes;
  ack_timeout = positive f.ack_timeout_ms v.ack_timeout;
  in_flight = flight;
  reliable = λ mode.
      let r = v.reliable mode in
      (
        r.action,
        r.no_coalescing,
        positive f.max_retries r.retries,
        not_less f.max_queued_messages_per_client f.max_in_flight r.in_flight v.messages,
      );
}

-- Every policy of a specification that `build` returns has room for a message and a byte, a positive
-- timeout and in-flight budget; and if its mode is AT_LEAST_ONCE, it refuses or spills on overflow,
-- does not coalesce, has a retry, and can have its whole in-flight budget in the queue.
build-IsUsable :
    (f spec : Fields) → build f ≡ ok spec → All IsUsable (topic_policies_from_namespace_spec spec)
unfolding topic_policies_from_namespace_spec
build-IsUsable f spec e =
    let (same, v) = (build-IsValid f spec).0 e in
    subst (λ (s : Fields). All IsUsable (map (topic_policy s) s.topics)) (sym same)
      (All-map IsUsable (topic_policy (normalized f)) (normalized f).topics
        λ topic. topic_policy-IsUsable (normalized f) topic (normalized-in_flight f) v)
