-- ===== src/Namespace/Validation.antt =====
-- `build` of NamespaceSpec.ts accepts exactly the valid settings.
use stream_fence_js.Prelude.{
  ◌<◌, ◌≡◌, ◌≢◌, ◌↔◌, ◌⊎◌, inl, inr, refl, ap, sym, Bool, true, false, String, List, [], ◌∷◌, arith,
  is_blank, starts_with_slash, ℤ, pos, negsuc, is_nonpositive, is_negative, lt_ℤ, Result, ok,
  eq_iff, ◌>>◌,
}
use stream_fence_js.Policy.{
  DeliveryMode, best_effort, at_least_once, OverflowAction, reject_new, spill_to_disk,
}
use stream_fence_js.Namespace.{
  Fields, has_topic, check_topics, validate_basic, validate_at_least_once, validate_reliable_mode,
  normalized, build, refuse, is_empty, is_reliable_action,
}

abbrev pub IsPositive : ℤ → Type 0
IsPositive (pos n) = 0 < n
IsPositive (negsuc n) = ⊥

abbrev pub IsNatural : ℤ → Type 0
IsNatural (pos n) = Unit {0}
IsNatural (negsuc n) = ⊥

abbrev pub Lacks : List String → String → Type 0
Lacks [] topic = Unit {0}
Lacks (t ∷ ts) topic = (t ≢ topic) × Lacks ts topic

-- No topic is blank, none is in `seen`, and none occurs twice.
abbrev pub AreTopics : List String → List String → Type 0
AreTopics seen [] = Unit {0}
AreTopics seen (t ∷ ts) = (is_blank t ≡ false) × Lacks seen t × AreTopics (t ∷ seen) ts

-- The additional rules for AT_LEAST_ONCE namespaces.
pub record IsReliable (f : Fields) : Type 0 where
  pub action : (f.overflow_action ≡ reject_new) ⊎ (f.overflow_action ≡ spill_to_disk)
  pub no_coalescing : f.coalesce ≡ false
  pub retries : IsPositive f.max_retries
  pub in_flight : lt_ℤ f.max_queued_messages_per_client f.max_in_flight ≡ false

pub record IsValid (f : Fields) : Type 0 where
  pub path : (is_blank f.path ≡ false) × (starts_with_slash f.path ≡ true)
  pub some_topic : f.topics ≢ []
  pub topics : AreTopics [] f.topics
  pub messages : IsPositive f.max_queued_messages_per_client
  pub bytes : IsPositive f.max_queued_bytes_per_client
  pub ack_timeout : IsPositive f.ack_timeout_ms
  pub retries : IsNatural f.max_retries
  pub reliable : f.delivery_mode ≡ at_least_once → IsReliable f

pub has_topic-Lacks : (seen : List String) (t : String) → (has_topic seen t ≡ false) ↔ Lacks seen t
unfolding has_topic
has_topic-Lacks [] t = (λ e. tt, λ v. refl)
has_topic-Lacks (s ∷ seen) t =
    let rest = has_topic-Lacks seen t in
    (
      λ e. (λ f. ground (arith, eq_iff s t), rest.0 (ground arith)),
      λ v. ground (arith, eq_iff s t, rest.1 v.1),
    )

DeliveryMode-cases : (m : DeliveryMode) → (m ≡ best_effort) ⊎ (m ≡ at_least_once)
DeliveryMode-cases best_effort = inl refl
DeliveryMode-cases at_least_once = inr refl

-- A check that is passed, and what comes after it.
pub refuse_iff :
    {A : Type 0} (b : Bool) (e : String) (k : Result A) (r : A)
    → ((refuse b e >> k) ≡ ok r) ↔ ((b ≡ false) × (k ≡ ok r))
refuse_iff true e k r = (λ f. absurd (ground arith), λ p. absurd (ground arith))
refuse_iff false e k r = (λ f. (refl, f), λ p. p.1)

check_topics-AreTopics :
    (path : String) (seen ts : List String)
    → (check_topics path seen ts ≡ ok tt) ↔ AreTopics seen ts
unfolding check_topics
check_topics-AreTopics path seen [] = (λ e. tt, λ v. refl)
check_topics-AreTopics path seen (t ∷ ts) =
    let rest = check_topics-AreTopics path (t ∷ seen) ts in
    let fresh = has_topic-Lacks seen t in
    (
      λ e.
          let (named, e₁) = (refuse_iff _ _ _ tt).0 e in
          let (new, e₂) = (refuse_iff _ _ _ tt).0 e₁ in (named, fresh.0 new, rest.0 e₂),
      λ v. (refuse_iff _ _ _ tt).1 (v.0, (refuse_iff _ _ _ tt).1 (fresh.1 v.1, rest.1 v.2)),
    )

nonpositive_iff : (z : ℤ) → (is_nonpositive z ≡ false) ↔ IsPositive z
nonpositive_iff (pos n) = ground arith
nonpositive_iff (negsuc n) = ground arith

negative_iff : (z : ℤ) → (is_negative z ≡ false) ↔ IsNatural z
negative_iff (pos n) = ground arith
negative_iff (negsuc n) = ground arith

empty_iff : (ts : List String) → (is_empty ts ≡ false) ↔ (ts ≢ [])
empty_iff [] = ground arith
empty_iff (t ∷ ts) = ground arith

action_iff :
    (a : OverflowAction) → (is_reliable_action a ≡ true) ↔ ((a ≡ reject_new) ⊎ (a ≡ spill_to_disk))
action_iff reject_new = ground arith
action_iff a = ground arith

-- `validateBasic` accepts exactly the settings that meet the rules for every namespace.
record IsBasic (f : Fields) : Type 0 where
  path : (is_blank f.path ≡ false) × (starts_with_slash f.path ≡ true)
  some_topic : f.topics ≢ []
  topics : AreTopics [] f.topics
  messages : IsPositive f.max_queued_messages_per_client
  bytes : IsPositive f.max_queued_bytes_per_client
  ack_timeout : IsPositive f.ack_timeout_ms
  retries : IsNatural f.max_retries

validate_basic_iff : (f : Fields) → (validate_basic f ≡ ok tt) ↔ IsBasic f
unfolding validate_basic
validate_basic_iff f = ground (
  arith,
  check_topics-AreTopics f.path [] f.topics,
  empty_iff f.topics,
  nonpositive_iff f.max_queued_messages_per_client,
  nonpositive_iff f.max_queued_bytes_per_client,
  nonpositive_iff f.ack_timeout_ms,
  negative_iff f.max_retries,
)

validate_at_least_once_iff : (f : Fields) → (validate_at_least_once f ≡ ok tt) ↔ IsReliable f
unfolding validate_at_least_once
validate_at_least_once_iff f =
    ground (arith, action_iff f.overflow_action, nonpositive_iff f.max_retries)

validate_reliable_mode_iff :
    (f : Fields)
    → (validate_reliable_mode f ≡ ok tt) ↔ (f.delivery_mode ≡ at_least_once → IsReliable f)
unfolding validate_reliable_mode
validate_reliable_mode_iff f =
    let strict = validate_at_least_once_iff f in
    (λ e mode. strict.0 (ground arith), λ h. mode_cases f h)
  where
    mode_cases :
        (f : Fields)
        → (f.delivery_mode ≡ at_least_once → IsReliable f)
        → validate_reliable_mode f ≡ ok tt
    mode_cases f h = elim (DeliveryMode-cases f.delivery_mode) [
      | inl free ↦ ground arith
      | inr strict ↦ ground (arith, (validate_at_least_once_iff f).1 (h strict))
    ]

-- The rules for every namespace and those for AT_LEAST_ONCE namespaces.
IsValid-iff :
    (f : Fields) → IsValid f ↔ (IsBasic f × (f.delivery_mode ≡ at_least_once → IsReliable f))
IsValid-iff f = (
  λ v. (
    record {
      path = v.path;
      some_topic = v.some_topic;
      topics = v.topics;
      messages = v.messages;
      bytes = v.bytes;
      ack_timeout = v.ack_timeout;
      retries = v.retries;
    },
    v.reliable,
  ),
  λ b. record {
    path = b.0.path;
    some_topic = b.0.some_topic;
    topics = b.0.topics;
    messages = b.0.messages;
    bytes = b.0.bytes;
    ack_timeout = b.0.ack_timeout;
    retries = b.0.retries;
    reliable = b.1;
  },
)

-- `build` returns a specification exactly if the settings, with a `maxInFlight` of at least 1, meet
-- all the rules, and the specification then has those settings.
pub build-IsValid :
    (f spec : Fields) → (build f ≡ ok spec) ↔ ((spec ≡ normalized f) × IsValid (normalized f))
unfolding build
build-IsValid f spec =
    let n = normalized f in
    let basic = validate_basic_iff n in
    let reliable = validate_reliable_mode_iff n in
    let valid = IsValid-iff n in
    (
      λ e.
          let (e₁, e₂, e₃) = both (validate_basic n) (validate_reliable_mode n) n spec e in
          (e₃, valid.1 (basic.0 e₁, reliable.0 e₂)),
      λ p. let parts = valid.0 p.1 in rw (basic.1 parts.0, reliable.1 parts.1) (ap ok (sym p.0)),
    )
  where
    both :
        (b r : Result (Unit {0})) (n spec : Fields)
        → (b >> (r >> ok n)) ≡ ok spec
        → (b ≡ ok tt) × (r ≡ ok tt) × (spec ≡ n)
    both b r n spec e = ground arith
