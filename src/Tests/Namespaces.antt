-- ===== src/Tests/Namespaces.antt =====
-- The theorems on NamespaceSpec.ts at concrete settings.
use stream_fence_js.Prelude.{
  ◌≡◌, ◌↔◌, refl, [], ◌∷◌, pos, negsuc, ok, throws, is_blank, starts_with_slash,
}
use stream_fence_js.Policy.{at_least_once, spill_to_disk}
use stream_fence_js.Namespace.{
  Fields, builder, build, validate_basic, validate_reliable_mode, validate_at_least_once,
  check_topics, has_topic, normalized,
}
use stream_fence_js.Namespace.Builder
use stream_fence_js.Namespace.Validation.{IsValid, build-IsValid}

-- An AT_LEAST_ONCE namespace whose in-flight budget is not set.
abbrev feed : Fields
feed = Builder.max_in_flight (negsuc 0) (
    Builder.max_retries (pos 3) (
      Builder.overflow_action spill_to_disk (
        Builder.delivery_mode at_least_once
          (Builder.topic "orders" (Builder.topic "prices" (builder "/feed"))))))

feed_built : build feed ≡ ok (normalized feed)
unfolding Builder.max_in_flight Builder.max_retries Builder.overflow_action Builder.delivery_mode
    Builder.topic builder build validate_basic validate_reliable_mode validate_at_least_once
    check_topics has_topic normalized is_blank starts_with_slash
feed_built = refl

twice :
    build (record feed { topics = "a" ∷ "a" ∷ [] }) ≡ throws "duplicate topic in namespace /feed: a"
unfolding Builder.max_in_flight Builder.max_retries Builder.overflow_action Builder.delivery_mode
    Builder.topic builder build validate_basic validate_reliable_mode validate_at_least_once
    check_topics has_topic normalized is_blank starts_with_slash
twice = refl

build-IsValid_example :
    (build feed ≡ ok (normalized feed))
    ↔ ((normalized feed ≡ normalized feed) × IsValid (normalized feed))
build-IsValid_example = build-IsValid feed (normalized feed)
