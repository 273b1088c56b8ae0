-- ===== src/Topics.antt =====
-- src/internal/delivery/TopicRegistry.ts: the policies by namespace and topic.
pub mod Lookup
use Prim.Native.String.{◌++◌ as str_append}
use stream_fence_js.Prelude.{Bool, String, Option, List, [], ◌∷◌}
use stream_fence_js.Prelude.Dict
use stream_fence_js.Policy.{TopicPolicy}

-- `${namespace}::${topic}`, also the key of ClientSessionRegistry.ts
unfoldable pub topic_key : String → String → String
topic_key namespace topic = str_append namespace (str_append "::" topic)

unfoldable pub register : TopicPolicy → List (String × TopicPolicy) → List (String × TopicPolicy)
unfolding topic_key
register policy policies = Dict.set (topic_key policy.namespace policy.topic) policy policies

unfoldable pub register_all :
    List TopicPolicy → List (String × TopicPolicy) → List (String × TopicPolicy)
unfolding register
register_all [] policies = policies
register_all (policy ∷ rest) policies = register_all rest (register policy policies)

unfoldable pub find : String → String → List (String × TopicPolicy) → Option TopicPolicy
unfolding topic_key
find namespace topic policies = Dict.get (topic_key namespace topic) policies

unfoldable pub has : String → String → List (String × TopicPolicy) → Bool
unfolding topic_key
has namespace topic policies = Dict.has (topic_key namespace topic) policies
