-- ===== src/Topics/Lookup.antt =====
-- What a lookup in TopicRegistry.ts finds.
use stream_fence_js.Prelude.{◌≡◌, refl, String, Option, some, List, [], ◌∷◌, str_eq, if◌then◌else◌}
use stream_fence_js.Prelude.Dict.{get-set}
use stream_fence_js.Policy.{TopicPolicy}
use stream_fence_js.Topics.{topic_key, register, register_all, find}

-- The last policy of a list whose key is `k`, or else `o`.
abbrev pub last_of : String → List TopicPolicy → Option TopicPolicy → Option TopicPolicy
last_of k [] o = o
last_of k (p ∷ ps) o = last_of k ps (if str_eq (topic_key p.namespace p.topic) k then some p else o)

-- After `registerAll` a lookup finds the last of the given policies with that namespace and topic (to
-- be exact, with their key), and if there is none the policy that was found before.
register_all-find :
    (namespace topic : String) (ps : List TopicPolicy) (m : List (String × TopicPolicy))
    → find namespace topic (register_all ps m)
      ≡ last_of (topic_key namespace topic) ps (find namespace topic m)
unfolding find register_all register
register_all-find namespace topic [] m = refl
register_all-find namespace topic (p ∷ ps) m =
    rw (register_all-find namespace topic ps (register p m), get-set) refl
