-- ===== src/Lifecycle/Handlers.antt =====
-- The handlers of `onMessage` and the getters of src/StreamFenceServer.ts. `H` is the type of
-- handlers; nothing calls them.
use Prim.Native.String.{String, ◌++◌ as str_append}
use stream_fence_js.Prelude.{ℤ, ◌≡◌, Option, some, List, str_eq, if◌then◌else◌}
use stream_fence_js.Prelude.Dict
use stream_fence_js.Spill.{SpillQueue}
use stream_fence_js.Lifecycle.{StreamFenceServer}

abbrev pub handler_key : String → String → String
handler_key namespace topic = str_append namespace (str_append "::" topic)

module _ {H : Type 0} where
  unfoldable pub on_message : String → String → H → List (String × H) → List (String × H)
  on_message namespace topic handler handlers =
      Dict.set (handler_key namespace topic) handler handlers

  -- The handler stands under its key, and the others are kept.
  get-on_message :
      (namespace topic key : String) (handler : H) (handlers : List (String × H))
      → Dict.get key (on_message namespace topic handler handlers)
        ≡ (if str_eq (handler_key namespace topic) key then some handler else Dict.get key handlers)
  unfolding on_message
  get-on_message namespace topic key handler handlers =
      Dict.get-set (handler_key namespace topic) key handler handlers

module _ {P : Type 0} {Q : SpillQueue P} {C V L M : Type 0} where
  unfoldable pub metrics : StreamFenceServer Q C V L M → M
  metrics s = s.spec.metrics

  -- The port of the bootstrap, if there is one.
  unfoldable pub server_port : StreamFenceServer Q C V L M → Option ℤ
  server_port s = s.port
