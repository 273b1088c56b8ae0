-- ===== src/Config.antt =====
-- src/internal/config/SpecMapper.ts and the raw configuration types beside it: a parsed
-- configuration file becomes the settings of a server. Reading the file is not modelled.
pub mod Mapped
pub mod Loader
use Prim.Native.String.{◌++◌ as str_append}
use stream_fence_js.Prelude.{
  ℤ, Bool, String, Option, none, some, List, [], ◌∷◌, map, Result, ok, throws, ◌>>=◌, ◌>>◌, str_eq,
  if◌then◌else◌,
}
use stream_fence_js.Prelude.Dict
use stream_fence_js.Policy.{
  DeliveryMode, best_effort, at_least_once, OverflowAction, drop_oldest, reject_new, coalesce,
  snapshot_only, spill_to_disk,
}
use stream_fence_js.Namespace.{Fields, NamespaceSpec, builder, build, refuse, has_topic}
use stream_fence_js.Namespace.Builder
use stream_fence_js.Server.{
  AuthMode, auth_none, auth_token, TransportMode, ws, wss, EngineIoTransportMode, websocket_only,
  websocket_or_polling, TlsConfig, TlsConfigInput, create_tls_config, StreamFenceServerSpec,
}

pub record RawNamespaceConfig : Type 0 where
  pub path : String
  pub topics : List String
  pub delivery_mode : Option String
  pub overflow_action : Option String
  pub max_queued_messages_per_client : Option ℤ
  pub max_queued_bytes_per_client : Option ℤ
  pub ack_timeout_ms : Option ℤ
  pub max_retries : Option ℤ
  pub coalesce : Option Bool
  pub allow_polling : Option Bool
  pub max_in_flight : Option ℤ
  pub auth_required : Option Bool

pub record RawServerEntry : Type 0 where
  pub host : Option String
  pub port : ℤ
  pub transport : Option String
  pub engine_io_transport : Option String
  pub auth : Option String
  pub spill_root_path : Option String
  pub tls : Option TlsConfigInput
  pub namespaces : List RawNamespaceConfig

pub record RawServerConfig : Type 0 where
  pub servers : List (String × RawServerEntry)

-- `names.join(', ')`
unfoldable pub join : List String → String
join [] = ""
join (name ∷ []) = name
join (name ∷ next ∷ names) = str_append name (str_append ", " (join (next ∷ names)))

abbrev pub names : {A : Type 0} → List (String × A) → List String
names [] = []
names ((name, value) ∷ table) = name ∷ names table

-- What the five parsers do with a value: `table` holds the values of the enum, by their texts.
unfoldable pub parse :
    {A : Type 0} → List (String × A) → A → String → String → Option String → Result A
unfolding join
parse table default what for_whom none = ok default
parse table default what for_whom (some value) = elim (Dict.get value table) [
  | some found ↦ ok found
  | none ↦ throws (
      str_append "Invalid " (
        str_append what (
          str_append " \"" (
            str_append value (
              str_append "\"" (
                str_append for_whom
                  (str_append " (expected: " (str_append (join (names table)) ")"))))))))
]

abbrev pub transport_modes : List (String × TransportMode)
transport_modes = ("WS", ws) ∷ ("WSS", wss) ∷ []

abbrev pub engine_io_transport_modes : List (String × EngineIoTransportMode)
engine_io_transport_modes =
    ("WEBSOCKET_ONLY", websocket_only) ∷ ("WEBSOCKET_OR_POLLING", websocket_or_polling) ∷ []

abbrev pub auth_modes : List (String × AuthMode)
auth_modes = ("NONE", auth_none) ∷ ("TOKEN", auth_token) ∷ []

abbrev pub delivery_modes : List (String × DeliveryMode)
delivery_modes = ("BEST_EFFORT", best_effort) ∷ ("AT_LEAST_ONCE", at_least_once) ∷ []

abbrev pub overflow_actions : List (String × OverflowAction)
overflow_actions =
    ("DROP_OLDEST", drop_oldest)
    ∷ ("REJECT_NEW", reject_new)
    ∷ ("COALESCE", coalesce)
    ∷ ("SNAPSHOT_ONLY", snapshot_only)
    ∷ ("SPILL_TO_DISK", spill_to_disk)
    ∷ []

unfoldable pub parse_transport_mode : Option String → Result TransportMode
unfolding parse
parse_transport_mode value = parse transport_modes ws "transport" "" value

unfoldable pub parse_engine_io_transport_mode : Option String → Result EngineIoTransportMode
unfolding parse
parse_engine_io_transport_mode value =
    parse engine_io_transport_modes websocket_or_polling "engineIoTransport" "" value

unfoldable pub parse_auth_mode : Option String → Result AuthMode
unfolding parse
parse_auth_mode value = parse auth_modes auth_none "auth" "" value

unfoldable pub parse_delivery_mode : Option String → String → Result DeliveryMode
unfolding parse
parse_delivery_mode value namespace_path =
    parse delivery_modes best_effort "deliveryMode" (str_append " for namespace " namespace_path)
      value

unfoldable pub parse_overflow_action : Option String → String → Result OverflowAction
unfolding parse
parse_overflow_action value namespace_path =
    parse overflow_actions reject_new "overflowAction" (str_append " for namespace " namespace_path)
      value

-- A setter that is called if the value is not undefined.
unfoldable pub given : {A : Type 0} → (A → Fields → Fields) → Option A → Fields → Fields
given set none f = f
given set (some value) f = set value f

-- The builder of `buildNamespaceSpec` before `build()`.
unfoldable pub namespace_builder : RawNamespaceConfig → DeliveryMode → OverflowAction → Fields
unfolding given
namespace_builder ns delivery_mode overflow_action =
    let b = Builder.topics ns.topics (builder ns.path) in
    let b = Builder.overflow_action overflow_action (Builder.delivery_mode delivery_mode b) in
    let b = given Builder.max_queued_messages_per_client ns.max_queued_messages_per_client b in
    let b = given Builder.max_queued_bytes_per_client ns.max_queued_bytes_per_client b in
    let b = given Builder.ack_timeout_ms ns.ack_timeout_ms b in
    let b = given Builder.max_retries ns.max_retries b in
    let b = given Builder.coalesce ns.coalesce b in
    let b = given Builder.allow_polling ns.allow_polling b in
    let b = given Builder.max_in_flight ns.max_in_flight b in
    given Builder.auth_required ns.auth_required b

unfoldable pub build_namespace_spec : RawNamespaceConfig → Result NamespaceSpec
unfolding parse_delivery_mode parse_overflow_action namespace_builder
build_namespace_spec ns = do
  delivery_mode ← parse_delivery_mode ns.delivery_mode ns.path
  overflow_action ← parse_overflow_action ns.overflow_action ns.path
  build (namespace_builder ns delivery_mode overflow_action)

unfoldable pub build_namespace_specs : List RawNamespaceConfig → Result (List NamespaceSpec)
unfolding build_namespace_spec
build_namespace_specs [] = ok []
build_namespace_specs (ns ∷ rest) = do
  spec ← build_namespace_spec ns
  specs ← build_namespace_specs rest
  ok (spec ∷ specs)

-- The loop over the namespace paths.
unfoldable pub check_paths : String → List String → List RawNamespaceConfig → Result (Unit {0})
unfolding has_topic
check_paths server_name seen [] = ok tt
check_paths server_name seen (ns ∷ rest) = do
  refuse (has_topic seen ns.path) (
      str_append "Duplicate namespace path \""
        (str_append ns.path (str_append "\" in server \"" (str_append server_name "\""))))
  check_paths server_name (ns.path ∷ seen) rest

unfoldable pub tls_of : Option TlsConfigInput → Result (Option TlsConfig)
unfolding create_tls_config
tls_of none = ok none
tls_of (some input) = do tls ← create_tls_config input; ok (some tls)

abbrev pub or_default : {A : Type 0} → A → Option A → A
or_default default none = default
or_default default (some value) = value

module _ {V L M : Type 0} (noop_metrics : M) where
  unfoldable pub build_spec : RawServerEntry → String → Result (StreamFenceServerSpec V L M)
  unfolding parse_transport_mode parse_engine_io_transport_mode parse_auth_mode tls_of check_paths
      build_namespace_specs
  build_spec entry server_name = do
    transport_mode ← parse_transport_mode entry.transport
    engine_io_transport_mode ← parse_engine_io_transport_mode entry.engine_io_transport
    auth_mode ← parse_auth_mode entry.auth
    tls_config ← tls_of entry.tls
    check_paths server_name [] entry.namespaces
    namespaces ← build_namespace_specs entry.namespaces
    ok (record {
      host = or_default "0.0.0.0" entry.host;
      port = entry.port;
      transport_mode = transport_mode;
      engine_io_transport_mode = engine_io_transport_mode;
      auth_mode = auth_mode;
      token_validator = none;
      tls_config = tls_config;
      listeners = [];
      metrics = noop_metrics;
      spill_root_path = or_default ".streamfence-spill" entry.spill_root_path;
      namespaces = namespaces;
    })

  unfoldable pub map_server_config : RawServerConfig → String → Result (StreamFenceServerSpec V L M)
  unfolding build_spec join
  map_server_config config server_name = elim (Dict.get server_name config.servers) [
    | none ↦ throws (
        str_append "No server named \"" (
          str_append server_name (
            str_append "\" found in config (available: "
              (str_append (join (names config.servers)) ")"))))
    | some entry ↦ build_spec entry server_name
  ]
