-- ===== src/Builder.antt =====
-- src/StreamFenceServerBuilder.ts: how the settings of a server are put together.
pub mod Paths
use Prim.Native.String.{◌++◌ as str_append}
use stream_fence_js.Prelude.{
  ℤ, pos, String, Bool, true, false, not, ◌||◌, Option, none, some, List, [], ◌∷◌, ◌++◌, Result, ok,
  throws, ◌>>=◌, str_eq, length, ◌==◌, if◌then◌else◌,
}
use stream_fence_js.Namespace.{NamespaceSpec}
use stream_fence_js.Server.{
  TransportMode, ws, EngineIoTransportMode, websocket_or_polling, AuthMode, auth_none, TlsConfig,
  StreamFenceServerSpec,
}
use stream_fence_js.Config.{RawServerConfig, map_server_config}
use stream_fence_js.Config.Loader.{Files, load_server_config}

pub record StreamFenceServerBuilder (V L M : Type 0) : Type 0 where
  pub host_value : String
  pub port_value : ℤ
  pub transport_mode_value : TransportMode
  pub engine_io_transport_mode_value : EngineIoTransportMode
  pub auth_mode_value : AuthMode
  pub token_validator_value : Option V
  pub tls_config_value : Option TlsConfig
  pub listeners_value : List L
  pub metrics_value : M
  pub spill_root_path_value : String
  pub namespaces_value : List NamespaceSpec

-- `namespacesValue.some((item) => item.path === value.path)`
unfoldable pub some_path : String → List NamespaceSpec → Bool
some_path path [] = false
some_path path (item ∷ items) = str_eq item.path path || some_path path items

-- The call of a setter, with its argument.
pub data Setting (V L M : Type 0) : Type 0 where
  host : String → Setting V L M
  port : ℤ → Setting V L M
  transport_mode : TransportMode → Setting V L M
  engine_io_transport_mode : EngineIoTransportMode → Setting V L M
  auth_mode : AuthMode → Setting V L M
  token_validator : Option V → Setting V L M
  tls_config : Option TlsConfig → Setting V L M
  listener : L → Setting V L M
  metrics : M → Setting V L M
  spill_root_path : String → Setting V L M

module _ {V L M : Type 0} where
  -- A setter changes its own value and returns.
  unfoldable pub set_value :
      Setting V L M → StreamFenceServerBuilder V L M → StreamFenceServerBuilder V L M
  set_value (host value) b = record b { host_value = value }
  set_value (port value) b = record b { port_value = value }
  set_value (transport_mode value) b = record b { transport_mode_value = value }
  set_value (engine_io_transport_mode value) b = record b { engine_io_transport_mode_value = value }
  set_value (auth_mode value) b = record b { auth_mode_value = value }
  set_value (token_validator value) b = record b { token_validator_value = value }
  set_value (tls_config value) b = record b { tls_config_value = value }
  set_value (listener value) b = record b { listeners_value = b.listeners_value ++ value ∷ [] }
  set_value (metrics value) b = record b { metrics_value = value }
  set_value (spill_root_path value) b = record b { spill_root_path_value = value }

  unfoldable pub namespace :
      NamespaceSpec → StreamFenceServerBuilder V L M → Result (StreamFenceServerBuilder V L M)
  unfolding some_path
  namespace value b =
      if some_path value.path b.namespaces_value
      then throws (str_append "duplicate namespace path: " value.path)
      else ok (record b { namespaces_value = b.namespaces_value ++ value ∷ [] })

  unfoldable pub build_spec : StreamFenceServerBuilder V L M → StreamFenceServerSpec V L M
  build_spec b = record {
    host = b.host_value;
    port = b.port_value;
    transport_mode = b.transport_mode_value;
    engine_io_transport_mode = b.engine_io_transport_mode_value;
    auth_mode = b.auth_mode_value;
    token_validator = b.token_validator_value;
    tls_config = b.tls_config_value;
    listeners = b.listeners_value;
    metrics = b.metrics_value;
    spill_root_path = b.spill_root_path_value;
    namespaces = b.namespaces_value;
  }

  -- The settings that the server is made with.
  unfoldable pub build_server :
      StreamFenceServerBuilder V L M → Result (StreamFenceServerSpec V L M)
  unfolding build_spec
  build_server b =
      if length b.namespaces_value == 0
      then throws "StreamFenceServer requires at least one namespace"
      else ok (build_spec b)

  unfoldable pub from_spec : StreamFenceServerSpec V L M → StreamFenceServerBuilder V L M
  from_spec spec = record {
    host_value = spec.host;
    port_value = spec.port;
    transport_mode_value = spec.transport_mode;
    engine_io_transport_mode_value = spec.engine_io_transport_mode;
    auth_mode_value = spec.auth_mode;
    token_validator_value = spec.token_validator;
    tls_config_value = spec.tls_config;
    listeners_value = spec.listeners;
    metrics_value = spec.metrics;
    spill_root_path_value = spec.spill_root_path;
    namespaces_value = spec.namespaces;
  }

  -- With the collector `noop` of no metrics.
  abbrev pub new_builder : M → StreamFenceServerBuilder V L M
  new_builder noop = record {
    host_value = "0.0.0.0";
    port_value = pos 0;
    transport_mode_value = ws;
    engine_io_transport_mode_value = websocket_or_polling;
    auth_mode_value = auth_none;
    token_validator_value = none;
    tls_config_value = none;
    listeners_value = [];
    metrics_value = noop;
    spill_root_path_value = ".streamfence-spill";
    namespaces_value = [];
  }

  module _ (files : Files) (noop : M) where
    unfoldable pub from_yaml : String → String → Result (StreamFenceServerBuilder V L M)
    unfolding load_server_config
    from_yaml file_path server = do
      raw ← load_server_config files file_path
      spec ← map_server_config noop raw server
      ok (from_spec spec)

    unfoldable pub from_json : String → String → Result (StreamFenceServerBuilder V L M)
    unfolding from_yaml
    from_json file_path server =
        let ext = files.extension file_path in
        let loaded = from_yaml file_path server in
        if not (str_eq ext ".json")
        then throws (
            str_append "Unsupported config file extension \""
              (str_append ext (str_append "\" for fromJson (expected .json): " file_path)))
        else loaded
