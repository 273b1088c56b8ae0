-- ===== src/Server.antt =====
-- src/AuthMode.ts, src/TransportMode.ts, src/EngineIoTransportMode.ts, src/TlsConfig.ts and
-- src/StreamFenceServerSpec.ts: the settings of a server.
use Prim.Native.String.{◌++◌ as str_append}
use stream_fence_js.Prelude.{
  ℤ, String, Option, none, some, List, Result, ok, throws, ◌>>=◌, str_eq, is_blank, if◌then◌else◌,
}
use stream_fence_js.Namespace.{NamespaceSpec}

pub data AuthMode : Type 0 where
  auth_none auth_token : AuthMode

pub data TransportMode : Type 0 where
  ws wss : TransportMode

pub data EngineIoTransportMode : Type 0 where
  websocket_only websocket_or_polling : EngineIoTransportMode

pub record TlsConfig : Type 0 where
  pub cert_chain_pem_path : String
  pub private_key_pem_path : String
  pub private_key_password : Option String
  pub protocol : String

pub record TlsConfigInput : Type 0 where
  pub cert_chain_pem_path : String
  pub private_key_pem_path : String
  pub private_key_password : Option String
  pub protocol : Option String

unfoldable pub require_non_blank : String → String → Result String
require_non_blank value field_name =
    if is_blank value then throws (str_append field_name " is required") else ok value

-- The password that is kept, and the protocol.
unfoldable pub password_of : Option String → Option String
password_of none = none
password_of (some password) = if str_eq password "" then none else some password

unfoldable pub protocol_of : Option String → String
protocol_of none = "TLSv1.3"
protocol_of (some protocol) = if is_blank protocol then "TLSv1.3" else protocol

-- `TlsConfig.create`
unfoldable pub create_tls_config : TlsConfigInput → Result TlsConfig
unfolding require_non_blank password_of protocol_of
create_tls_config input = do
  cert_chain_pem_path ← require_non_blank input.cert_chain_pem_path "certChainPemPath"
  private_key_pem_path ← require_non_blank input.private_key_pem_path "privateKeyPemPath"
  ok (record {
    cert_chain_pem_path = cert_chain_pem_path;
    private_key_pem_path = private_key_pem_path;
    private_key_password = password_of input.private_key_password;
    protocol = protocol_of input.protocol;
  })

-- `V`, `L` and `M` are the types of token validators, listeners and metrics.
pub record StreamFenceServerSpec (V L M : Type 0) : Type 0 where
  pub host : String
  pub port : ℤ
  pub transport_mode : TransportMode
  pub engine_io_transport_mode : EngineIoTransportMode
  pub auth_mode : AuthMode
  pub token_validator : Option V
  pub tls_config : Option TlsConfig
  pub listeners : List L
  pub metrics : M
  pub spill_root_path : String
  pub namespaces : List NamespaceSpec
