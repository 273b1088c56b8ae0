-- ===== src/Tests/Configs.antt =====
-- The theorems on SpecMapper.ts at a concrete configuration.
use stream_fence_js.Prelude.{
  ℕ, ◌≡◌, refl, true, false, none, some, [], ◌∷◌, All, pos, ok, is_blank, starts_with_slash,
}
use stream_fence_js.Prelude.Dict
use stream_fence_js.Policy.{at_least_once, spill_to_disk, ack_on_receipt}
use stream_fence_js.Namespace.{
  Fields, builder, build, normalized, validate_basic, validate_reliable_mode,
  validate_at_least_once, check_topics, has_topic,
}
use stream_fence_js.Namespace.Builder
use stream_fence_js.Server.{StreamFenceServerSpec, auth_token, websocket_or_polling, ws}
use stream_fence_js.Config.{
  RawNamespaceConfig, RawServerConfig, parse, parse_overflow_action, parse_delivery_mode,
  parse_transport_mode, parse_engine_io_transport_mode, parse_auth_mode, given, namespace_builder,
  build_namespace_spec, build_namespace_specs, check_paths, tls_of, build_spec, map_server_config,
}
use stream_fence_js.Config.Mapped.{IsBuilt, AreDistinct, paths, map_server_config-IsBuilt}

abbrev raw : RawNamespaceConfig
raw = record {
  path = "/feed";
  topics = "prices" ∷ [];
  delivery_mode = some "AT_LEAST_ONCE";
  overflow_action = some "SPILL_TO_DISK";
  max_queued_messages_per_client = none;
  max_queued_bytes_per_client = none;
  ack_timeout_ms = none;
  max_retries = some (pos 3);
  coalesce = none;
  allow_polling = none;
  max_in_flight = some (pos 4);
  auth_required = some true;
}

abbrev config : RawServerConfig
config = record {
  servers =
      (
        "main",
        record {
          host = none;
          port = pos 8080;
          transport = none;
          engine_io_transport = none;
          auth = some "TOKEN";
          spill_root_path = none;
          tls = none;
          namespaces = raw ∷ [];
        },
      )
      ∷ [];
}

abbrev pub feed_spec : Fields
feed_spec = record {
  path = "/feed";
  auth_required = true;
  topics = "prices" ∷ [];
  delivery_mode = at_least_once;
  overflow_action = spill_to_disk;
  max_queued_messages_per_client = pos 64;
  max_queued_bytes_per_client = pos 524288;
  ack_timeout_ms = pos 1000;
  max_retries = pos 3;
  coalesce = false;
  allow_polling = true;
  max_in_flight = pos 4;
  inbound_ack_policy = ack_on_receipt;
}

abbrev pub mapped : StreamFenceServerSpec ℕ ℕ ℕ
mapped = record {
  host = "0.0.0.0";
  port = pos 8080;
  transport_mode = ws;
  engine_io_transport_mode = websocket_or_polling;
  auth_mode = auth_token;
  token_validator = none;
  tls_config = none;
  listeners = [];
  metrics = 0;
  spill_root_path = ".streamfence-spill";
  namespaces = feed_spec ∷ [];
}

config-mapped : map_server_config 0 config "main" ≡ ok mapped
unfolding map_server_config build_spec parse Dict.get parse_transport_mode
    parse_engine_io_transport_mode parse_auth_mode parse_delivery_mode parse_overflow_action tls_of
    check_paths has_topic build_namespace_specs build_namespace_spec namespace_builder given builder
    Builder.topics Builder.overflow_action Builder.delivery_mode
    Builder.max_queued_messages_per_client Builder.max_queued_bytes_per_client
    Builder.ack_timeout_ms Builder.max_retries Builder.coalesce Builder.allow_polling
    Builder.max_in_flight Builder.auth_required build normalized validate_basic
    validate_reliable_mode validate_at_least_once check_topics is_blank starts_with_slash
config-mapped = refl

map_server_config-IsBuilt_example :
    All IsBuilt (feed_spec ∷ []) × AreDistinct [] (paths (feed_spec ∷ []))
map_server_config-IsBuilt_example = map_server_config-IsBuilt 0 config "main" mapped config-mapped
