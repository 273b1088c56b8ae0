-- ===== src/Bootstrap.antt =====
-- src/internal/transport/SocketServerBootstrap.ts: the HTTP server and the Socket.IO server on it.
-- Both are libraries': a parameter, with the world that their calls change.
pub mod Calls
use stream_fence_js.Prelude.{ℤ, pos, String, Option, none, some, List, [], ◌∷◌, Result, ok, throws}
use stream_fence_js.Server.{EngineIoTransportMode, websocket_only, websocket_or_polling}

-- What `address()` of an HTTP server returns: null, a path, or an address with a port.
pub data Address : Type 0 where
  no_address : Address
  pipe : String → Address
  bound_to : ℤ → Address

pub record Platform : Type 1 where
  pub Http : Type 0
  pub Io : Type 0
  pub World : Type 0
  pub create_server : World → Http × World
  pub create_socket_server : Http → List String → World → Io × World
  -- `listen`, up to its callback or its 'error' event
  pub listen : Http → ℤ → String → World → Result (Unit {0}) × World
  pub address : Http → World → Address
  pub close_socket_server : Io → World → World
  pub close_server : Http → World → World

pub record Options : Type 0 where
  pub host : String
  pub port : ℤ
  pub engine_io_transport_mode : EngineIoTransportMode

pub record SocketServerBootstrap (p : Platform) : Type 0 where
  pub options : Options
  pub http_server : Option p.Http
  pub socket_server : Option p.Io
  pub bound_port : ℤ
  pub world : p.World

unfoldable pub resolve_transports : EngineIoTransportMode → List String
resolve_transports websocket_only = "websocket" ∷ []
resolve_transports websocket_or_polling = "websocket" ∷ "polling" ∷ []

module _ {p : Platform} where
  unfoldable pub new_bootstrap : Options → p.World → SocketServerBootstrap p
  new_bootstrap options world = record {
    options = options;
    http_server = none;
    socket_server = none;
    bound_port = pos 0;
    world = world;
  }

  -- `start` after it has awaited `listen`.
  unfoldable pub resume_listen :
      p.Http
      → Result (Unit {0}) × p.World
      → SocketServerBootstrap p
      → Result (Unit {0}) × SocketServerBootstrap p
  resume_listen http (throws e, world) b = (throws e, record b { world = world })
  resume_listen http (ok _, world) b = elim (p.address http world) [
    | bound_to port ↦ (ok tt, record b { world = world; bound_port = port })
    | _ ↦ (throws "failed to determine bound server port", record b { world = world })
  ]

  -- A call that throws leaves the fields that it has set.
  unfoldable pub open_servers :
      SocketServerBootstrap p → Result (Unit {0}) × SocketServerBootstrap p
  unfolding resume_listen resolve_transports
  open_servers b =
      let (http, world) = p.create_server b.world in
      let (io, world') =
        p.create_socket_server http (resolve_transports b.options.engine_io_transport_mode) world in
      resume_listen http (p.listen http b.options.port b.options.host world')
        (record b { http_server = some http; socket_server = some io })

  unfoldable pub start : SocketServerBootstrap p → Result (Unit {0}) × SocketServerBootstrap p
  unfolding open_servers
  start b = elim b.http_server [ some _ ↦ (ok tt, b) | none ↦ open_servers b ]

  unfoldable pub close_sockets : SocketServerBootstrap p → SocketServerBootstrap p
  close_sockets b = elim b.socket_server [
    | none ↦ b
    | some io ↦ record b { socket_server = none; world = p.close_socket_server io b.world }
  ]

  unfoldable pub close_http : SocketServerBootstrap p → SocketServerBootstrap p
  close_http b = elim b.http_server [
    | none ↦ b
    | some http ↦ record b {
      http_server = none;
      bound_port = pos 0;
      world = p.close_server http b.world;
    }
  ]

  unfoldable pub stop : SocketServerBootstrap p → SocketServerBootstrap p
  unfolding close_sockets close_http
  stop b = close_http (close_sockets b)

  unfoldable pub io_server : SocketServerBootstrap p → Result p.Io
  io_server b = elim b.socket_server [
    | none ↦ throws "SocketServerBootstrap not started"
    | some io ↦ ok io
  ]

  abbrev pub port : SocketServerBootstrap p → ℤ
  port b = b.bound_port
