-- ===== src/Bootstrap/Calls.antt =====
-- What calls of `start` and `stop` in any order leave.
use stream_fence_js.Prelude.{
  pos, String, none, some, List, [], ◌∷◌, Result, ok, throws, ◌≡◌, refl, sym, ap, subst, arith,
  true, false,
}
use stream_fence_js.Prelude.Dict.{is_some}
use stream_fence_js.Bootstrap.{
  Platform, Options, SocketServerBootstrap, new_bootstrap, start, stop, close_sockets, close_http,
  io_server, resume_listen, resolve_transports, open_servers,
}

-- Both servers are there or neither is, and without them the port is 0.
pub record IsPaired {p : Platform} (b : SocketServerBootstrap p) : Type 0 where
  pub together : is_some b.socket_server ≡ is_some b.http_server
  pub unbound : is_some b.http_server ≡ false → b.bound_port ≡ pos 0

pub data Call : Type 0 where
  starting stopping : Call

module _ {p : Platform} where
  unfoldable pub after : List Call → SocketServerBootstrap p → SocketServerBootstrap p
  unfolding start stop
  after [] b = b
  after (starting ∷ calls) b = after calls (start b).1
  after (stopping ∷ calls) b = after calls (stop b)

  resume_listen-IsPaired :
      (http : p.Http) (result : Result (Unit {0}) × p.World) (b : SocketServerBootstrap p)
      → is_some b.http_server ≡ true
      → is_some b.socket_server ≡ true
      → IsPaired (resume_listen http result b).1
  unfolding resume_listen
  resume_listen-IsPaired http (throws e, world) b h s = ground arith
  resume_listen-IsPaired http (ok _, world) b h s = ground arith

  -- The two servers are made before `listen` is called.
  abbrev pub made : SocketServerBootstrap p → p.Http × p.Io × p.World
  made b =
      let (http, world) = p.create_server b.world in
      let (io, world') =
        p.create_socket_server http (resolve_transports b.options.engine_io_transport_mode) world in
      (http, io, world')

  abbrev pub listened : SocketServerBootstrap p → Result (Unit {0}) × p.World
  listened b = p.listen (made b).0 b.options.port b.options.host (made b).2

  abbrev opened : SocketServerBootstrap p → SocketServerBootstrap p
  opened b = record b { http_server = some (made b).0; socket_server = some (made b).1 }

  open_servers-IsPaired : (b : SocketServerBootstrap p) → IsPaired (open_servers b).1
  unfolding open_servers
  open_servers-IsPaired b = resume_listen-IsPaired (made b).0 (listened b) (opened b) refl refl

  start-IsPaired : (b : SocketServerBootstrap p) → IsPaired b → IsPaired (start b).1
  unfolding start
  start-IsPaired b v = ground (arith, open_servers-IsPaired b)

  stop_lem :
      (b : SocketServerBootstrap p)
      → IsPaired b
      → ((stop b).http_server ≡ none)
        × ((stop b).socket_server ≡ none)
        × ((stop b).bound_port ≡ pos 0)
        × ((stop b).options ≡ b.options)
  unfolding stop close_sockets close_http
  stop_lem b v = ground arith

  after-IsPaired :
      (calls : List Call) (b : SocketServerBootstrap p) → IsPaired b → IsPaired (after calls b)
  unfolding after
  after-IsPaired [] b v = v
  after-IsPaired (starting ∷ calls) b v = after-IsPaired calls (start b).1 (start-IsPaired b v)
  after-IsPaired (stopping ∷ calls) b v =
      after-IsPaired calls (stop b) (ground (arith, stop_lem b v))

  -- After any calls of `start` and `stop` on a new bootstrap, whatever the libraries do: there is an
  -- HTTP server exactly if there is a Socket.IO server, `ioServer` throws if there is none, and then
  -- the port is 0; and after one more `stop` there is none.
  pub after-new_bootstrap :
      (calls : List Call) (options : Options) (world : p.World)
      → let b = after calls (new_bootstrap options world) in
        IsPaired b
        × (is_some b.http_server ≡ false → io_server b ≡ throws "SocketServerBootstrap not started")
        × (is_some (stop b).http_server ≡ false)
        × IsPaired (stop b)
  unfolding new_bootstrap io_server
  after-new_bootstrap calls options world =
      let start : SocketServerBootstrap p = new_bootstrap options world in
      let v = after-IsPaired calls start (record { together = refl; unbound = λ _. refl }) in
      let b = after calls start in
      (
        v,
        λ h. ground (arith, v.together),
        ground (arith, stop_lem b v),
        ground (arith, stop_lem b v),
      )

  start_listened :
      (b : SocketServerBootstrap p) (e : String) (world : p.World)
      → b.http_server ≡ none
      → listened b ≡ (throws e, world)
      → start b ≡ (throws e, record (opened b) { world = world })
  unfolding start open_servers resume_listen
  start_listened b e world closed failed =
      rw (closed, start) (ap (λ r. resume_listen (made b).0 r (opened b)) failed)

  -- If there is no HTTP server and `listen` reports an error, `start` throws it; and from then on,
  -- with no `stop`, `start` returns at once and changes nothing, though nothing listens.
  pub start-Throws :
      (b : SocketServerBootstrap p) (e : String) (world : p.World)
      → b.http_server ≡ none
      → listened b ≡ (throws e, world)
      → ((start b).0 ≡ throws e)
        × (start (start b).1 ≡ (ok tt, (start b).1))
        × ((start b).1.bound_port ≡ b.bound_port)
  start-Throws b e world closed failed =
      subst (λ s. (s.0 ≡ throws e) × (start s.1 ≡ (ok tt, s.1)) × (s.1.bound_port ≡ b.bound_port))
        (sym (start_listened b e world closed failed)) (refl, unfold start in refl, refl)
