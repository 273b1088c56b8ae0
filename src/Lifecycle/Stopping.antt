-- ===== src/Lifecycle/Stopping.antt =====
-- What `stop` of StreamFenceServer.ts leaves of the clients.
use stream_fence_js.Prelude.{
  ◌≡◌, refl, true, false, Bool, ◌||◌, String, none, some, List, [], ◌∷◌, arith, All, if◌then◌else◌,
}
use stream_fence_js.Spill.{SpillQueue}
use stream_fence_js.Sessions.{has_member}
use stream_fence_js.Sessions.Registry.{get_session}
use stream_fence_js.Dispatcher.{Dispatcher}
use stream_fence_js.Transport.{stop}
use stream_fence_js.Transport.Stopping.{stop_lem}
use stream_fence_js.Lifecycle.{
  StreamFenceServer, Endpoint, handler_of, stop_all, stop_server, resume_stop,
}

-- One of the handlers listens to the client.
abbrev pub is_heard : String → List Endpoint → Bool
is_heard c [] = false
is_heard c (e ∷ handlers) = has_member c e.connections || is_heard c handlers

module _ {P : Type 0} {Q : SpillQueue P} {C : Type 0} where
  stop_all-get_session :
      (handlers : List Endpoint) (d : Dispatcher Q C) (c : String)
      → All (λ (e : Endpoint). e.started ≡ true) handlers
      → get_session c (stop_all handlers d).registry
        ≡ (if is_heard c handlers then none else get_session c d.registry)
  unfolding stop_all
  stop_all-get_session [] d c on = refl
  stop_all-get_session (e ∷ handlers) d c (on, others) =
      let (_, _, gone) = stop_lem (handler_of e d) c on in
      ground
        (arith, gone, stop_all-get_session handlers (stop (handler_of e d)).dispatcher c others)

module _ {P : Type 0} {Q : SpillQueue P} {C V L M : Type 0} where
  -- When a running server with started handlers stops, the sessions of all the clients that its
  -- handlers listen to are gone from the registry before the sockets are closed, and no others; no
  -- handler and no interval is left. Once the bootstrap has stopped there is no dispatcher, and
  -- another `stop` does nothing.
  pub stop_server_lem :
      (s : StreamFenceServer Q C V L M) (d : Dispatcher Q C)
      → s.running ≡ true
      → s.dispatcher ≡ some d
      → All (λ (e : Endpoint). e.started ≡ true) s.namespace_handlers
      → let s₁ = stop_server s in
        let s₂ = resume_stop s₁ in
        ((d' : Dispatcher Q C) × (s₁.dispatcher ≡ some d')
          × ((c : String)
              → get_session c d'.registry
                ≡ (if is_heard c s.namespace_handlers then none else get_session c d.registry)))
        × (s₁.namespace_handlers ≡ [])
        × (s₁.retry_interval ≡ none)
        × (s₂.dispatcher ≡ none)
        × (stop_server s₂ ≡ s₂)
  unfolding stop_server resume_stop
  stop_server_lem s d on there started =
      rw (on, there)
        (
          (
            stop_all s.namespace_handlers d,
            refl,
            λ c. stop_all-get_session s.namespace_handlers d c started,
          ),
          refl,
          refl,
          refl,
          refl,
        )
