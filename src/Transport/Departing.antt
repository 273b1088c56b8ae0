-- ===== src/Transport/Departing.antt =====
-- What NamespaceHandler.ts leaves of a socket that has disconnected.
use stream_fence_js.Prelude.{◌≡◌, true, false, String, none, str_eq, eq_refl, arith, if◌then◌else◌}
use stream_fence_js.Spill.{SpillQueue}
use stream_fence_js.Sessions.{has_member}
use stream_fence_js.Sessions.Members.{has_member-remove}
use stream_fence_js.Sessions.Registry.{get_session}
use stream_fence_js.Dispatcher.Publish.{Platform}
use stream_fence_js.Transport.{NamespaceHandler, Request, cleanup, receive, on_disconnect}
use stream_fence_js.Transport.Stopping.{on_client_disconnected-get_session}

module _ {P : Type 0} {Q : SpillQueue P} {C : Type 0} where
  -- After the disconnect of a socket that a handler listens to, the handler ignores every request
  -- from it and leaves its state as it is, the registry has no session for it, and the handler
  -- listens to the other sockets as before, whose sessions are as they were.
  pub on_disconnect_lem :
      (p : Platform Q) (h : NamespaceHandler Q C) (client_id : String)
      → has_member client_id h.connections ≡ true
      → let h' = on_disconnect client_id h in
        ((request : Request P) → receive p client_id request h' ≡ (h', none))
        × ((j : String)
            → (has_member j h'.connections
                ≡ (if str_eq client_id j then false else has_member j h.connections))
              × (get_session j h'.dispatcher.registry
                  ≡ (if str_eq client_id j then none else get_session j h.dispatcher.registry)))
  unfolding on_disconnect cleanup receive
  on_disconnect_lem p h client_id heard = rw heard (
    λ request.
        ground (arith, has_member-remove client_id client_id h.connections, eq_refl client_id),
    λ j. (
      ground (arith, has_member-remove j client_id h.connections),
      on_client_disconnected-get_session client_id j h.dispatcher,
    ),
  )
