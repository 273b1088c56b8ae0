-- ===== src/Transport/Stopping.antt =====
-- What NamespaceHandler.ts leaves behind when it stops.
use stream_fence_js.Prelude.{
  ◌≡◌, refl, ap, ◌∙◌, true, false, String, none, List, [], ◌∷◌, arith, Option-cases, str_eq, eq_iff,
  eq_refl, inl, inr, if◌then◌else◌,
}
use stream_fence_js.Prelude.Dict
use stream_fence_js.Prelude.Dict.{get-set, get-delete}
use stream_fence_js.Spill.{SpillQueue}
use stream_fence_js.Sessions.{has_member, dispose}
use stream_fence_js.Sessions.Registry.{get_session}
use stream_fence_js.Sessions.Departure.{remove-sessions}
use stream_fence_js.Dispatcher.{Dispatcher, put_session}
use stream_fence_js.Dispatcher.Retries.{on_client_disconnected}
use stream_fence_js.Transport.{NamespaceHandler, cleanup, cleanup_all, stop, stop_started}

module _ {P : Type 0} {Q : SpillQueue P} {C : Type 0} where
  pub on_client_disconnected-get_session :
      (c j : String) (d : Dispatcher Q C)
      → get_session j (on_client_disconnected c d).registry
        ≡ (if str_eq c j then none else get_session j d.registry)
  unfolding on_client_disconnected get_session put_session Dict.has dispose
  on_client_disconnected-get_session c j d = elim (Option-cases (Dict.get c d.registry.sessions)) [
    | inl missing ↦ rw (missing, on_client_disconnected) (ground (arith, eq_iff c j))
    | inr (s, there) ↦
        let r = record d.registry { sessions = Dict.set c (dispose s) d.registry.sessions } in
        let deleted =
          remove-sessions c (dispose s) r
            (ground (arith, get-set c c (dispose s) d.registry.sessions, eq_refl c)) in
        rw (there, on_client_disconnected)
          (rw there (
            ground (
              arith,
              ap (Dict.get j) deleted.1,
              get-delete c j (Dict.set c (dispose s) d.registry.sessions),
              get-set c j (dispose s) d.registry.sessions,
              eq_iff c j,
            )))
  ]

  cleanup_all-get_session :
      (client_ids : List String) (j : String) (h : NamespaceHandler Q C)
      → get_session j (cleanup_all client_ids h).dispatcher.registry
        ≡ (if has_member j client_ids then none else get_session j h.dispatcher.registry)
  unfolding cleanup_all cleanup has_member
  cleanup_all-get_session [] j h = refl
  cleanup_all-get_session (c ∷ client_ids) j h = ground (
    arith,
    cleanup_all-get_session client_ids j (cleanup c h),
    on_client_disconnected-get_session c j h.dispatcher,
    eq_iff c j,
  )

  -- After `stop`, a handler that was started listens to no socket and is not started, and the
  -- registry has lost the sessions of the sockets that it listened to, and no others.
  pub stop_lem :
      (h : NamespaceHandler Q C) (client_id : String)
      → h.started ≡ true
      → ((stop h).connections ≡ [])
        × ((stop h).started ≡ false)
        × (get_session client_id (stop h).dispatcher.registry ≡ (
            if has_member client_id h.connections
            then none
            else get_session client_id h.dispatcher.registry))
  unfolding stop
  stop_lem h client_id on =
      let r = stop_started h on in
      (
        ap (λ (x : NamespaceHandler Q C). x.connections) r,
        ap (λ (x : NamespaceHandler Q C). x.started) r,
        ap (λ (x : NamespaceHandler Q C). get_session client_id x.dispatcher.registry) r
            ∙ cleanup_all-get_session h.connections client_id h,
      )
