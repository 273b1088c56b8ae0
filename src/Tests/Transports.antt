-- ===== src/Tests/Transports.antt =====
-- The theorems on NamespaceHandler.ts at a concrete handler.
use stream_fence_js.Prelude.{
  ℕ, ◌≡◌, ◌≢◌, refl, true, false, none, some, [], ◌∷◌, arith, String, ◌↔◌, str_eq, if◌then◌else◌,
}
use stream_fence_js.Sessions.{has_member}
use stream_fence_js.Sessions.Registry.{get_session}
use stream_fence_js.Dispatcher.Errors.{Throws}
use stream_fence_js.Transport.{NamespaceHandler, Request, publication, stop, receive, on_disconnect}
use stream_fence_js.Transport.Stopping.{stop_lem}
use stream_fence_js.Transport.Departing.{on_disconnect_lem}
use stream_fence_js.Transport.Errors.{IsRefused, receive-Throws}
use stream_fence_js.Tests.Data.{disk}
use stream_fence_js.Tests.Dispatchers.{platform, published, refusing, spilling}

-- The handler of the client c1, with a message on its way.
abbrev handler : NamespaceHandler disk ℕ
handler = record {
  namespace_path = "/feed";
  started = true;
  connections = "c1" ∷ [];
  dispatcher = published;
}

stop_lem_example :
    ((stop handler).connections ≡ [])
    × ((stop handler).started ≡ false)
    × (get_session "c1" (stop handler).dispatcher.registry ≡ (
        if has_member "c1" handler.connections
        then none
        else get_session "c1" handler.dispatcher.registry))
stop_lem_example = stop_lem handler "c1" refl

written : (payload : ℕ) → refusing.byte_length payload ≢ some 0
written payload e = ground arith

-- A client publishes to the topic of c1, whose disk queue cannot be opened.
abbrev spilling_handler : NamespaceHandler disk ℕ
spilling_handler = record handler { dispatcher = spilling }

receive-Throws_example :
    Throws (receive refusing "c1" (publication (some "prices") 8) spilling_handler) ↔ (
      (has_member "c1" spilling_handler.connections ≡ true)
      × IsRefused refusing (publication (some "prices") 8) spilling_handler)
receive-Throws_example =
    receive-Throws refusing "c1" (publication (some "prices") 8) spilling_handler written

on_disconnect_lem_example :
    let h = on_disconnect "c1" handler in
    ((request : Request ℕ) → receive platform "c1" request h ≡ (h, none))
    × ((j : String)
        → (has_member j h.connections
            ≡ (if str_eq "c1" j then false else has_member j handler.connections))
          × (get_session j h.dispatcher.registry
              ≡ (if str_eq "c1" j then none else get_session j handler.dispatcher.registry)))
unfolding has_member
on_disconnect_lem_example = on_disconnect_lem platform handler "c1" refl
