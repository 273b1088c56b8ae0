-- ===== src/Tests/Servers.antt =====
-- The theorem on StreamFenceServer.ts at a concrete server.
use stream_fence_js.Prelude.{
  ℕ, pos, ◌≡◌, refl, true, false, String, none, some, [], All, if◌then◌else◌,
}
use stream_fence_js.Sessions.Registry.{get_session}
use stream_fence_js.Dispatcher.{Dispatcher}
use stream_fence_js.Dispatcher.Step.{new}
use stream_fence_js.Lifecycle.{
  StreamFenceServer, Endpoint, start_server, resume_start, stop_server, resume_stop,
  register_namespaces,
}
use stream_fence_js.Lifecycle.Stopping.{is_heard, stop_server_lem}
use stream_fence_js.Tests.Data.{disk}
use stream_fence_js.Tests.Configs.{mapped}

abbrev made : StreamFenceServer disk ℕ ℕ ℕ ℕ
made = record {
  spec = mapped;
  running = false;
  listeners = [];
  bound = false;
  port = none;
  dispatcher = none;
  namespace_handlers = [];
  retry_processor = none;
  retry_interval_ms = 50;
  retry_interval = none;
  announcements = [];
}

abbrev serving : StreamFenceServer disk ℕ ℕ ℕ ℕ
serving = resume_start (pos 3000) (start_server made)

serving_handlers : All (λ (e : Endpoint). e.started ≡ true) serving.namespace_handlers
unfolding start_server resume_start
serving_handlers = search

stop_server_lem_example :
    let s₁ = stop_server serving in
    let s₂ = resume_stop s₁ in
    let d = new (register_namespaces mapped.namespaces []) in
    ((d' : Dispatcher disk ℕ) × (s₁.dispatcher ≡ some d')
      × ((c : String)
          → get_session c d'.registry
            ≡ (if is_heard c serving.namespace_handlers then none else get_session c d.registry)))
    × (s₁.namespace_handlers ≡ [])
    × (s₁.retry_interval ≡ none)
    × (s₂.dispatcher ≡ none)
    × (stop_server s₂ ≡ s₂)
unfolding start_server resume_start
stop_server_lem_example = stop_server_lem serving _ refl refl serving_handlers
