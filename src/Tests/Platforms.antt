-- ===== src/Tests/Platforms.antt =====
-- The theorems on PromServerMetrics.ts, SocketServerBootstrap.ts and the directories of disk queues
-- at concrete libraries.
use Prim.Native.String.{String, ◌++◌ as str_append}
use stream_fence_js.Prelude.{
  ℕ, ◌+◌, ◌≡◌, refl, true, false, none, some, List, [], ◌∷◌, Result, ok, throws, ◌>>=◌, pos, ℤ,
  str_eq, arith, length, ◌==◌, if◌then◌else◌, All,
}
use stream_fence_js.Prelude.Dict
use stream_fence_js.Prelude.Dict.{is_some}
use stream_fence_js.Events.{Metric, record_publish, record_connect}
use stream_fence_js.Server.{websocket_only}
use stream_fence_js.Prom.{Counter, PromClient, new_prom, record_all}
use stream_fence_js.Prom.Measures.{Measure, counter_of, total, added}
use stream_fence_js.Prom.Totals.{IsPrometheus}
use stream_fence_js.Prom.Registered.{record_all-new_prom}
use stream_fence_js.Bootstrap.{
  Platform, SocketServerBootstrap, Options, bound_to, new_bootstrap, start, stop, io_server,
}
use stream_fence_js.Bootstrap.Calls.{
  starting, stopping, after, IsPaired, after-new_bootstrap, start-Throws,
}
use stream_fence_js.Directories.{spill_directory, sanitize_path_segment}
use stream_fence_js.Directories.Segments.{IsClean, spill_directory-IsClean, spill_directory-shared}

-- A registry: the label names of each name, and the values.
abbrev Metrics : Type 0
Metrics = List (String × List String) × (String → List String → ℕ)

register_in : Counter → Metrics → Result Metrics
register_in c (names, values) = elim (Dict.get c.name names) [
  | some _ ↦ throws "already registered"
  | none ↦
      ok (Dict.set c.name c.label_names names, λ n ls. if str_eq c.name n then 0 else values n ls)
]

inc_in : Counter → List String → ℕ → Metrics → Result Metrics
inc_in c labels k (names, values) = elim (Dict.get c.name names) [
  | none ↦ throws "not registered"
  | some label_names ↦
      if length labels == length label_names
      then ok (names, λ n ls. values n ls + added c labels k n ls)
      else throws "wrong number of labels"
]

abbrev prometheus : PromClient
prometheus = record { Registry = Metrics; register = register_in; inc = inc_in }

registers :
    (c : Counter) (r : Metrics)
    → Dict.get c.name r.0 ≡ none
    → (r' : Metrics) × (register_in c r ≡ ok r')
      × ((n : String)
          → Dict.get n r'.0 ≡ (if str_eq c.name n then some c.label_names else Dict.get n r.0))
      × ((n : String) (ls : List String) → r'.1 n ls ≡ (if str_eq c.name n then 0 else r.1 n ls))
unfolding register_in
registers c (names, values) free = (
  (Dict.set c.name c.label_names names, λ n ls. if str_eq c.name n then 0 else values n ls),
  rw (free, register_in) refl,
  λ n. Dict.get-set c.name n c.label_names names,
  λ n ls. refl,
)

increments :
    (c : Counter) (labels : List String) (k : ℕ) (r : Metrics) (label_names : List String)
    → Dict.get c.name r.0 ≡ some label_names
    → length labels ≡ length label_names
    → (r' : Metrics) × (inc_in c labels k r ≡ ok r')
      × ((n : String) → Dict.get n r'.0 ≡ Dict.get n r.0)
      × ((n : String) (ls : List String) → r'.1 n ls ≡ r.1 n ls + added c labels k n ls)
unfolding inc_in
increments c labels k (names, values) label_names there size =
    let same : (length labels == length label_names) ≡ true = ground arith in
    (
      (names, λ n ls. values n ls + added c labels k n ls),
      rw (there, inc_in) (rw same refl),
      λ n. refl,
      λ n ls. refl,
    )

abbrev prometheus-IsPrometheus : IsPrometheus prometheus
prometheus-IsPrometheus = record {
  declared = λ r n. Dict.get n r.0;
  value = λ r n ls. r.1 n ls;
  registers = registers;
  increments = increments;
}

abbrev log : List Metric
log =
    record_publish "/feed" "prices" 4
    ∷ record_connect "/feed"
    ∷ record_publish "/feed" "prices" 6
    ∷ []

nothing_registered : (x : Measure) → Dict.get {V = List String} (counter_of x).name [] ≡ none
unfolding Dict.get
nothing_registered x = refl

record_all-new_prom_example :
    (r' : Metrics) × ((new_prom prometheus ([], λ n ls. 0) >>= record_all prometheus log) ≡ ok r')
    × ((x : Measure) (ls : List String) → r'.1 (counter_of x).name ls ≡ total x ls log)
record_all-new_prom_example =
    record_all-new_prom prometheus-IsPrometheus ([], λ n ls. 0) log nothing_registered

-- Servers without a state, where port 80 is taken.
abbrev platform : Platform
platform = record {
  Http = ℕ;
  Io = ℕ;
  World = ℕ;
  create_server = λ w. (w, w + 1);
  create_socket_server = λ http transports w. (http, w);
  listen = λ http port host w. (listen_on port, w);
  address = λ http w. bound_to (pos 5000);
  close_socket_server = λ io w. w;
  close_server = λ http w. w;
}
  where
    listen_on : ℤ → Result (Unit {0})
    listen_on (pos n) = if n == 80 then throws "EADDRINUSE" else ok tt
    listen_on _ = ok tt

abbrev options : ℕ → Options
options port = record {
  host = "localhost";
  port = pos port;
  engine_io_transport_mode = websocket_only;
}

after-new_bootstrap_example :
    let b =
      after (starting ∷ stopping ∷ starting ∷ []) (new_bootstrap {p = platform} (options 0) 0) in
    IsPaired b
    × (is_some b.http_server ≡ false → io_server b ≡ throws "SocketServerBootstrap not started")
    × (is_some (stop b).http_server ≡ false)
    × IsPaired (stop b)
after-new_bootstrap_example =
    after-new_bootstrap (starting ∷ stopping ∷ starting ∷ []) (options 0) 0

abbrev closed : SocketServerBootstrap platform
closed = record {
  options = options 80;
  http_server = none;
  socket_server = none;
  bound_port = pos 0;
  world = 0;
}

start-Throws_example :
    ((start closed).0 ≡ throws "EADDRINUSE")
    × (start (start closed).1 ≡ (ok tt, (start closed).1))
    × ((start closed).1.bound_port ≡ pos 0)
start-Throws_example = start-Throws closed "EADDRINUSE" 1 refl refl

abbrev join : List String → String
join [] = ""
join (s ∷ segments) = str_append s (str_append "/" (join segments))

spill_directory-IsClean_example :
    (segments : List String) × (spill_directory join "/spill" "/feed" "c:1" "a/b"
      ≡ join ("/spill" ∷ segments))
    × All IsClean segments
spill_directory-IsClean_example = spill_directory-IsClean join "/spill" "/feed" "c:1" "a/b"

spill_directory-shared_example :
    spill_directory join "/spill" "/feed" "c1" (str_append "a" (str_append ":" "b"))
    ≡ spill_directory join "/spill" "/feed" "c1" (str_append "a" (str_append "_" "b"))
spill_directory-shared_example = spill_directory-shared join "/spill" "/feed" "c1" "a" "b"

-- A segment of two dots is kept, and leads out of the directory it stands in.
dots_kept : sanitize_path_segment ".." ≡ ".."
unfolding sanitize_path_segment
dots_kept = refl
