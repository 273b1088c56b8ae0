-- ===== src/Config/Mapped.antt =====
-- What SpecMapper.ts returns, when it returns.
use stream_fence_js.Prelude.{
  bind_ok, ok_injective, ◌<◌, ◌≡◌, ◌↔◌, refl, ap, sym, ◌∙◌, subst, String, Option, none, some, List,
  [], ◌∷◌, arith, All, to_ℕ, Result, ok, ◌>>=◌, ◌>>◌, Option-cases, inl, inr, eq_iff,
}
use stream_fence_js.Prelude.Dict
use stream_fence_js.Policy.{
  OverflowAction, drop_oldest, reject_new, coalesce, snapshot_only, spill_to_disk, DeliveryMode,
}
use stream_fence_js.Namespace.{Fields, NamespaceSpec, builder, build, normalized, has_topic}
use stream_fence_js.Namespace.Builder
use stream_fence_js.Namespace.Validation.{
  IsValid, Lacks, build-IsValid, has_topic-Lacks, refuse_iff,
}
use stream_fence_js.Namespace.Policies.{normalized-in_flight}
use stream_fence_js.Server.{StreamFenceServerSpec}
use stream_fence_js.Config.{
  RawNamespaceConfig, RawServerEntry, RawServerConfig, parse, parse_overflow_action,
  parse_delivery_mode, given, namespace_builder, build_namespace_spec, build_namespace_specs,
  check_paths, tls_of, build_spec, map_server_config, parse_transport_mode,
  parse_engine_io_transport_mode, parse_auth_mode,
}

-- The text of an action in a configuration file.
abbrev pub overflow_name : OverflowAction → String
overflow_name drop_oldest = "DROP_OLDEST"
overflow_name reject_new = "REJECT_NEW"
overflow_name coalesce = "COALESCE"
overflow_name snapshot_only = "SNAPSHOT_ONLY"
overflow_name spill_to_disk = "SPILL_TO_DISK"

overflow_name-read :
    (namespace_path : String) (a : OverflowAction)
    → parse_overflow_action (some (overflow_name a)) namespace_path ≡ ok a
unfolding parse_overflow_action parse Dict.get
overflow_name-read namespace_path drop_oldest = refl
overflow_name-read namespace_path reject_new = refl
overflow_name-read namespace_path coalesce = refl
overflow_name-read namespace_path snapshot_only = refl
overflow_name-read namespace_path spill_to_disk = refl

read-overflow_name :
    (value namespace_path : String) (a : OverflowAction)
    → parse_overflow_action (some value) namespace_path ≡ ok a
    → value ≡ overflow_name a
unfolding parse_overflow_action parse Dict.get
read-overflow_name value namespace_path drop_oldest e = ground (arith, eq_iff "DROP_OLDEST" value)
read-overflow_name value namespace_path reject_new e = ground (arith, eq_iff "REJECT_NEW" value)
read-overflow_name value namespace_path coalesce e = ground (arith, eq_iff "COALESCE" value)
read-overflow_name value namespace_path snapshot_only e =
    ground (arith, eq_iff "SNAPSHOT_ONLY" value)
read-overflow_name value namespace_path spill_to_disk e =
    ground (arith, eq_iff "SPILL_TO_DISK" value)

-- `parseOverflowAction` reads a text as an action exactly if it is the action's name.
parse_overflow_action_iff :
    (value namespace_path : String) (a : OverflowAction)
    → (parse_overflow_action (some value) namespace_path ≡ ok a) ↔ (value ≡ overflow_name a)
parse_overflow_action_iff value namespace_path a = (
  read-overflow_name value namespace_path a,
  λ e.
      subst (λ v. parse_overflow_action (some v) namespace_path ≡ ok a) (sym e)
        (overflow_name-read namespace_path a),
)

given-path :
    {A : Type 0} (set : A → Fields → Fields) (o : Option A) (f : Fields)
    → ((value : A) (g : Fields) → (set value g).path ≡ g.path)
    → (given set o f).path ≡ f.path
unfolding given
given-path set none f h = refl
given-path set (some value) f h = h value f

namespace_builder-path :
    (ns : RawNamespaceConfig) (mode : DeliveryMode) (action : OverflowAction)
    → (namespace_builder ns mode action).path ≡ ns.path
unfolding namespace_builder builder Builder.topics Builder.overflow_action Builder.delivery_mode
    Builder.max_queued_messages_per_client Builder.max_queued_bytes_per_client
    Builder.ack_timeout_ms Builder.max_retries Builder.coalesce Builder.allow_polling
    Builder.max_in_flight Builder.auth_required
namespace_builder-path ns mode action =
    given-path _ ns.auth_required _ (λ v g. refl)
    ∙ given-path _ ns.max_in_flight _ (λ v g. refl)
    ∙ given-path _ ns.allow_polling _ (λ v g. refl)
    ∙ given-path _ ns.coalesce _ (λ v g. refl)
    ∙ given-path _ ns.max_retries _ (λ v g. refl)
    ∙ given-path _ ns.ack_timeout_ms _ (λ v g. refl)
    ∙ given-path _ ns.max_queued_bytes_per_client _ (λ v g. refl)
    ∙ given-path _ ns.max_queued_messages_per_client _ (λ v g. refl)

normalized-path : (f : Fields) → (normalized f).path ≡ f.path
unfolding normalized
normalized-path f = ground arith

-- A namespace specification as the server relies on it.
abbrev pub IsBuilt : NamespaceSpec → Type 0
IsBuilt spec = IsValid spec × (0 < to_ℕ spec.max_in_flight)

build-IsBuilt : (f spec : Fields) → build f ≡ ok spec → IsBuilt spec × (spec.path ≡ f.path)
build-IsBuilt f spec e =
    let (same, v) = (build-IsValid f spec).0 e in
    subst (λ (s : Fields). IsBuilt s × (s.path ≡ f.path)) (sym same)
      ((v, normalized-in_flight f), normalized-path f)

build_namespace_spec-IsBuilt :
    (ns : RawNamespaceConfig) (spec : NamespaceSpec)
    → build_namespace_spec ns ≡ ok spec
    → IsBuilt spec × (spec.path ≡ ns.path)
unfolding build_namespace_spec
build_namespace_spec-IsBuilt ns spec e =
    let action = parse_overflow_action ns.overflow_action ns.path in
    let (mode, _, e₁) =
      bind_ok (parse_delivery_mode ns.delivery_mode ns.path)
        (λ mode. action >>= λ a. build (namespace_builder ns mode a)) spec e in
    let (action, _, e₂) = bind_ok action (λ a. build (namespace_builder ns mode a)) spec e₁ in
    let (built, path) = build-IsBuilt (namespace_builder ns mode action) spec e₂ in
    (built, path ∙ namespace_builder-path ns mode action)

abbrev pub paths : List NamespaceSpec → List String
paths [] = []
paths (spec ∷ specs) = spec.path ∷ paths specs

abbrev raw_paths : List RawNamespaceConfig → List String
raw_paths [] = []
raw_paths (ns ∷ rest) = ns.path ∷ raw_paths rest

-- No text of the list is in `seen`, and none occurs twice.
abbrev pub AreDistinct : List String → List String → Type 0
AreDistinct seen [] = Unit {0}
AreDistinct seen (x ∷ xs) = Lacks seen x × AreDistinct (x ∷ seen) xs

build_namespace_specs-IsBuilt :
    (nss : List RawNamespaceConfig) (specs : List NamespaceSpec)
    → build_namespace_specs nss ≡ ok specs
    → All IsBuilt specs × (paths specs ≡ raw_paths nss)
unfolding build_namespace_specs
build_namespace_specs-IsBuilt [] specs e =
    subst (λ s. All IsBuilt s × (paths s ≡ [])) (ok_injective e) (tt, refl)
build_namespace_specs-IsBuilt (ns ∷ nss) specs e =
    let later = build_namespace_specs nss in
    let (spec, e₁, f) =
      bind_ok (build_namespace_spec ns) (λ spec. later >>= λ rest. ok (spec ∷ rest)) specs e in
    let (rest, e₂, g) = bind_ok later (λ rest. ok (spec ∷ rest)) specs f in
    let (first, path) = build_namespace_spec-IsBuilt ns spec e₁ in
    let (others, same) = build_namespace_specs-IsBuilt nss rest e₂ in
    subst (λ s. All IsBuilt s × (paths s ≡ raw_paths (ns ∷ nss))) (ok_injective g)
      ((first, others), ground (arith, path, same))

check_paths-AreDistinct :
    (server_name : String) (seen : List String) (nss : List RawNamespaceConfig)
    → check_paths server_name seen nss ≡ ok tt
    → AreDistinct seen (raw_paths nss)
unfolding check_paths
check_paths-AreDistinct server_name seen [] e = tt
check_paths-AreDistinct server_name seen (ns ∷ nss) e =
    let rest = check_paths server_name (ns.path ∷ seen) nss in
    let (fresh, e₁) = (refuse_iff (has_topic seen ns.path) _ rest tt).0 e in
    (
      (has_topic-Lacks seen ns.path).0 fresh,
      check_paths-AreDistinct server_name (ns.path ∷ seen) nss e₁,
    )

-- The last two of the checks that come before a result is put together.
parts :
    {T G A S N R : Type 0} (t : Result T) (g : Result G) (a : Result A) (s : Result S)
    (c : Result (Unit {0})) (n : Result N) (make : T → G → A → S → N → R) (of : R → N) (r : R)
    → ((t : T) (g : G) (a : A) (s : S) (n : N) → of (make t g a s n) ≡ n)
    → (t >>= λ t. g >>= λ g. a >>= λ a. s >>= λ s. c >> (n >>= λ n. ok (make t g a s n))) ≡ ok r
    → (c ≡ ok tt) × (n ≡ ok (of r))
parts (ok t) (ok g) (ok a) (ok s) (ok tt) (ok n) make of r same e =
    (refl, ap ok (sym (same t g a s n) ∙ ap of (ok_injective e)))
parts t g a s c n make of r same e = absurd (ground arith)

module _ {V L M : Type 0} (noop_metrics : M) where
  build_spec-IsBuilt :
      (entry : RawServerEntry) (server_name : String) (spec : StreamFenceServerSpec V L M)
      → build_spec noop_metrics entry server_name ≡ ok spec
      → All IsBuilt spec.namespaces × AreDistinct [] (paths spec.namespaces)
  unfolding build_spec
  build_spec-IsBuilt entry server_name spec e =
      let (checked, made) =
        parts (parse_transport_mode entry.transport)
          (parse_engine_io_transport_mode entry.engine_io_transport) (parse_auth_mode entry.auth)
          (tls_of entry.tls) (check_paths server_name [] entry.namespaces)
          (build_namespace_specs entry.namespaces) _ (λ r. r.namespaces) spec (λ t g a s n. refl)
          e in
      let (built, same) = build_namespace_specs-IsBuilt entry.namespaces spec.namespaces made in
      (
        built,
        subst (AreDistinct []) (sym same)
            (check_paths-AreDistinct server_name [] entry.namespaces checked),
      )

  -- In every specification that `mapServerConfig` returns, each namespace meets all the rules of
  -- a built one and has a positive in-flight budget, and no path occurs twice.
  pub map_server_config-IsBuilt :
      (config : RawServerConfig) (server_name : String) (spec : StreamFenceServerSpec V L M)
      → map_server_config noop_metrics config server_name ≡ ok spec
      → All IsBuilt spec.namespaces × AreDistinct [] (paths spec.namespaces)
  unfolding map_server_config
  map_server_config-IsBuilt config server_name spec e =
      elim (Option-cases (Dict.get server_name config.servers)) [
        | inl missing ↦ absurd (ground arith)
        | inr (entry, found) ↦ build_spec-IsBuilt entry server_name spec (ground arith)
      ]
