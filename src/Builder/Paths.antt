-- ===== src/Builder/Paths.antt =====
-- What StreamFenceServerBuilder.ts promises of the namespaces of a server.
use stream_fence_js.Prelude.{
  ◌≡◌, ◌≢◌, ap, sym, subst, false, String, List, [], ◌∷◌, ◌++◌, length, ◌==◌, str_eq, eq_iff, arith,
  Bool-cases, inl, inr, ok, ◌>>=◌, bind_ok, ok_injective,
}
use stream_fence_js.Namespace.{NamespaceSpec}
use stream_fence_js.Namespace.Validation.{Lacks}
use stream_fence_js.Server.{StreamFenceServerSpec}
use stream_fence_js.Config.{map_server_config}
use stream_fence_js.Config.Loader.{Files, load_server_config}
use stream_fence_js.Config.Mapped.{paths, AreDistinct, map_server_config-IsBuilt}
use stream_fence_js.Builder.{
  StreamFenceServerBuilder, Setting, some_path, set_value, namespace, build_spec, build_server,
  from_spec, new_builder, from_yaml, from_json,
}

module _ {V L M : Type 0} where
  -- What can be done with a builder.
  pub data Configured (files : Files) (noop : M) : StreamFenceServerBuilder V L M → Type 0 where
    fresh : Configured files noop (new_builder noop)
    loaded_yaml :
        {b : StreamFenceServerBuilder V L M} (file_path server : String)
        → from_yaml files noop file_path server ≡ ok b
        → Configured files noop b
    loaded_json :
        {b : StreamFenceServerBuilder V L M} (file_path server : String)
        → from_json files noop file_path server ≡ ok b
        → Configured files noop b
    changed :
        {b : StreamFenceServerBuilder V L M} (setting : Setting V L M)
        → Configured files noop b
        → Configured files noop (set_value setting b)
    extended :
        {b b' : StreamFenceServerBuilder V L M} (value : NamespaceSpec)
        → Configured files noop b
        → namespace value b ≡ ok b'
        → Configured files noop b'

paths-append :
    (seen : List String) (specs : List NamespaceSpec) (value : NamespaceSpec)
    → AreDistinct seen (paths specs)
    → Lacks seen value.path
    → some_path value.path specs ≡ false
    → AreDistinct seen (paths (specs ++ value ∷ []))
unfolding some_path
paths-append seen [] value d l f = (l, tt)
paths-append seen (x ∷ specs) value d l f =
    (d.0, paths-append (x.path ∷ seen) specs value d.1 (apart, l) (ground arith))
  where
    apart : x.path ≢ value.path
    apart e = ground (arith, eq_iff x.path value.path)

module _ {V L M : Type 0} where
  namespace-AreDistinct :
      (value : NamespaceSpec) (b b' : StreamFenceServerBuilder V L M)
      → AreDistinct [] (paths b.namespaces_value)
      → namespace value b ≡ ok b'
      → AreDistinct [] (paths b'.namespaces_value)
  unfolding namespace
  namespace-AreDistinct value b b' d e =
      elim (Bool-cases (some_path value.path b.namespaces_value)) [
        | inl twice ↦ absurd (ground arith)
        | inr once ↦
            let made : record b { namespaces_value = b.namespaces_value ++ value ∷ [] } ≡ b' =
              ok_injective (ground arith) in
            subst
              (λ (b : StreamFenceServerBuilder V L M). AreDistinct [] (paths b.namespaces_value))
              made (paths-append [] b.namespaces_value value d tt once)
      ]

  set_value-namespaces :
      (setting : Setting V L M) (b : StreamFenceServerBuilder V L M)
      → (set_value setting b).namespaces_value ≡ b.namespaces_value
  unfolding set_value
  set_value-namespaces setting b = ground arith

  module _ (files : Files) (noop : M) where
    from_yaml-AreDistinct :
        (file_path server : String) (b : StreamFenceServerBuilder V L M)
        → from_yaml files noop file_path server ≡ ok b
        → AreDistinct [] (paths b.namespaces_value)
    unfolding from_yaml from_spec
    from_yaml-AreDistinct file_path server b e =
        let (raw, _, mapped) =
          bind_ok (load_server_config files file_path)
            (λ raw. map_server_config noop raw server >>= λ spec. ok (from_spec spec)) b e in
        let (spec, found, made) =
          bind_ok (map_server_config noop raw server)
            (λ (spec : StreamFenceServerSpec V L M). ok (from_spec spec)) b mapped in
        subst (λ (b : StreamFenceServerBuilder V L M). AreDistinct [] (paths b.namespaces_value))
          (ok_injective made) (map_server_config-IsBuilt noop raw server spec found).1

    from_json-AreDistinct :
        (file_path server : String) (b : StreamFenceServerBuilder V L M)
        → from_json files noop file_path server ≡ ok b
        → AreDistinct [] (paths b.namespaces_value)
    unfolding from_json
    from_json-AreDistinct file_path server b e =
        elim (Bool-cases (str_eq (files.extension file_path) ".json")) [
          | inl json ↦ from_yaml-AreDistinct file_path server b (ground arith)
          | inr other ↦ absurd (ground arith)
        ]

    Configured-AreDistinct :
        (b : StreamFenceServerBuilder V L M)
        → Configured files noop b
        → AreDistinct [] (paths b.namespaces_value)
    Configured-AreDistinct b fresh = tt
    Configured-AreDistinct b (loaded_yaml file_path server e) =
        from_yaml-AreDistinct file_path server b e
    Configured-AreDistinct b (loaded_json file_path server e) =
        from_json-AreDistinct file_path server b e
    Configured-AreDistinct b (changed {b = old} setting c) =
        subst (λ n. AreDistinct [] (paths n)) (sym (set_value-namespaces setting old))
          (Configured-AreDistinct old c)
    Configured-AreDistinct b (extended {b = old} value c e) =
        namespace-AreDistinct value old b (Configured-AreDistinct old c) e

    -- A server that a builder makes, new or from a YAML or JSON file and after any calls of its
    -- methods, has at least one namespace, and no namespace path twice.
    pub build_server-AreDistinct :
        (b : StreamFenceServerBuilder V L M) (spec : StreamFenceServerSpec V L M)
        → Configured files noop b
        → build_server b ≡ ok spec
        → (spec.namespaces ≢ []) × AreDistinct [] (paths spec.namespaces)
    unfolding build_server build_spec
    build_server-AreDistinct b spec c e = elim (Bool-cases (length b.namespaces_value == 0)) [
      | inl empty ↦ absurd (ground arith)
      | inr some_there ↦
          let made : build_spec b ≡ spec = ok_injective (ground arith) in
          subst
            (λ (s : StreamFenceServerSpec V L M).
              (s.namespaces ≢ []) × AreDistinct [] (paths s.namespaces))
            made (λ none_there. ground (arith, ap length none_there), Configured-AreDistinct b c)
    ]
