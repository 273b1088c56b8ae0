-- ===== src/Tests/Builders.antt =====
-- The theorems on StreamFenceServerBuilder.ts at a concrete builder.
use stream_fence_js.Prelude.{ℕ, ◌≡◌, ◌≢◌, refl, [], ◌∷◌, ok, throws, arith}
use stream_fence_js.Config.Loader.{Files}
use stream_fence_js.Config.Mapped.{AreDistinct, paths}
use stream_fence_js.Builder.{
  StreamFenceServerBuilder, some_path, namespace, build_spec, build_server, new_builder,
}
use stream_fence_js.Builder.Paths.{fresh, extended, build_server-AreDistinct}
use stream_fence_js.Tests.Configs.{feed_spec}

-- No file can be read.
abbrev no_files : Files
no_files = record {
  extension = λ path. "";
  read_file = λ path. throws "ENOENT";
  parse_json = λ text. throws "no JSON";
  parse_yaml = λ text. throws "no YAML";
}

abbrev one_namespace : StreamFenceServerBuilder ℕ ℕ ℕ
one_namespace = record (new_builder 0) { namespaces_value = feed_spec ∷ [] }

one_namespace_added : namespace feed_spec (new_builder 0) ≡ ok one_namespace
unfolding namespace some_path
one_namespace_added = refl

one_namespace_builds : build_server one_namespace ≡ ok (build_spec one_namespace)
unfolding build_server
one_namespace_builds = ground arith

build_server-AreDistinct_example :
    ((build_spec one_namespace).namespaces ≢ [])
    × AreDistinct [] (paths (build_spec one_namespace).namespaces)
build_server-AreDistinct_example =
    build_server-AreDistinct no_files 0 one_namespace (build_spec one_namespace)
      (extended feed_spec fresh one_namespace_added) one_namespace_builds
