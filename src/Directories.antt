-- ===== src/Directories.antt =====
-- The directories of disk queues: `spillDirectory` of src/StreamFenceServer.ts and
-- src/internal/delivery/DiskSpillQueueFactory.ts. `join` of node:path is a parameter.
pub mod Segments
pub mod LaneFactory
use Prim.Native.Char.{code}
use Prim.Native.String.{String, ◌++◌ as str_append}
use stream_fence_js.Prelude.{
  ℕ, Bool, true, false, ◌||◌, List, [], ◌∷◌, ◌++◌, map, str_eq, ◌==◌, if◌then◌else◌,
}

-- The characters of `/[\\/:"*?<>|]/`.
unfoldable pub is_reserved : ℕ → Bool
is_reserved c =
    c == b'\\'
    || c == b'/'
    || c == b':'
    || c == b'"'
    || c == b'*'
    || c == b'?'
    || c == b'<'
    || c == b'>'
    || c == b'|'

unfoldable pub sanitize_path_segment : String → String
unfolding is_reserved
sanitize_path_segment String.[] = ""
sanitize_path_segment (String.◌∷◌ c s) =
    let rest = sanitize_path_segment s in
    if is_reserved (code c) then str_append "_" rest else String.◌∷◌ c rest

-- `text.split('/')`: the first piece and those that follow.
unfoldable pub split_slashes : String → String × List String
split_slashes String.[] = ("", [])
split_slashes (String.◌∷◌ c s) =
    let (first, others) = split_slashes s in
    if code c == b'/' then ("", first ∷ others) else (String.◌∷◌ c first, others)

unfoldable pub non_empty : List String → List String
non_empty [] = []
non_empty (s ∷ segments) = let rest = non_empty segments in if str_eq s "" then rest else s ∷ rest

unfoldable pub namespace_segments : String → List String
unfolding split_slashes non_empty sanitize_path_segment
namespace_segments namespace =
    let (first, others) = split_slashes namespace in
    map sanitize_path_segment (non_empty (first ∷ others))

-- `spillDirectory`
unfoldable pub spill_directory : (List String → String) → String → String → String → String → String
unfolding namespace_segments sanitize_path_segment
spill_directory join spill_root_path namespace client_id topic = join (
    spill_root_path ∷ namespace_segments namespace
    ++ sanitize_path_segment client_id ∷ sanitize_path_segment topic ∷ [])

-- `namespace.replace(/\//g, '_')`
unfoldable pub slashes_to_underscores : String → String
slashes_to_underscores String.[] = ""
slashes_to_underscores (String.◌∷◌ c s) =
    let rest = slashes_to_underscores s in
    if code c == b'/' then str_append "_" rest else String.◌∷◌ c rest

-- `namespace.replace(/^\//, '')`
unfoldable pub without_first_slash : String → String
without_first_slash String.[] = ""
without_first_slash (String.◌∷◌ c s) = if code c == b'/' then s else String.◌∷◌ c s

unfoldable pub sanitized_namespace : String → String
unfolding without_first_slash slashes_to_underscores
sanitized_namespace namespace =
    let s = slashes_to_underscores (without_first_slash namespace) in
    if str_eq s "" then "_root" else s

-- `create` of the default factory, up to the queue in the directory.
unfoldable pub factory_directory :
    (List String → String) → String → String → String → String → String
unfolding sanitized_namespace
factory_directory join spill_root_path namespace client_id topic =
    join (spill_root_path ∷ sanitized_namespace namespace ∷ client_id ∷ topic ∷ [])
