-- ===== src/Config/Loader.antt =====
-- src/internal/config/ServerConfigLoader.ts: the choice of the parser and the errors. The file
-- system, the two parsers and the path functions are a parameter.
use Prim.Native.String.{◌++◌ as str_append}
use stream_fence_js.Prelude.{String, ◌||◌, not, Result, ok, throws, ◌>>=◌, str_eq, if◌then◌else◌}
use stream_fence_js.Config.{RawServerConfig}

-- What is used of the platform: `extname(path).toLowerCase()`, `readFileSync`, and the parsers of
-- JSON and YAML, with the message of what they throw.
pub record Files : Type 0 where
  pub extension : String → String
  pub read_file : String → Result String
  pub parse_json : String → Result RawServerConfig
  pub parse_yaml : String → Result RawServerConfig

-- A thrown message with a text before it.
abbrev pub rethrow : {A : Type 0} → String → Result A → Result A
rethrow text (ok a) = ok a
rethrow text (throws message) = throws (str_append text message)

unfoldable pub load_server_config : Files → String → Result RawServerConfig
load_server_config files file_path =
    let ext = files.extension file_path in
    let quoted = str_append " config file \"" (str_append file_path "\": ") in
    let loaded = do
      raw ← rethrow (str_append "Failed to read" quoted) (files.read_file file_path)
      rethrow (str_append "Failed to parse" quoted)
          (if str_eq ext ".json" then files.parse_json raw else files.parse_yaml raw)
    in if not (str_eq ext ".yaml" || str_eq ext ".yml" || str_eq ext ".json")
      then throws (
          str_append "Unsupported config file extension \""
            (str_append ext (str_append "\" (expected .yaml, .yml, or .json): " file_path)))
      else loaded
