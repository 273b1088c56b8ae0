-- ===== src/Tests/Tokens.antt =====
-- Tokens and handshakes, and the theorem on StaticTokenValidator.ts at concrete tokens.
use stream_fence_js.Prelude.{◌≡◌, refl, String, none, some, List, [], ◌∷◌, is_space, is_blank}
use stream_fence_js.Tokens.{allow, validate, HandshakeLike, extract_token_from_handshake}
use stream_fence_js.Tokens.Accepted.{is_configured, validate_lem}

abbrev tokens : List String
tokens = " secret " ∷ "  " ∷ []

validate_lem_example :
    (validate (allow tokens []) "secret").accepted ≡ is_configured tokens "secret"
validate_lem_example = validate_lem tokens "secret"

abbrev header : String → HandshakeLike
header value = record { auth_token = none; authorization = some value }

bearer_any_case : extract_token_from_handshake (header " bEARER   secret ") ≡ some "secret"
unfolding extract_token_from_handshake is_space is_blank
bearer_any_case = refl

bearer_without_space : extract_token_from_handshake (header "Bearersecret") ≡ none
unfolding extract_token_from_handshake is_space is_blank
bearer_without_space = refl
