-- ===== src/Tokens.antt =====
-- src/internal/security/StaticTokenValidator.ts, src/internal/security/TokenExtractor.ts and
-- src/AuthDecision.ts: tokens of clients.
pub mod Accepted
use Prim.Native.Char.{code}
use Prim.Native.String.{String, ◌++◌ as str_append}
use stream_fence_js.Prelude.{
  ℕ, ◌+◌, Bool, true, false, not, ◌&&◌, ◌||◌, Option, none, some, List, [], ◌∷◌, ◌==◌, leb,
  is_blank, is_space, str_eq, if◌then◌else◌,
}
use stream_fence_js.Sessions.{has_member, add}

pub record AuthDecision : Type 0 where
  pub accepted : Bool
  pub principal : Option String
  pub reason : String

abbrev pub accept : String → AuthDecision
accept principal = record { accepted = true; principal = some principal; reason = "accepted" }

abbrev pub reject : String → AuthDecision
reject reason = record { accepted = false; principal = none; reason = reason }

-- `trim()`: what is left behind the white space, and then before it.
unfoldable pub trim_start : String → String
trim_start String.[] = ""
trim_start (String.◌∷◌ c s) =
    let rest = trim_start s in if is_space (code c) then rest else String.◌∷◌ c s

unfoldable pub trim_end : String → String
trim_end String.[] = ""
trim_end (String.◌∷◌ c s) =
    let rest = String.◌∷◌ c (trim_end s) in if is_blank (String.◌∷◌ c s) then "" else rest

unfoldable pub trim : String → String
unfolding trim_start trim_end
trim s = trim_end (trim_start s)

-- The set that the constructor fills.
unfoldable pub allow : List String → List String → List String
unfolding trim
allow [] allowed = allowed
allow (token ∷ tokens) allowed =
    let normalized = trim token in
    allow tokens (if str_eq normalized "" then allowed else add normalized allowed)

unfoldable pub validate : List String → String → AuthDecision
validate allowed token = if has_member token allowed then accept token else reject "invalid token"

-- A handshake: its `auth.token` and its authorization header, where they are texts.
pub record HandshakeLike : Type 0 where
  pub auth_token : Option String
  pub authorization : Option String

-- Of a value, which is none if it is no text.
unfoldable pub as_token_string : Option String → Option String
unfolding trim
as_token_string none = none
as_token_string (some value) =
    let token = trim value in if str_eq token "" then none else some token

-- The text behind letters, given by the codes of their capitals, in any case.
unfoldable pub strip_letters : List ℕ → String → Option String
strip_letters [] s = some s
strip_letters (letter ∷ letters) String.[] = none
strip_letters (letter ∷ letters) (String.◌∷◌ c s) =
    let rest = strip_letters letters s in
    if code c == letter || code c == letter + 32 then rest else none

-- Whether `.` matches all of the text.
unfoldable pub is_one_line : String → Bool
is_one_line String.[] = true
is_one_line (String.◌∷◌ c s) =
    not (code c == 10 || code c == 13 || code c == 0x2028 || code c == 0x2029) && is_one_line s

-- `\s+(.+)$` on a text without white space at its end.
unfoldable pub captured : String → Option String
unfolding trim_start is_one_line
captured String.[] = none
captured (String.◌∷◌ c s) =
    let rest = trim_start s in
    if is_space (code c) && not (str_eq rest "") && is_one_line rest then some rest else none

-- `/^Bearer\s+(.+)$/i`
unfoldable pub bearer : String → Option String
unfolding strip_letters captured
bearer s = elim (strip_letters (66 ∷ 69 ∷ 65 ∷ 82 ∷ 69 ∷ 82 ∷ []) s) [
  | none ↦ none
  | some rest ↦ captured rest
]

unfoldable pub extract_token_from_handshake : HandshakeLike → Option String
unfolding as_token_string trim bearer
extract_token_from_handshake h = elim (as_token_string h.auth_token) [
  | some token ↦ some token
  | none ↦ elim h.authorization [ none ↦ none | some value ↦ as_token_string (bearer (trim value)) ]
]
