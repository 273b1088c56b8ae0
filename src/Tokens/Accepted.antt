-- ===== src/Tokens/Accepted.antt =====
-- Which tokens StaticTokenValidator.ts accepts, and from which handshakes.
use stream_fence_js.Prelude.{
  ◌≡◌, inl, inr, false, ◌||◌, ◌&&◌, not, Bool, String, List, [], ◌∷◌, str_eq, eq_iff, arith,
  Bool-cases,
}
use stream_fence_js.Sessions.{has_member, add}
use stream_fence_js.Sessions.Members.{has_member-add}
use stream_fence_js.Tokens.{trim, allow, validate}

-- The token is not empty, and a configured text without its surrounding white space.
abbrev pub is_configured : List String → String → Bool
is_configured [] token = false
is_configured (t ∷ tokens) token =
    str_eq (trim t) token && not (str_eq token "") || is_configured tokens token

allow-member :
    (tokens allowed : List String) (token : String)
    → has_member token (allow tokens allowed)
      ≡ (has_member token allowed || is_configured tokens token)
unfolding allow
allow-member [] allowed token = ground arith
allow-member (t ∷ tokens) allowed token = elim (Bool-cases (str_eq (trim t) "")) [
  | inl empty ↦ rw empty (
      ground (
        arith,
        allow-member tokens allowed token,
        eq_iff (trim t) "",
        eq_iff (trim t) token,
        eq_iff token "",
      ))
  | inr text ↦ rw text (
      ground (
        arith,
        allow-member tokens (add (trim t) allowed) token,
        has_member-add token (trim t) allowed,
        eq_iff (trim t) "",
        eq_iff (trim t) token,
        eq_iff token "",
      ))
]

-- `validate` accepts a token exactly if it is not empty and one of the texts that the validator was
-- made with, without its surrounding white space.
pub validate_lem :
    (tokens : List String) (token : String)
    → (validate (allow tokens []) token).accepted ≡ is_configured tokens token
unfolding validate has_member
validate_lem tokens token = ground (arith, allow-member tokens [] token)
