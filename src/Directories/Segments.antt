-- ===== src/Directories/Segments.antt =====
-- What `sanitizePathSegment` leaves of a text.
use Prim.Native.Char.{code}
use Prim.Native.String.{String, ◌++◌ as str_append}
use text.Mathlib.TextLemmas.{append_assoc as str_append_assoc, nil-append, cons-append}
use stream_fence_js.Prelude.{
  ℕ, ◌≢◌, ◌≡◌, arith, refl, sym, ap, ◌∙◌, inl, inr, false, List, [], ◌∷◌, ◌++◌, Bool-cases, All,
  All-append, All-map,
}
use stream_fence_js.Directories.{
  is_reserved, sanitize_path_segment, namespace_segments, spill_directory,
}

-- A character that is neither a separator nor one that a file name may not have on some system.
abbrev pub IsSafe : ℕ → Type 0
IsSafe c =
    (c ≢ b'/')
    × (c ≢ b'\\')
    × (c ≢ b':')
    × (c ≢ b'"')
    × (c ≢ b'*')
    × (c ≢ b'?')
    × (c ≢ b'<')
    × (c ≢ b'>')
    × (c ≢ b'|')

-- All characters of a text are.
abbrev pub IsClean : String → Type 0
IsClean String.[] = Unit {0}
IsClean (String.◌∷◌ c s) = IsSafe (code c) × IsClean s

is_reserved-IsSafe : (c : ℕ) → is_reserved c ≡ false → IsSafe c
unfolding is_reserved
is_reserved-IsSafe c other = (
  λ e. ground arith,
  λ e. ground arith,
  λ e. ground arith,
  λ e. ground arith,
  λ e. ground arith,
  λ e. ground arith,
  λ e. ground arith,
  λ e. ground arith,
  λ e. ground arith,
)

IsSafe-is_reserved : (c : ℕ) → IsSafe c → is_reserved c ≡ false
unfolding is_reserved
IsSafe-is_reserved c safe =
    ground (arith, safe.0, safe.1, safe.2, safe.3, safe.4, safe.5, safe.6, safe.7, safe.8)

underscore-IsSafe : IsSafe b'_'
underscore-IsSafe = (
  λ e. omega arith,
  λ e. omega arith,
  λ e. omega arith,
  λ e. omega arith,
  λ e. omega arith,
  λ e. omega arith,
  λ e. omega arith,
  λ e. omega arith,
  λ e. omega arith,
)

pub sanitize_path_segment-IsClean : (s : String) → IsClean (sanitize_path_segment s)
unfolding sanitize_path_segment
sanitize_path_segment-IsClean String.[] = tt
sanitize_path_segment-IsClean (String.◌∷◌ c s) = elim (Bool-cases (is_reserved (code c))) [
  | inl reserved ↦
      rw reserved
        (rw cons-append (rw nil-append (underscore-IsSafe, sanitize_path_segment-IsClean s)))
  | inr other ↦ rw other (is_reserved-IsSafe (code c) other, sanitize_path_segment-IsClean s)
]

-- A text without reserved characters is left as it is.
pub sanitize_path_segment-clean : (s : String) → IsClean s → sanitize_path_segment s ≡ s
unfolding sanitize_path_segment
sanitize_path_segment-clean String.[] h = refl
sanitize_path_segment-clean (String.◌∷◌ c s) h =
    rw (IsSafe-is_reserved (code c) h.0) (ap (String.◌∷◌ c) (sanitize_path_segment-clean s h.1))

sanitize_path_segment-append :
    (s t : String)
    → sanitize_path_segment (str_append s t)
      ≡ str_append (sanitize_path_segment s) (sanitize_path_segment t)
unfolding sanitize_path_segment
sanitize_path_segment-append String.[] t =
    ap sanitize_path_segment (nil-append t) ∙ sym (nil-append (sanitize_path_segment t))
sanitize_path_segment-append (String.◌∷◌ c s) t = elim (Bool-cases (is_reserved (code c))) [
  | inl reserved ↦ rw cons-append (
      rw reserved (
        ap (str_append "_") (sanitize_path_segment-append s t)
        ∙ sym (str_append_assoc "_" (sanitize_path_segment s) (sanitize_path_segment t))))
  | inr other ↦ rw cons-append (
      rw other (
        ap (String.◌∷◌ c) (sanitize_path_segment-append s t)
        ∙ sym (cons-append c (sanitize_path_segment s) (sanitize_path_segment t))))
]

colon_itself : sanitize_path_segment ":" ≡ sanitize_path_segment "_"
unfolding sanitize_path_segment is_reserved
colon_itself = refl

-- `spillDirectory` joins the root with segments none of which has a slash, a backslash, or one of the
-- characters `:"*?<>|`, whatever the namespace, the client id and the topic are.
pub spill_directory-IsClean :
    (join : List String → String) (root namespace client_id topic : String)
    → (segments : List String) × (spill_directory join root namespace client_id topic
        ≡ join (root ∷ segments))
      × All IsClean segments
unfolding spill_directory namespace_segments
spill_directory-IsClean join root namespace client_id topic = (
  _,
  refl,
  All-append IsClean (namespace_segments namespace)
      (sanitize_path_segment client_id ∷ sanitize_path_segment topic ∷ [])
      (All-map IsClean sanitize_path_segment _ sanitize_path_segment-IsClean)
      (sanitize_path_segment-IsClean client_id, (sanitize_path_segment-IsClean topic, tt)),
)

-- Two topics whose names differ in one character, a colon in one and an underscore in the other,
-- have one directory for their disk queues.
pub spill_directory-shared :
    (join : List String → String) (root namespace client_id s t : String)
    → spill_directory join root namespace client_id (str_append s (str_append ":" t))
      ≡ spill_directory join root namespace client_id (str_append s (str_append "_" t))
unfolding spill_directory
spill_directory-shared join root namespace client_id s t =
    ap
      (λ topic.
        join (root ∷ namespace_segments namespace ++ sanitize_path_segment client_id ∷ topic ∷ []))
      (sanitize_path_segment-append s (str_append ":" t)
        ∙ ap (str_append (sanitize_path_segment s)) (colon t)
        ∙ sym (sanitize_path_segment-append s (str_append "_" t)))
  where
    colon :
        (t : String)
        → sanitize_path_segment (str_append ":" t) ≡ sanitize_path_segment (str_append "_" t)
    colon t =
        sanitize_path_segment-append ":" t
        ∙ ap (λ s. str_append s (sanitize_path_segment t)) colon_itself
        ∙ sym (sanitize_path_segment-append "_" t)
