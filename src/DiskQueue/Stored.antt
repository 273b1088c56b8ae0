-- ===== src/DiskQueue/Stored.antt =====
-- The files of entries that were written under successive numbers.
use Prim.Native.Char.{code}
use Prim.Native.String.{String, ◌++◌ as str_append}
use text.Mathlib.TextLemmas.{nil-append, cons-append}
use stream_fence_js.Prelude.{
  ℕ, suc, ◌+◌, ◌<◌, ◌≡◌, ◌≢◌, refl, sym, ap, ◌∙◌, inl, inr, true, ◌&&◌, Option, none, some, List,
  [], ◌∷◌, ◌++◌, length, arith, ltb, leb, Bool-cases, str_eq, eq_iff, if◌then◌else◌, pos,
}
use stream_fence_js.Prelude.Dict.{is_some}
use stream_fence_js.FileNames.{file_name, pad_start, number_text}
use stream_fence_js.FileNames.Sorted.{name_of, name_of_injective, str_eq-name_of}
use stream_fence_js.DiskQueue.{tmp_name}

module _ {A : Type 0} where
  -- The text of a file, where the first one is named by a number.
  abbrev pub stored : ℕ → List (A × String) → String → Option String
  stored lo [] x = none
  stored lo ((t, s) ∷ ts) x = if str_eq (name_of lo) x then some s else stored (suc lo) ts x

  pub stored_below : (lo k : ℕ) (ts : List (A × String)) → k < lo → stored lo ts (name_of k) ≡ none
  stored_below lo k [] h = refl
  stored_below lo k ((t, s) ∷ ts) h = ground (
    arith,
    eq_iff (name_of lo) (name_of k),
    name_of_injective lo k,
    stored_below (suc lo) k ts (omega (arith, h)),
  )

  pub stored_taken :
      (lo : ℕ) (x : String) (ts : List (A × String))
      → str_eq (name_of lo) x ≡ true
      → stored (suc lo) ts x ≡ none
  stored_taken lo x ts h =
      ap (stored (suc lo) ts) (sym ((eq_iff (name_of lo) x).0 h))
      ∙ stored_below (suc lo) lo ts (omega arith)

  pub stored-append :
      (lo : ℕ) (ts : List (A × String)) (t : A) (s x : String)
      → stored lo (ts ++ (t, s) ∷ []) x
        ≡ (if str_eq (name_of (lo + length ts)) x then some s else stored lo ts x)
  stored-append lo [] t s x = let e : lo + 0 ≡ lo = omega arith in rw e refl
  stored-append lo ((u, r) ∷ ts) t s x =
      let e : lo + suc (length ts) ≡ suc lo + length ts = omega arith in
      rw e (
        ground (
          arith,
          eq_iff (name_of lo) x,
          eq_iff (name_of (suc lo + length ts)) x,
          stored-append (suc lo) ts t s x,
          name_of_injective lo (suc lo + length ts),
        ))

  pub stored_named :
      (lo : ℕ) (ts : List (A × String)) (x : String)
      → is_some (stored lo ts x) ≡ true
      → (k : ℕ) × (x ≡ name_of k)
  stored_named lo [] x h = absurd (ground (arith, h))
  stored_named lo ((t, s) ∷ ts) x h = elim (Bool-cases (str_eq (name_of lo) x)) [
    | inl here ↦ (lo, sym ((eq_iff (name_of lo) x).0 here))
    | inr later ↦ stored_named (suc lo) ts x (ground (arith, h))
  ]

  pub stored_within :
      (lo : ℕ) (ts : List (A × String)) (k : ℕ)
      → is_some (stored lo ts (name_of k)) ≡ (leb lo k && ltb k (lo + length ts))
  stored_within lo [] k = ground arith
  stored_within lo ((t, s) ∷ ts) k =
      ground (arith, str_eq-name_of lo k, stored_within (suc lo) ts k)

-- The last code of a text.
last_code : ℕ → String → ℕ
last_code n String.[] = n
last_code n (String.◌∷◌ c s) = last_code (code c) s

last_code-append :
    (n : ℕ) (s t : String) → last_code n (str_append s t) ≡ last_code (last_code n s) t
unfolding last_code
last_code-append n String.[] t = rw nil-append refl
last_code-append n (String.◌∷◌ c s) t = rw cons-append (last_code-append (code c) s t)

-- The name that a file has while it is written is the name of no entry.
pub tmp_name-ne : (name : String) (k : ℕ) → tmp_name name ≢ name_of k
unfolding last_code file_name
tmp_name-ne name k e = absurd (
    omega (
      arith,
      ap (last_code 0) e,
      last_code-append 0 name ".tmp",
      last_code-append 0 (pad_start 8 (number_text (some (pos k)))) ".json",
    ))

stored-tmp_name :
    {A : Type 0} (lo : ℕ) (ts : List (A × String)) (name : String)
    → stored lo ts (tmp_name name) ≡ none
stored-tmp_name lo [] name = refl
stored-tmp_name lo ((t, s) ∷ ts) name = ground (
  arith,
  eq_iff (name_of lo) (tmp_name name),
  λ (e : name_of lo ≡ tmp_name name). tmp_name-ne name lo (sym e),
  stored-tmp_name (suc lo) ts name,
)

pub stored_unwritten :
    {A : Type 0} (lo : ℕ) (ts : List (A × String)) (name x : String)
    → str_eq (tmp_name name) x ≡ true
    → stored lo ts x ≡ none
stored_unwritten lo ts name x h =
    ap (stored lo ts) (sym ((eq_iff (tmp_name name) x).0 h)) ∙ stored-tmp_name lo ts name
