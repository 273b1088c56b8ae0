-- ===== src/Prelude/Dict.antt =====
-- `Map<string, V>` and `Set<string>`: an association list in the order of insertion.
-- `set` writes in place under a key that is there, and appends under a new one.
use Prim.Native.String.{String}
use text.Mathlib.Text.{◌==◌ as str_eq}
use text.Mathlib.TextEquality.{eq_iff}
use mathlib.Core.Path.{◌≡◌, refl}
use mathlib.Core.Bool.{Bool, true, false}
use mathlib.Core.Option.{Option, none, some}
use mathlib.Core.List.{List, [], ◌∷◌, map}
use native.Mathlib.Omega.{arith}
use mathlib.Core.Logic.{◌⊎◌, ◌≢◌, inl, inr}
use stream_fence_js.Prelude.Tests.{Bool-cases, if◌then◌else◌}

module _ {V : Type 0} where
  unfoldable pub get : String → List (String × V) → Option V
  get k [] = none
  get k ((j, v) ∷ m) = if str_eq j k then some v else get k m

  unfoldable pub set : String → V → List (String × V) → List (String × V)
  set k v [] = (k, v) ∷ []
  set k v ((j, w) ∷ m) = if str_eq j k then (j, v) ∷ m else (j, w) ∷ set k v m

  unfoldable pub delete : String → List (String × V) → List (String × V)
  delete k [] = []
  delete k ((j, w) ∷ m) = let rest = delete k m in if str_eq j k then rest else (j, w) ∷ rest

  abbrev pub is_some : Option V → Bool
  is_some none = false
  is_some (some v) = true

  unfoldable pub has : String → List (String × V) → Bool
  unfolding get
  has k m = is_some (get k m)

  pub get-set :
      (k j : String) (v : V) (m : List (String × V))
      → get j (set k v m) ≡ (if str_eq k j then some v else get j m)
  unfolding get set
  get-set k j v [] = refl
  get-set k j v ((i, w) ∷ m) = ground (arith, eq_iff k j, eq_iff i k, eq_iff i j, get-set k j v m)

  pub get-delete :
      (k j : String) (m : List (String × V))
      → get j (delete k m) ≡ (if str_eq k j then none else get j m)
  unfolding get delete
  get-delete k j [] = ground arith
  get-delete k j ((i, w) ∷ m) = ground (arith, eq_iff k j, eq_iff i k, eq_iff i j, get-delete k j m)

  -- A lookup in a map with changed values.
  pub get-map :
      (k : String) (f : V → V) (w : V) (m : List (String × V))
      → get k (map (λ (j, v). (j, f v)) m) ≡ some w
      → (v : V) × (get k m ≡ some v) × (w ≡ f v)
  unfolding get
  get-map k f w [] e = absurd (ground arith)
  get-map k f w ((j, v) ∷ m) e = elim (Bool-cases (str_eq j k)) [
    | inl here ↦ (v, ground arith, ground arith)
    | inr later ↦ let (u, there, same) = get-map k f w m (ground arith) in (u, ground arith, same)
  ]

  -- Where an entry that is found after a write or a removal comes from.
  pub get-set_cases :
      (k j : String) (v w : V) (m : List (String × V))
      → get j (set k v m) ≡ some w
      → ((k ≡ j) × (w ≡ v)) ⊎ ((k ≢ j) × (get j m ≡ some w))
  get-set_cases k j v w m e = elim (Bool-cases (str_eq k j)) [
    | inl same ↦ inl ((eq_iff k j).0 same, ground (arith, get-set k j v m))
    | inr other ↦ inr (λ f. ground (arith, eq_iff k j), ground (arith, get-set k j v m))
  ]

  pub get-delete_cases :
      (k j : String) (w : V) (m : List (String × V))
      → get j (delete k m) ≡ some w
      → (k ≢ j) × (get j m ≡ some w)
  get-delete_cases k j w m e = (
    λ f. ground (arith, eq_iff k j, get-delete k j m),
    ground (arith, eq_iff k j, get-delete k j m),
  )

  -- The keys are distinct, as those of a `Map` are.
  abbrev pub IsDict : List (String × V) → Type 0
  IsDict [] = Unit {0}
  IsDict ((j, v) ∷ m) = (get j m ≡ none) × IsDict m

  pub set-IsDict : (k : String) (v : V) (m : List (String × V)) → IsDict m → IsDict (set k v m)
  unfolding get set
  set-IsDict k v [] d = ground arith
  set-IsDict k v ((j, w) ∷ m) d = elim (Bool-cases (str_eq j k)) [
    | inl here ↦ rw here d
    | inr later ↦
        rw later (ground (arith, get-set k j v m, eq_iff k j, eq_iff j k), set-IsDict k v m d.1)
  ]

  pub delete-IsDict : (k : String) (m : List (String × V)) → IsDict m → IsDict (delete k m)
  unfolding delete
  delete-IsDict k [] d = tt
  delete-IsDict k ((j, w) ∷ m) d = elim (Bool-cases (str_eq j k)) [
    | inl here ↦ rw here (delete-IsDict k m d.1)
    | inr later ↦ rw later (ground (arith, get-delete k j m), delete-IsDict k m d.1)
  ]
