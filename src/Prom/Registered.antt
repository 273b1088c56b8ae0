-- ===== src/Prom/Registered.antt =====
-- The constructor on a registry that has none of the names, and the log that follows.
use stream_fence_js.Prelude.{
  ℕ, ◌+◌, ◌≡◌, refl, ap, ◌∙◌, Bool, true, not, ◌&&◌, All, All-map, String, Option, none, some, List,
  [], ◌∷◌, ok, ◌>>=◌, str_eq, eq_iff, arith, if◌then◌else◌,
}
use stream_fence_js.Prelude.Dict.{is_some}
use stream_fence_js.Events.{Metric}
use stream_fence_js.Prom.{Counter, PromClient, counters, register_all, new_prom, record_all}
use stream_fence_js.Prom.Measures.{Measure, connections, counter_of, total, measured_in_order}
use stream_fence_js.Prom.Totals.{IsPrometheus, record_all-total}

-- The label names that a list of counters gives a name.
abbrev found : List Counter → String → Option (List String)
found [] n = none
found (c ∷ cs) n = if str_eq c.name n then some c.label_names else found cs n

-- A name is none of a list of counters', and those of a list differ.
abbrev differs : String → List Counter → Bool
differs n [] = true
differs n (c ∷ cs) = not (str_eq n c.name) && differs n cs

abbrev are_distinct : List Counter → Bool
are_distinct [] = true
are_distinct (c ∷ cs) = differs c.name cs && are_distinct cs

found-counters :
    (x : Measure) → found counters (counter_of x).name ≡ some (counter_of x).label_names
found-counters connections = refl
found-counters _ = refl

are_distinct-counters : are_distinct counters ≡ true
are_distinct-counters = refl

found_none :
    (m n : String) (cs : List Counter) → differs m cs ≡ true → str_eq m n ≡ true → found cs n ≡ none
found_none m n [] d e = refl
found_none m n (c ∷ cs) d e =
    ground (arith, eq_iff m n, eq_iff c.name n, eq_iff m c.name, found_none m n cs)

abbrev or_else : Option (List String) → Option (List String) → Option (List String)
or_else none o = o
or_else (some ls) o = some ls

module _ {p : PromClient} (law : IsPrometheus p) where
  -- No counter of a list is registered.
  abbrev AreFree : p.Registry → List Counter → Type 0
  AreFree r cs = All (λ c. law.declared r c.name ≡ none) cs

  still_free :
      (r r' : p.Registry) (n : String) (labels : Option (List String)) (cs : List Counter)
      → ((m : String) → law.declared r' m ≡ (if str_eq n m then labels else law.declared r m))
      → differs n cs ≡ true
      → AreFree r cs
      → AreFree r' cs
  still_free r r' n labels [] declared d free = tt
  still_free r r' n labels (c ∷ cs) declared d free =
      (ground (arith, declared c.name), still_free r r' n labels cs declared (ground arith) free.1)

  register_all-found :
      (cs : List Counter) (r : p.Registry)
      → are_distinct cs ≡ true
      → AreFree r cs
      → (r' : p.Registry) × (register_all p cs r ≡ ok r')
        × ((n : String) → law.declared r' n ≡ or_else (found cs n) (law.declared r n))
        × ((n : String) (ls : List String)
            → law.value r' n ls ≡ (if is_some (found cs n) then 0 else law.value r n ls))
  unfolding register_all
  register_all-found [] r distinct free = (r, refl, λ n. refl, λ n ls. refl)
  register_all-found (c ∷ cs) r distinct free =
      let (r1, first, declared1, values1) = law.registers c r free.0 in
      let (r2, rest, declared2, values2) =
        register_all-found cs r1 (ground arith)
          (still_free r r1 c.name (some c.label_names) cs declared1 (ground arith) free.1) in
      (
        r2,
        rw first rest,
        λ n.
            declared2 n
            ∙ ap (or_else (found cs n)) (declared1 n)
            ∙ first_found c cs n (law.declared r n) (ground arith),
        λ n ls.
            values2 n ls
            ∙ ap (λ v. if is_some (found cs n) then 0 else v) (values1 n ls)
            ∙ first_value c cs n (law.value r n ls),
      )
    where
      first_found :
          (c : Counter) (cs : List Counter) (n : String) (o : Option (List String))
          → differs c.name cs ≡ true
          → or_else (found cs n) (if str_eq c.name n then some c.label_names else o)
            ≡ or_else (found (c ∷ cs) n) o
      first_found c cs n o d = ground (arith, found_none c.name n cs d)

      first_value :
          (c : Counter) (cs : List Counter) (n : String) (v : ℕ)
          → (if is_some (found cs n) then 0 else if str_eq c.name n then 0 else v)
            ≡ (if is_some (found (c ∷ cs) n) then 0 else v)
      first_value c cs n v = ground arith

  counters-AreFree :
      (r : p.Registry)
      → ((x : Measure) → law.declared r (counter_of x).name ≡ none)
      → AreFree r counters
  counters-AreFree r free =
      All-map (λ c. law.declared r c.name ≡ none) counter_of measured_in_order free

  -- On a prom-client registry that has none of the names, the constructor and any log of calls
  -- throw nothing, and the value of each counter under any labels is what it measures of the log.
  pub record_all-new_prom :
      (r : p.Registry) (log : List Metric)
      → ((x : Measure) → law.declared r (counter_of x).name ≡ none)
      → (r' : p.Registry) × ((new_prom p r >>= record_all p log) ≡ ok r')
        × ((x : Measure) (ls : List String) → law.value r' (counter_of x).name ls ≡ total x ls log)
  unfolding new_prom
  record_all-new_prom r log free =
      let (r1, made, declared, values) =
        register_all-found counters r are_distinct-counters (counters-AreFree r free) in
      let (r2, done, totals) = record_all-total law log r1 (λ x.
        declared (counter_of x).name
        ∙ ap (λ o. or_else o (law.declared r (counter_of x).name)) (found-counters x)) in
      (
        r2,
        rw made done,
        λ x ls.
            totals x ls
            ∙ from_zero _ _ (
                values (counter_of x).name ls
                ∙ ap (λ o. if is_some o then 0 else law.value r (counter_of x).name ls)
                    (found-counters x)),
      )
    where
      from_zero : (v t : ℕ) → v ≡ 0 → v + t ≡ t
      from_zero v t e = omega (arith, e)
