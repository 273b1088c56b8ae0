-- ===== src/Prom/Totals.antt =====
-- The counters against the log of what was recorded.
use stream_fence_js.Prelude.{
  ℕ, ◌+◌, ◌≡◌, refl, sym, ap, ◌∙◌, String, Option, none, some, List, [], ◌∷◌, length, Result, ok,
  ◌>>=◌, str_eq, arith, if◌then◌else◌,
}
use stream_fence_js.Events.{
  Metric, record_connect, record_disconnect, record_publish, record_received, record_queue_overflow,
  record_retry, record_retry_exhausted, record_dropped, record_coalesced, record_spill,
  record_auth_rejected, record_auth_rate_limited,
}
use stream_fence_js.Prom.{Counter, PromClient, record_metric, record_all}
use stream_fence_js.Prom.Measures.{
  Measure, connections, disconnections, published, published_bytes, received, received_bytes,
  overflows, retries, exhausted, dropped, coalesced, spilled, rejected, rate_limited, counter_of,
  added, measures, total, measures-record_connect, measures-record_disconnect,
  measures-record_publish, measures-record_received, measures-record_queue_overflow,
  measures-record_retry, measures-record_retry_exhausted, measures-record_dropped,
  measures-record_coalesced, measures-record_spill, measures-record_auth_rejected,
  measures-record_auth_rate_limited,
}

-- What prom-client does: a new name is registered with its label names and the value 0, and an
-- increment with as many labels as there are label names adds to the value under those labels.
pub record IsPrometheus (p : PromClient) : Type 0 where
  pub declared : p.Registry → String → Option (List String)
  pub value : p.Registry → String → List String → ℕ
  pub registers :
      (c : Counter) (r : p.Registry)
      → declared r c.name ≡ none
      → (r' : p.Registry) × (p.register c r ≡ ok r')
        × ((n : String)
            → declared r' n ≡ (if str_eq c.name n then some c.label_names else declared r n))
        × ((n : String) (ls : List String)
            → value r' n ls ≡ (if str_eq c.name n then 0 else value r n ls))
  pub increments :
      (c : Counter) (labels : List String) (k : ℕ) (r : p.Registry) (names : List String)
      → declared r c.name ≡ some names
      → length labels ≡ length names
      → (r' : p.Registry) × (p.inc c labels k r ≡ ok r')
        × ((n : String) → declared r' n ≡ declared r n)
        × ((n : String) (ls : List String) → value r' n ls ≡ value r n ls + added c labels k n ls)

module _ {p : PromClient} (law : IsPrometheus p) where
  -- Every counter is registered.
  abbrev pub IsReady : p.Registry → Type 0
  IsReady r = (x : Measure) → law.declared r (counter_of x).name ≡ some (counter_of x).label_names

  abbrev pub value_of : p.Registry → Measure → List String → ℕ
  value_of r x ls = law.value r (counter_of x).name ls

  abbrev Adds : Measure → List String → ℕ → p.Registry → Result p.Registry → Type 0
  Adds y labels k r result =
      (r' : p.Registry) × (result ≡ ok r')
      × IsReady r'
      × ((x : Measure) (ls : List String)
          → value_of r' x ls
            ≡ value_of r x ls + added (counter_of y) labels k (counter_of x).name ls)

  inc-Adds :
      (y : Measure) (labels : List String) (k : ℕ) (r : p.Registry)
      → IsReady r
      → length labels ≡ length (counter_of y).label_names
      → Adds y labels k r (p.inc (counter_of y) labels k r)
  inc-Adds y labels k r ready size =
      let (r', done, declared, values) =
        law.increments (counter_of y) labels k r _ (ready y) size in
      (r', done, λ x. declared (counter_of x).name ∙ ready x, λ x ls. values (counter_of x).name ls)

  -- The call is recorded, and each counter grows by what it measures of the call.
  abbrev IsRecorded : Metric → p.Registry → Result p.Registry → Type 0
  IsRecorded m r result =
      (r' : p.Registry) × (result ≡ ok r')
      × IsReady r'
      × ((x : Measure) (ls : List String) → value_of r' x ls ≡ value_of r x ls + measures x ls m)

  once :
      (y : Measure) (labels : List String) (k : ℕ) (m : Metric) (r : p.Registry)
      → IsReady r
      → length labels ≡ length (counter_of y).label_names
      → ((x : Measure) (ls : List String)
          → measures x ls m ≡ added (counter_of y) labels k (counter_of x).name ls)
      → IsRecorded m r (p.inc (counter_of y) labels k r)
  once y labels k m r ready size same =
      let (r', done, ready', values) = inc-Adds y labels k r ready size in
      (r', done, ready', λ x ls. values x ls ∙ ap (λ n. value_of r x ls + n) (sym (same x ls)))

  twice :
      (y z : Measure) (labels : List String) (k n : ℕ) (m : Metric) (r : p.Registry)
      → IsReady r
      → length labels ≡ length (counter_of y).label_names
      → length labels ≡ length (counter_of z).label_names
      → ((x : Measure) (ls : List String)
          → measures x ls m
            ≡ added (counter_of y) labels k (counter_of x).name ls
              + added (counter_of z) labels n (counter_of x).name ls)
      → IsRecorded m r (p.inc (counter_of y) labels k r >>= p.inc (counter_of z) labels n)
  twice y z labels k n m r ready size size' same =
      let (r1, first, ready1, values1) = inc-Adds y labels k r ready size in
      let (r2, second, ready2, values2) = inc-Adds z labels n r1 ready1 size' in
      (
        r2,
        rw first second,
        ready2,
        λ x ls. values2 x ls ∙ sums _ _ _ _ _ (values1 x ls) (same x ls),
      )
    where
      sums : (a b c d e : ℕ) → a ≡ b + c → d ≡ c + e → a + e ≡ b + d
      sums a b c d e p q = omega (arith, p, q)

  record_metric-IsRecorded :
      (m : Metric) (r : p.Registry) → IsReady r → IsRecorded m r (record_metric p m r)
  unfolding record_metric
  record_metric-IsRecorded (record_connect ns) r ready =
      once connections (ns ∷ []) 1 (record_connect ns) r ready refl
        (λ x ls. measures-record_connect x ls ns)
  record_metric-IsRecorded (record_disconnect ns) r ready =
      once disconnections (ns ∷ []) 1 (record_disconnect ns) r ready refl
        (λ x ls. measures-record_disconnect x ls ns)
  record_metric-IsRecorded (record_publish ns t b) r ready =
      twice published published_bytes (ns ∷ t ∷ []) 1 b (record_publish ns t b) r ready refl refl
        (λ x ls. measures-record_publish x ls ns t b)
  record_metric-IsRecorded (record_received ns t b) r ready =
      twice received received_bytes (ns ∷ t ∷ []) 1 b (record_received ns t b) r ready refl refl
        (λ x ls. measures-record_received x ls ns t b)
  record_metric-IsRecorded (record_queue_overflow ns t reason) r ready =
      once overflows (ns ∷ t ∷ reason ∷ []) 1 (record_queue_overflow ns t reason) r ready refl
        (λ x ls. measures-record_queue_overflow x ls ns t reason)
  record_metric-IsRecorded (record_retry ns t) r ready =
      once retries (ns ∷ t ∷ []) 1 (record_retry ns t) r ready refl
        (λ x ls. measures-record_retry x ls ns t)
  record_metric-IsRecorded (record_retry_exhausted ns t) r ready =
      once exhausted (ns ∷ t ∷ []) 1 (record_retry_exhausted ns t) r ready refl
        (λ x ls. measures-record_retry_exhausted x ls ns t)
  record_metric-IsRecorded (record_dropped ns t) r ready =
      once dropped (ns ∷ t ∷ []) 1 (record_dropped ns t) r ready refl
        (λ x ls. measures-record_dropped x ls ns t)
  record_metric-IsRecorded (record_coalesced ns t) r ready =
      once coalesced (ns ∷ t ∷ []) 1 (record_coalesced ns t) r ready refl
        (λ x ls. measures-record_coalesced x ls ns t)
  record_metric-IsRecorded (record_spill ns t) r ready =
      once spilled (ns ∷ t ∷ []) 1 (record_spill ns t) r ready refl
        (λ x ls. measures-record_spill x ls ns t)
  record_metric-IsRecorded (record_auth_rejected ns) r ready =
      once rejected (ns ∷ []) 1 (record_auth_rejected ns) r ready refl
        (λ x ls. measures-record_auth_rejected x ls ns)
  record_metric-IsRecorded (record_auth_rate_limited ns) r ready =
      once rate_limited (ns ∷ []) 1 (record_auth_rate_limited ns) r ready refl
        (λ x ls. measures-record_auth_rate_limited x ls ns)

  pub record_all-total :
      (log : List Metric) (r : p.Registry)
      → IsReady r
      → (r' : p.Registry) × (record_all p log r ≡ ok r')
        × ((x : Measure) (ls : List String) → value_of r' x ls ≡ value_of r x ls + total x ls log)
  unfolding record_all
  record_all-total [] r ready = (r, refl, λ x ls. omega arith)
  record_all-total (m ∷ log) r ready =
      let (r1, first, ready1, values1) = record_metric-IsRecorded m r ready in
      let (r2, rest, values2) = record_all-total log r1 ready1 in
      (r2, rw first rest, λ x ls. omega (arith, values1 x ls, values2 x ls))
