-- ===== src/Prom/Measures.antt =====
-- What each counter measures, apart from the code that moves it.
use stream_fence_js.Prelude.{
  ℕ, ◌+◌, ◌≡◌, refl, Bool, true, false, ◌&&◌, String, List, [], ◌∷◌, str_eq, arith, if◌then◌else◌,
}
use stream_fence_js.Events.{
  Metric, record_connect, record_disconnect, record_publish, record_received, record_queue_overflow,
  record_retry, record_retry_exhausted, record_dropped, record_coalesced, record_spill,
  record_auth_rejected, record_auth_rate_limited,
}
use stream_fence_js.Prom.{
  Counter, connections_total, disconnections_total, published_total, published_bytes_total,
  received_total, received_bytes_total, queue_overflow_total, retries_total,
  retries_exhausted_total, dropped_total, coalesced_total, spilled_total, auth_rejected_total,
  auth_rate_limited_total,
}

pub data Measure : Type 0 where
  connections disconnections published published_bytes received received_bytes overflows retries
        exhausted dropped coalesced spilled rejected rate_limited :
      Measure

abbrev pub counter_of : Measure → Counter
counter_of connections = connections_total
counter_of disconnections = disconnections_total
counter_of published = published_total
counter_of published_bytes = published_bytes_total
counter_of received = received_total
counter_of received_bytes = received_bytes_total
counter_of overflows = queue_overflow_total
counter_of retries = retries_total
counter_of exhausted = retries_exhausted_total
counter_of dropped = dropped_total
counter_of coalesced = coalesced_total
counter_of spilled = spilled_total
counter_of rejected = auth_rejected_total
counter_of rate_limited = auth_rate_limited_total

abbrev pub measured_in_order : List Measure
measured_in_order =
    connections ∷ disconnections ∷ published ∷ published_bytes ∷ received ∷ received_bytes
    ∷ overflows ∷ retries ∷ exhausted ∷ dropped ∷ coalesced ∷ spilled ∷ rejected ∷ rate_limited ∷ []

abbrev pub same_labels : List String → List String → Bool
same_labels [] [] = true
same_labels (a ∷ ls) (b ∷ ks) = str_eq a b && same_labels ls ks
same_labels _ _ = false

abbrev pub amount : List String → List String → ℕ → ℕ
amount recorded ls n = if same_labels recorded ls then n else 0

-- What a recorded call adds to a measure under some labels.
abbrev pub measures : Measure → List String → Metric → ℕ
measures connections ls (record_connect ns) = amount (ns ∷ []) ls 1
measures connections ls _ = 0
measures disconnections ls (record_disconnect ns) = amount (ns ∷ []) ls 1
measures disconnections ls _ = 0
measures published ls (record_publish ns t b) = amount (ns ∷ t ∷ []) ls 1
measures published ls _ = 0
measures published_bytes ls (record_publish ns t b) = amount (ns ∷ t ∷ []) ls b
measures published_bytes ls _ = 0
measures received ls (record_received ns t b) = amount (ns ∷ t ∷ []) ls 1
measures received ls _ = 0
measures received_bytes ls (record_received ns t b) = amount (ns ∷ t ∷ []) ls b
measures received_bytes ls _ = 0
measures overflows ls (record_queue_overflow ns t reason) = amount (ns ∷ t ∷ reason ∷ []) ls 1
measures overflows ls _ = 0
measures retries ls (record_retry ns t) = amount (ns ∷ t ∷ []) ls 1
measures retries ls _ = 0
measures exhausted ls (record_retry_exhausted ns t) = amount (ns ∷ t ∷ []) ls 1
measures exhausted ls _ = 0
measures dropped ls (record_dropped ns t) = amount (ns ∷ t ∷ []) ls 1
measures dropped ls _ = 0
measures coalesced ls (record_coalesced ns t) = amount (ns ∷ t ∷ []) ls 1
measures coalesced ls _ = 0
measures spilled ls (record_spill ns t) = amount (ns ∷ t ∷ []) ls 1
measures spilled ls _ = 0
measures rejected ls (record_auth_rejected ns) = amount (ns ∷ []) ls 1
measures rejected ls _ = 0
measures rate_limited ls (record_auth_rate_limited ns) = amount (ns ∷ []) ls 1
measures rate_limited ls _ = 0

abbrev pub total : Measure → List String → List Metric → ℕ
total x ls [] = 0
total x ls (m ∷ log) = measures x ls m + total x ls log

-- What an increment of a counter adds to the value under a name and labels.
abbrev pub added : Counter → List String → ℕ → String → List String → ℕ
added c recorded n name ls = if str_eq c.name name && same_labels recorded ls then n else 0

pub measures-record_connect :
    (x : Measure) (ls : List String) (ns : String)
    → measures x ls (record_connect ns) ≡ added connections_total (ns ∷ []) 1 (counter_of x).name ls
measures-record_connect connections ls ns = refl
measures-record_connect _ ls ns = refl

pub measures-record_disconnect :
    (x : Measure) (ls : List String) (ns : String)
    → measures x ls (record_disconnect ns)
      ≡ added disconnections_total (ns ∷ []) 1 (counter_of x).name ls
measures-record_disconnect disconnections ls ns = refl
measures-record_disconnect _ ls ns = refl

pub measures-record_publish :
    (x : Measure) (ls : List String) (ns t : String) (b : ℕ)
    → measures x ls (record_publish ns t b)
      ≡ added published_total (ns ∷ t ∷ []) 1 (counter_of x).name ls
        + added published_bytes_total (ns ∷ t ∷ []) b (counter_of x).name ls
measures-record_publish published ls ns t b = omega arith
measures-record_publish published_bytes ls ns t b = omega arith
measures-record_publish _ ls ns t b = refl

pub measures-record_received :
    (x : Measure) (ls : List String) (ns t : String) (b : ℕ)
    → measures x ls (record_received ns t b)
      ≡ added received_total (ns ∷ t ∷ []) 1 (counter_of x).name ls
        + added received_bytes_total (ns ∷ t ∷ []) b (counter_of x).name ls
measures-record_received received ls ns t b = omega arith
measures-record_received received_bytes ls ns t b = omega arith
measures-record_received _ ls ns t b = refl

pub measures-record_queue_overflow :
    (x : Measure) (ls : List String) (ns t reason : String)
    → measures x ls (record_queue_overflow ns t reason)
      ≡ added queue_overflow_total (ns ∷ t ∷ reason ∷ []) 1 (counter_of x).name ls
measures-record_queue_overflow overflows ls ns t reason = refl
measures-record_queue_overflow _ ls ns t reason = refl

pub measures-record_retry :
    (x : Measure) (ls : List String) (ns t : String)
    → measures x ls (record_retry ns t) ≡ added retries_total (ns ∷ t ∷ []) 1 (counter_of x).name ls
measures-record_retry retries ls ns t = refl
measures-record_retry _ ls ns t = refl

pub measures-record_retry_exhausted :
    (x : Measure) (ls : List String) (ns t : String)
    → measures x ls (record_retry_exhausted ns t)
      ≡ added retries_exhausted_total (ns ∷ t ∷ []) 1 (counter_of x).name ls
measures-record_retry_exhausted exhausted ls ns t = refl
measures-record_retry_exhausted _ ls ns t = refl

pub measures-record_dropped :
    (x : Measure) (ls : List String) (ns t : String)
    → measures x ls (record_dropped ns t)
      ≡ added dropped_total (ns ∷ t ∷ []) 1 (counter_of x).name ls
measures-record_dropped dropped ls ns t = refl
measures-record_dropped _ ls ns t = refl

pub measures-record_coalesced :
    (x : Measure) (ls : List String) (ns t : String)
    → measures x ls (record_coalesced ns t)
      ≡ added coalesced_total (ns ∷ t ∷ []) 1 (counter_of x).name ls
measures-record_coalesced coalesced ls ns t = refl
measures-record_coalesced _ ls ns t = refl

pub measures-record_spill :
    (x : Measure) (ls : List String) (ns t : String)
    → measures x ls (record_spill ns t) ≡ added spilled_total (ns ∷ t ∷ []) 1 (counter_of x).name ls
measures-record_spill spilled ls ns t = refl
measures-record_spill _ ls ns t = refl

pub measures-record_auth_rejected :
    (x : Measure) (ls : List String) (ns : String)
    → measures x ls (record_auth_rejected ns)
      ≡ added auth_rejected_total (ns ∷ []) 1 (counter_of x).name ls
measures-record_auth_rejected rejected ls ns = refl
measures-record_auth_rejected _ ls ns = refl

pub measures-record_auth_rate_limited :
    (x : Measure) (ls : List String) (ns : String)
    → measures x ls (record_auth_rate_limited ns)
      ≡ added auth_rate_limited_total (ns ∷ []) 1 (counter_of x).name ls
measures-record_auth_rate_limited rate_limited ls ns = refl
measures-record_auth_rate_limited _ ls ns = refl
