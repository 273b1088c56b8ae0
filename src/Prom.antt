-- ===== src/Prom.antt =====
-- src/PromServerMetrics.ts: the counters of a metrics registry. prom-client is a parameter.
--
-- A `Counter` object is known by the options that it is made with. Making one registers it, and
-- `inc` on its labels adds to a value of the registry; both may throw.
pub mod Measures
pub mod Totals
pub mod Registered
use stream_fence_js.Prelude.{ℕ, String, List, [], ◌∷◌, Result, ok, ◌>>=◌, ◌>>◌}
use stream_fence_js.Events.{
  Metric, record_connect, record_disconnect, record_publish, record_received, record_queue_overflow,
  record_retry, record_retry_exhausted, record_dropped, record_coalesced, record_spill,
  record_auth_rejected, record_auth_rate_limited,
}

pub record Counter : Type 0 where
  pub name : String
  pub help : String
  pub label_names : List String

pub record PromClient : Type 1 where
  pub Registry : Type 0
  -- `new Counter(…)` on a registry, and `counter.labels(…).inc(…)`
  pub register : Counter → Registry → Result Registry
  pub inc : Counter → List String → ℕ → Registry → Result Registry

abbrev pub connections_total : Counter
connections_total = record {
  name = "streamfence_connections_total";
  help = "Total successful client connections";
  label_names = "namespace" ∷ [];
}

abbrev pub disconnections_total : Counter
disconnections_total = record {
  name = "streamfence_disconnections_total";
  help = "Total client disconnections";
  label_names = "namespace" ∷ [];
}

abbrev pub published_total : Counter
published_total = record {
  name = "streamfence_messages_published_total";
  help = "Total outbound messages published";
  label_names = "namespace" ∷ "topic" ∷ [];
}

abbrev pub published_bytes_total : Counter
published_bytes_total = record {
  name = "streamfence_messages_published_bytes_total";
  help = "Total outbound message bytes published";
  label_names = "namespace" ∷ "topic" ∷ [];
}

abbrev pub received_total : Counter
received_total = record {
  name = "streamfence_messages_received_total";
  help = "Total inbound messages received";
  label_names = "namespace" ∷ "topic" ∷ [];
}

abbrev pub received_bytes_total : Counter
received_bytes_total = record {
  name = "streamfence_messages_received_bytes_total";
  help = "Total inbound message bytes received";
  label_names = "namespace" ∷ "topic" ∷ [];
}

abbrev pub queue_overflow_total : Counter
queue_overflow_total = record {
  name = "streamfence_queue_overflow_total";
  help = "Total queue overflow events";
  label_names = "namespace" ∷ "topic" ∷ "reason" ∷ [];
}

abbrev pub retries_total : Counter
retries_total = record {
  name = "streamfence_retries_total";
  help = "Total retry attempts";
  label_names = "namespace" ∷ "topic" ∷ [];
}

abbrev pub retries_exhausted_total : Counter
retries_exhausted_total = record {
  name = "streamfence_retries_exhausted_total";
  help = "Total exhausted retry outcomes";
  label_names = "namespace" ∷ "topic" ∷ [];
}

abbrev pub dropped_total : Counter
dropped_total = record {
  name = "streamfence_messages_dropped_total";
  help = "Total dropped messages";
  label_names = "namespace" ∷ "topic" ∷ [];
}

abbrev pub coalesced_total : Counter
coalesced_total = record {
  name = "streamfence_messages_coalesced_total";
  help = "Total coalesced messages";
  label_names = "namespace" ∷ "topic" ∷ [];
}

abbrev pub spilled_total : Counter
spilled_total = record {
  name = "streamfence_messages_spilled_total";
  help = "Total messages spilled to disk";
  label_names = "namespace" ∷ "topic" ∷ [];
}

abbrev pub auth_rejected_total : Counter
auth_rejected_total = record {
  name = "streamfence_auth_rejected_total";
  help = "Total auth rejections";
  label_names = "namespace" ∷ [];
}

abbrev pub auth_rate_limited_total : Counter
auth_rate_limited_total = record {
  name = "streamfence_auth_rate_limited_total";
  help = "Total auth rate-limited rejections";
  label_names = "namespace" ∷ [];
}

-- The counters that the constructor makes, in its order.
abbrev pub counters : List Counter
counters =
    connections_total ∷ disconnections_total ∷ published_total ∷ published_bytes_total
    ∷ received_total ∷ received_bytes_total ∷ queue_overflow_total ∷ retries_total
    ∷ retries_exhausted_total ∷ dropped_total ∷ coalesced_total ∷ spilled_total
    ∷ auth_rejected_total ∷ auth_rate_limited_total ∷ []

module _ (p : PromClient) where
  unfoldable pub register_all : List Counter → p.Registry → Result p.Registry
  register_all [] r = ok r
  register_all (c ∷ cs) r = p.register c r >>= register_all cs

  -- the constructor
  unfoldable pub new_prom : p.Registry → Result p.Registry
  unfolding register_all
  new_prom r = register_all counters r

  -- The methods, by the call that is recorded.
  unfoldable pub record_metric : Metric → p.Registry → Result p.Registry
  record_metric (record_connect namespace) r = p.inc connections_total (namespace ∷ []) 1 r
  record_metric (record_disconnect namespace) r = p.inc disconnections_total (namespace ∷ []) 1 r
  record_metric (record_publish namespace topic bytes) r = do
    r' ← p.inc published_total (namespace ∷ topic ∷ []) 1 r
    p.inc published_bytes_total (namespace ∷ topic ∷ []) bytes r'
  record_metric (record_received namespace topic bytes) r = do
    r' ← p.inc received_total (namespace ∷ topic ∷ []) 1 r
    p.inc received_bytes_total (namespace ∷ topic ∷ []) bytes r'
  record_metric (record_queue_overflow namespace topic reason) r =
      p.inc queue_overflow_total (namespace ∷ topic ∷ reason ∷ []) 1 r
  record_metric (record_retry namespace topic) r = p.inc retries_total (namespace ∷ topic ∷ []) 1 r
  record_metric (record_retry_exhausted namespace topic) r =
      p.inc retries_exhausted_total (namespace ∷ topic ∷ []) 1 r
  record_metric (record_dropped namespace topic) r =
      p.inc dropped_total (namespace ∷ topic ∷ []) 1 r
  record_metric (record_coalesced namespace topic) r =
      p.inc coalesced_total (namespace ∷ topic ∷ []) 1 r
  record_metric (record_spill namespace topic) r = p.inc spilled_total (namespace ∷ topic ∷ []) 1 r
  record_metric (record_auth_rejected namespace) r = p.inc auth_rejected_total (namespace ∷ []) 1 r
  record_metric (record_auth_rate_limited namespace) r =
      p.inc auth_rate_limited_total (namespace ∷ []) 1 r

  unfoldable pub record_all : List Metric → p.Registry → Result p.Registry
  unfolding record_metric
  record_all [] r = ok r
  record_all (m ∷ log) r = record_metric m r >>= record_all log
