-- ===== src/Metrics/Recording.antt =====
-- crates/madrpc-metrics/src/registry.rs and collector.rs: what a call and a request to a node do to the
-- registry, and what a snapshot shows of it. `none` is a panic.
use madrpc.Prelude.{
  ℕ, ◌+◌, ◌-◌, ◌/◌, String, Bool, true, false, ◌||◌, Option, none, some, List, [], ◌∷◌,
  if◌then◌else◌,
}
use text.Mathlib.Text.{◌==◌}
use madrpc.Prelude.Text.{str_dec}
use madrpc.Prelude.Word.{u64}
use madrpc.Prelude.HashMap.{get, insert, alter}
use madrpc.Float.{F64}
use madrpc.Metrics.Clock.{get_monotonic_timestamp}
use madrpc.Metrics.Histogram.{calculate_percentiles}
use madrpc.Metrics.Registry.{
  MetricsRegistry, MethodStats, NodeStats, State, new_method_stats, new_node_stats, increment_call,
  increment_method_success, increment_method_failure, record_method_latency, record_request,
  maybe_cleanup_metrics,
}

-- The operations on the global counters.
abbrev pub increment_total : MetricsRegistry → MetricsRegistry
increment_total r = record r { total_requests = u64 (r.total_requests + 1) }

abbrev pub increment_success : MetricsRegistry → MetricsRegistry
increment_success r = record r { successful_requests = u64 (r.successful_requests + 1) }

abbrev pub increment_failure : MetricsRegistry → MetricsRegistry
increment_failure r = record r { failed_requests = u64 (r.failed_requests + 1) }

abbrev pub increment_active_connections : MetricsRegistry → MetricsRegistry
increment_active_connections r = record r { active_connections = u64 (r.active_connections + 1) }

-- `fetch_sub` wraps below 0.
abbrev pub decrement_active_connections : MetricsRegistry → MetricsRegistry
decrement_active_connections r = record r {
  active_connections = u64 (r.active_connections + 18446744073709551615);
}

abbrev pub count_outcome : Bool → MetricsRegistry → MetricsRegistry
count_outcome true r = increment_success r
count_outcome false r = increment_failure r

-- `methods.entry(method).or_insert_with(..)`: a new entry reads the clock.
unfoldable pub ensure_method : Option ℕ → String → State → State
ensure_method now method s = elim (get str_dec method s.registry.methods) [
  | some stats ↦ s
  | none ↦
      let (t, clock) = get_monotonic_timestamp now s.clock in
      record {
        clock = clock;
        registry = record s.registry {
          methods = insert str_dec method (new_method_stats t) s.registry.methods;
        };
      }
]

abbrev pub method_outcome : Bool → ℕ → MethodStats → MethodStats
method_outcome true now stats = increment_method_success now stats
method_outcome false now stats = increment_method_failure now stats

-- The three writes through the `Arc`, each with its own reading of the clock.
unfoldable pub touch_method : Option ℕ → String → ℕ → Bool → MethodStats → State → Option State
touch_method now method latency_us success stats s =
    let (t1, clock1) = get_monotonic_timestamp now s.clock in
    let (t2, clock2) = get_monotonic_timestamp now clock1 in
    let (t3, clock3) = get_monotonic_timestamp now clock2 in
    elim (record_method_latency latency_us t2 (increment_call t1 stats)) [
      | none ↦ none
      | some timed ↦ some (record {
        clock = clock3;
        registry = record s.registry {
          methods = alter str_dec method (λ m. method_outcome success t3 timed) s.registry.methods;
        };
      })
    ]

-- The entry is there: `ensure_method` has put it there.
unfoldable pub record_method_call : Option ℕ → String → ℕ → Bool → State → Option State
record_method_call now method latency_us success s =
    let counted = record s { registry = count_outcome success (increment_total s.registry) } in
    let ready = ensure_method now method (maybe_cleanup_metrics now counted) in
    elim (get str_dec method ready.registry.methods) [
      | none ↦ none
      | some stats ↦ touch_method now method latency_us success stats ready
    ]

unfoldable pub ensure_node : String → State → State
ensure_node node_addr s = elim (get str_dec node_addr s.registry.nodes) [
  | some stats ↦ s
  | none ↦ record s {
    registry = record s.registry {
      nodes = insert str_dec node_addr new_node_stats s.registry.nodes;
    };
  }
]

unfoldable pub record_node_request : Option ℕ → String → State → State
record_node_request now node_addr s =
    let ready = ensure_node node_addr (maybe_cleanup_metrics now s) in
    let (t, clock) = get_monotonic_timestamp now ready.clock in
    record {
      clock = clock;
      registry = record ready.registry {
        nodes = alter str_dec node_addr (record_request t) ready.registry.nodes;
      };
    }

-- crates/madrpc-common/src/protocol/builtin.rs.
pub record MethodMetrics : Type 0 where
  pub call_count : ℕ
  pub success_count : ℕ
  pub failure_count : ℕ
  pub avg_latency_us : ℕ
  pub p50_latency_us : ℕ
  pub p95_latency_us : ℕ
  pub p99_latency_us : ℕ

pub record NodeMetrics : Type 0 where
  pub node_addr : String
  pub request_count : ℕ
  pub last_request_ms : ℕ

pub record MetricsSnapshot : Type 0 where
  pub total_requests : ℕ
  pub successful_requests : ℕ
  pub failed_requests : ℕ
  pub active_connections : ℕ
  pub uptime_ms : ℕ
  pub methods : List (String × MethodMetrics)
  pub nodes : Option (List (String × NodeMetrics))

module _ (F : F64) where
  unfoldable pub method_snapshot : MethodStats → MethodMetrics
  method_snapshot s =
      let (avg, (p50, (p95, p99))) = calculate_percentiles F s.latencies in
      record {
        call_count = s.call_count;
        success_count = s.success_count;
        failure_count = s.failure_count;
        avg_latency_us = avg;
        p50_latency_us = p50;
        p95_latency_us = p95;
        p99_latency_us = p99;
      }

  unfoldable pub method_snapshots : List (String × MethodStats) → List (String × MethodMetrics)
  method_snapshots [] = []
  method_snapshots ((name, s) ∷ m) = (name, method_snapshot s) ∷ method_snapshots m

  unfoldable pub node_snapshots : List (String × NodeStats) → List (String × NodeMetrics)
  node_snapshots [] = []
  node_snapshots ((addr, n) ∷ m) =
      (
        addr,
        record {
          node_addr = addr;
          request_count = n.request_count;
          last_request_ms = n.last_request_ms;
        },
      )
      ∷ node_snapshots m

  unfoldable pub snapshot : Bool → ℕ → MetricsRegistry → MetricsSnapshot
  snapshot include_nodes uptime_ms r = record {
    total_requests = r.total_requests;
    successful_requests = r.successful_requests;
    failed_requests = r.failed_requests;
    active_connections = r.active_connections;
    uptime_ms = uptime_ms;
    methods = method_snapshots r.methods;
    nodes = if include_nodes then some (node_snapshots r.nodes) else none;
  }

-- `record_call` of both collectors, for a call that started at `start` and ends at `end_`, in
-- nanoseconds.
unfoldable pub record_call : Option ℕ → String → ℕ → ℕ → Bool → State → Option State
record_call now method start end_ success s =
    record_method_call now method (u64 ((end_ - start) / 1000)) success s

-- `is_metrics_request` of both collectors.
unfoldable pub is_metrics_request : String → Bool
is_metrics_request method = method == "_metrics" || method == "_info"
