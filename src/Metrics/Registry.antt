-- ===== src/Metrics/Registry.antt =====
-- crates/madrpc-metrics/src/registry.rs: the counters of the requests, and the statistics by method and
-- by node with their eviction. The counters are words of 64 bits that wrap around. One reading of the
-- system's time stands for all those that one operation makes; the monotonic clock still moves on with
-- each. What a caller does through an `Arc` after the lock is a write to the entry.
pub mod Sorting
pub mod Removal
pub mod Eviction
pub mod Counters
pub mod Accounts
pub mod Events
use madrpc.Prelude.{
  ℕ, zero, suc, ◌+◌, ◌-◌, ◌*◌, ◌%◌, String, Bool, true, false, Option, none, some, List, [], ◌∷◌,
  ltb, leb, ◌==◌, if◌then◌else◌, length, take, map,
}
use madrpc.Prelude.Text.{str_dec}
use madrpc.Prelude.Word.{u64}
use madrpc.Prelude.HashMap.{get, insert, remove, alter, retain}
use madrpc.Metrics.Clock.{Clock, get_monotonic_timestamp}
use madrpc.Metrics.Histogram
use madrpc.Metrics.Histogram.{LatencyHistogram}

pub record MetricsConfig : Type 0 where
  pub max_methods : ℕ
  pub max_nodes : ℕ
  pub method_ttl_secs : ℕ
  pub node_ttl_secs : ℕ

unfoldable pub default_metrics_config : MetricsConfig
default_metrics_config = record {
  max_methods = 1000;
  max_nodes = 100;
  method_ttl_secs = 3600;
  node_ttl_secs = 3600;
}

pub record MethodStats : Type 0 where
  pub call_count : ℕ
  pub success_count : ℕ
  pub failure_count : ℕ
  pub latencies : LatencyHistogram
  pub last_access_ms : ℕ

pub record NodeStats : Type 0 where
  pub request_count : ℕ
  pub last_request_ms : ℕ

-- The `start_time` of the registry only tells the uptime, and is an argument of `snapshot`.
pub record MetricsRegistry : Type 0 where
  pub total_requests : ℕ
  pub successful_requests : ℕ
  pub failed_requests : ℕ
  pub active_connections : ℕ
  pub methods : List (String × MethodStats)
  pub nodes : List (String × NodeStats)
  pub config : MetricsConfig
  pub cleanup_counter : ℕ

unfoldable pub registry_with_config : MetricsConfig → MetricsRegistry
registry_with_config config = record {
  total_requests = 0;
  successful_requests = 0;
  failed_requests = 0;
  active_connections = 0;
  methods = [];
  nodes = [];
  config = config;
  cleanup_counter = 0;
}

-- The clock of the process, and a registry.
pub record State : Type 0 where
  pub clock : Clock
  pub registry : MetricsRegistry

unfoldable pub new_method_stats : ℕ → MethodStats
new_method_stats now = record {
  call_count = 0;
  success_count = 0;
  failure_count = 0;
  latencies = Histogram.new;
  last_access_ms = now;
}

unfoldable pub new_node_stats : NodeStats
new_node_stats = record { request_count = 0; last_request_ms = 0 }

-- The operations on one entry, with the time that `update_last_access` reads.
abbrev pub increment_call : ℕ → MethodStats → MethodStats
increment_call now s = record s { call_count = u64 (s.call_count + 1); last_access_ms = now }

abbrev pub increment_method_success : ℕ → MethodStats → MethodStats
increment_method_success now s = record s {
  success_count = u64 (s.success_count + 1);
  last_access_ms = now;
}

abbrev pub increment_method_failure : ℕ → MethodStats → MethodStats
increment_method_failure now s = record s {
  failure_count = u64 (s.failure_count + 1);
  last_access_ms = now;
}

unfoldable pub record_method_latency : ℕ → ℕ → MethodStats → Option MethodStats
record_method_latency latency_us now s = elim (Histogram.record_latency latency_us s.latencies) [
  | none ↦ none
  | some h ↦ some (record s { latencies = h; last_access_ms = now })
]

abbrev pub record_request : ℕ → NodeStats → NodeStats
record_request now s = record { request_count = u64 (s.request_count + 1); last_request_ms = now }

-- `entries.sort_by_key`, which is stable.
unfoldable pub insert_by_key : String × ℕ → List (String × ℕ) → List (String × ℕ)
insert_by_key e [] = e ∷ []
insert_by_key e (f ∷ es) = if leb e.1 f.1 then e ∷ f ∷ es else f ∷ insert_by_key e es

unfoldable pub sort_by_key : List (String × ℕ) → List (String × ℕ)
sort_by_key [] = []
sort_by_key (e ∷ es) = insert_by_key e (sort_by_key es)

unfoldable pub remove_all : {S : Type 0} → List (String × ℕ) → List (String × S) → List (String × S)
remove_all [] m = m
remove_all ((name, t) ∷ es) m = remove_all es (remove str_dec name m)

module _ {S : Type 0} (last_access : S → ℕ) where
  unfoldable pub retain_recent : ℕ → ℕ → List (String × S) → List (String × S)
  retain_recent ttl_ms now m = retain (λ s. ltb (now - last_access s) ttl_ms) m

  unfoldable pub accesses : List (String × S) → List (String × ℕ)
  accesses [] = []
  accesses ((name, s) ∷ m) = (name, last_access s) ∷ accesses m

  -- The half of `cleanup_stale_entries` for one of the two maps.
  unfoldable pub clean : ℕ → ℕ → ℕ → List (String × S) → List (String × S)
  clean ttl_secs max_entries now m =
      let kept = retain_recent (u64 (ttl_secs * 1000)) now m in
      if ltb max_entries (length kept)
      then remove_all (take (length kept - max_entries) (sort_by_key (accesses kept))) kept
      else kept

unfoldable pub cleanup_stale_metrics : Option ℕ → State → State
cleanup_stale_metrics now s =
    let (t, clock) = get_monotonic_timestamp now s.clock in
    let c = s.registry.config in
    record {
      clock = clock;
      registry = record s.registry {
        methods =
            clean (λ m. m.last_access_ms) c.method_ttl_secs c.max_methods t s.registry.methods;
        nodes = clean (λ n. n.last_request_ms) c.node_ttl_secs c.max_nodes t s.registry.nodes;
      };
    }

unfoldable pub maybe_cleanup_metrics : Option ℕ → State → State
maybe_cleanup_metrics now s =
    let count = s.registry.cleanup_counter in
    let counted = record s { registry = record s.registry { cleanup_counter = u64 (count + 1) } } in
    if count % 1000 == 0 then cleanup_stale_metrics now counted else counted
