-- ===== src/Metrics/Registry/Counters.antt =====
-- The counters of the registry, from its construction through any sequence of events.
use madrpc.Prelude.{
  ℕ, zero, suc, ◌+◌, ◌%◌, ◌^◌, ◌<◌, ◌≡◌, refl, sym, ap, ◌∙◌, subst, String, Bool, true, false,
  Option, some, List, [], ◌∷◌, arith, length, ◌==◌, Distinct, Option-cases, Bool-cases, inl, inr,
}
use madrpc.Prelude.Text.{str_dec}
use madrpc.Prelude.Word.{u64}
use madrpc.Prelude.HashMap.{
  keys, get, insert, alter, keys-alter, get-insert, get-alter, insert-Distinct,
}
use madrpc.Metrics.Clock.{get_monotonic_timestamp}
use madrpc.Metrics.Histogram
use madrpc.Metrics.Histogram.{
  num_histogram_bins, LatencyHistogram, increment, record_latency, latency_to_bin,
}
use madrpc.Metrics.Histogram.Bins.{latency_to_bin-lt}
use madrpc.Metrics.Registry.{
  MetricsRegistry, MethodStats, State, new_method_stats, increment_call, record_method_latency,
  cleanup_stale_metrics, maybe_cleanup_metrics,
}
use madrpc.Metrics.Registry.Eviction.{clean-Cleaned}
use madrpc.Metrics.Recording.{method_outcome, ensure_method, touch_method}

-- The counters of a method belong together.
pub record IsConsistent (s : MethodStats) : Type 0 where
  pub calls : s.call_count ≡ u64 (s.success_count + s.failure_count)
  pub sampled : s.latencies.sample_count ≡ s.call_count
  pub all_bins : length s.latencies.bins ≡ num_histogram_bins

pub record IsBalanced (r : MetricsRegistry) : Type 0 where
  pub distinct_methods : Distinct str_dec (keys r.methods)
  pub distinct_nodes : Distinct str_dec (keys r.nodes)
  pub words : (r.successful_requests < 2 ^ 64) × (r.failed_requests < 2 ^ 64)
  pub outcomes : r.total_requests ≡ u64 (r.successful_requests + r.failed_requests)
  pub consistent :
      (k : String) (s : MethodStats) → get str_dec k r.methods ≡ some s → IsConsistent s

increment-total :
    (i : ℕ) (xs : List ℕ)
    → i < length xs
    → (ys : List ℕ) × (increment i xs ≡ some ys) × (length ys ≡ length xs)
unfolding increment
increment-total i [] h = absurd (omega arith)
increment-total zero (x ∷ xs) h = (_, refl, refl)
increment-total (suc i) (x ∷ xs) h =
    let (ys, e, l) = increment-total i xs (omega arith) in
    (x ∷ ys, rw (e, increment) refl, ap suc l)

-- One call of a method: its three writes do not panic and keep the counters together.
touched :
    (latency t1 t2 t3 : ℕ) (success : Bool) (s : MethodStats)
    → IsConsistent s
    → (timed : MethodStats) × (record_method_latency latency t2 (increment_call t1 s) ≡ some timed)
      × IsConsistent (method_outcome success t3 timed)
unfolding record_method_latency record_latency
touched latency t1 t2 t3 success s c =
    let (bins, e, l) =
      increment-total (latency_to_bin latency) s.latencies.bins
        (omega (arith, c.all_bins, latency_to_bin-lt latency)) in
    (_, rw (e, record_method_latency) refl, counted bins l success)
  where
    timed : List ℕ → MethodStats
    timed bins = record (increment_call t1 s) {
      latencies = record {
        bins = bins;
        total_latency = u64 (s.latencies.total_latency + latency);
        sample_count = u64 (s.latencies.sample_count + 1);
      };
      last_access_ms = t2;
    }

    counted :
        (bins : List ℕ)
        → length bins ≡ length s.latencies.bins
        → (o : Bool) → IsConsistent (method_outcome o t3 (timed bins))
    counted bins l true = record {
      calls = omega (arith, c.calls);
      sampled = omega (arith, c.sampled);
      all_bins = l ∙ c.all_bins;
    }
    counted bins l false = record {
      calls = omega (arith, c.calls);
      sampled = omega (arith, c.sampled);
      all_bins = l ∙ c.all_bins;
    }

pub new_method_stats-IsConsistent : (t : ℕ) → IsConsistent (new_method_stats t)
unfolding new_method_stats Histogram.new
new_method_stats-IsConsistent t = record { calls = refl; sampled = refl; all_bins = refl }

-- The counters of the requests are those before.
pub record SameTotals (r q : MetricsRegistry) : Type 0 where
  pub total : q.total_requests ≡ r.total_requests
  pub successful : q.successful_requests ≡ r.successful_requests
  pub failed : q.failed_requests ≡ r.failed_requests
  pub connections : q.active_connections ≡ r.active_connections

-- A registry that is balanced, with the counters of another.
abbrev pub Follows : MetricsRegistry → MetricsRegistry → Type 0
Follows r q = IsBalanced q × SameTotals r q

cleanup-Follows :
    (now : Option ℕ) (s : State)
    → IsBalanced s.registry
    → Follows s.registry (cleanup_stale_metrics now s).registry
unfolding cleanup_stale_metrics
cleanup-Follows now s b =
    let t = (get_monotonic_timestamp now s.clock).0 in
    let c = s.registry.config in
    let methods =
      clean-Cleaned (λ m. m.last_access_ms) c.method_ttl_secs c.max_methods t s.registry.methods
        b.distinct_methods in
    let nodes =
      clean-Cleaned (λ n. n.last_request_ms) c.node_ttl_secs c.max_nodes t s.registry.nodes
        b.distinct_nodes in
    (
      record {
        distinct_methods = methods.distinct;
        distinct_nodes = nodes.distinct;
        words = b.words;
        outcomes = b.outcomes;
        consistent = λ k m e. b.consistent k m (methods.as_was k m e);
      },
      record { total = refl; successful = refl; failed = refl; connections = refl },
    )

pub maybe_cleanup-Follows :
    (now : Option ℕ) (s : State)
    → IsBalanced s.registry
    → Follows s.registry (maybe_cleanup_metrics now s).registry
unfolding maybe_cleanup_metrics
maybe_cleanup-Follows now s b = elim (Bool-cases (s.registry.cleanup_counter % 1000 == 0)) [
  | inl t ↦ let (b', same) = cleanup-Follows now counted balanced in rw t (b', same_totals same)
  | inr f ↦
      rw f (balanced, record { total = refl; successful = refl; failed = refl; connections = refl })
]
  where
    counted : State
    counted = record s {
      registry = record s.registry { cleanup_counter = u64 (s.registry.cleanup_counter + 1) };
    }

    same_totals : {q : MetricsRegistry} → SameTotals counted.registry q → SameTotals s.registry q
    same_totals same = record {
      total = same.total;
      successful = same.successful;
      failed = same.failed;
      connections = same.connections;
    }

    balanced : IsBalanced counted.registry
    balanced = record {
      distinct_methods = b.distinct_methods;
      distinct_nodes = b.distinct_nodes;
      words = b.words;
      outcomes = b.outcomes;
      consistent = b.consistent;
    }

abbrev AllConsistent : List (String × MethodStats) → Type 0
AllConsistent m = (k : String) (s : MethodStats) → get str_dec k m ≡ some s → IsConsistent s

insert-AllConsistent :
    (method : String) (stats : MethodStats) (m : List (String × MethodStats))
    → IsConsistent stats
    → AllConsistent m
    → AllConsistent (insert str_dec method stats m)
insert-AllConsistent method stats m c h k s e = elim (str_dec k method) [
  | yes p ↦
      let same : stats ≡ s = ground (arith, get-insert str_dec k method stats m) in
      subst IsConsistent same c
  | no p ↦ h k s (ground (arith, get-insert str_dec k method stats m))
]

alter-AllConsistent :
    (method : String) (stats : MethodStats) (m : List (String × MethodStats))
    → IsConsistent stats
    → AllConsistent m
    → AllConsistent (alter str_dec method (λ s. stats) m)
alter-AllConsistent method stats m c h k s e = elim (str_dec k method) [
  | yes p ↦ elim (Option-cases (get str_dec k m)) [
    | inl absent ↦ absurd (ground (arith, get-alter str_dec k method (λ s. stats) m))
    | inr (old, there) ↦
        let same : stats ≡ s = ground (arith, get-alter str_dec k method (λ s. stats) m) in
        subst IsConsistent same c
  ]
  | no p ↦ h k s (ground (arith, get-alter str_dec k method (λ s. stats) m))
]

get-inserted :
    (method : String) (stats : MethodStats) (m : List (String × MethodStats))
    → get str_dec method (insert str_dec method stats m) ≡ some stats
get-inserted method stats m = ground (arith, get-insert str_dec method method stats m)

pub ensure_method-Follows :
    (now : Option ℕ) (method : String) (s : State)
    → IsBalanced s.registry
    → Follows s.registry (ensure_method now method s).registry
      × ((stats : MethodStats) × (get str_dec method (ensure_method now method s).registry.methods
            ≡ some stats))
unfolding ensure_method
ensure_method-Follows now method s b = elim (Option-cases (get str_dec method s.registry.methods)) [
  | inl absent ↦
      let t = (get_monotonic_timestamp now s.clock).0 in
      rw (absent, ensure_method)
        (
          (
            record {
              distinct_methods =
                  insert-Distinct str_dec method (new_method_stats t) s.registry.methods
                    b.distinct_methods;
              distinct_nodes = b.distinct_nodes;
              words = b.words;
              outcomes = b.outcomes;
              consistent =
                  insert-AllConsistent method (new_method_stats t) s.registry.methods
                    (new_method_stats-IsConsistent t) b.consistent;
            },
            record { total = refl; successful = refl; failed = refl; connections = refl },
          ),
          (new_method_stats t, get-inserted method (new_method_stats t) s.registry.methods),
        )
  | inr (stats, e) ↦
      rw (e, ensure_method)
        (
          (b, record { total = refl; successful = refl; failed = refl; connections = refl }),
          (stats, e),
        )
]

pub touch_method-IsBalanced :
    (now : Option ℕ) (method : String) (latency_us : ℕ) (success : Bool) (stats : MethodStats)
    (s : State)
    → IsBalanced s.registry
    → IsConsistent stats
    → (s' : State) × (touch_method now method latency_us success stats s ≡ some s')
      × Follows s.registry s'.registry
unfolding touch_method
touch_method-IsBalanced now method latency_us success stats s b c =
    let (t1, clock1) = get_monotonic_timestamp now s.clock in
    let (t2, clock2) = get_monotonic_timestamp now clock1 in
    let (t3, clock3) = get_monotonic_timestamp now clock2 in
    let (timed, e, c') = touched latency_us t1 t2 t3 success stats c in
    (
      record {
        clock = clock3;
        registry = record s.registry {
          methods = alter str_dec method (λ m. method_outcome success t3 timed) s.registry.methods;
        };
      },
      rw (e, touch_method) refl,
      (
        record {
          distinct_methods =
              subst (Distinct str_dec)
                (sym (
                  keys-alter str_dec method (λ m. method_outcome success t3 timed)
                    s.registry.methods))
                b.distinct_methods;
          distinct_nodes = b.distinct_nodes;
          words = b.words;
          outcomes = b.outcomes;
          consistent =
              alter-AllConsistent method (method_outcome success t3 timed) s.registry.methods c'
                b.consistent;
        },
        record { total = refl; successful = refl; failed = refl; connections = refl },
      ),
    )
