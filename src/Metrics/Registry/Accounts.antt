-- ===== src/Metrics/Registry/Accounts.antt =====
-- What one call, or one request to a node, adds to the counters of the registry.
use madrpc.Prelude.{
  ℕ, ◌+◌, ◌≡◌, refl, sym, ap, ◌∙◌, subst, String, Bool, true, false, Option, some, arith, Distinct,
  Option-cases, inl, inr,
}
use madrpc.Prelude.Text.{str_dec}
use madrpc.Prelude.Word.{u64}
use madrpc.Prelude.HashMap.{get, keys-alter, insert-Distinct}
use madrpc.Metrics.Clock.{get_monotonic_timestamp}
use madrpc.Metrics.Registry.{
  MetricsRegistry, State, new_node_stats, record_request, maybe_cleanup_metrics,
}
use madrpc.Metrics.Recording.{
  count_outcome, increment_total, ensure_method, record_method_call, ensure_node,
  record_node_request,
}
use madrpc.Metrics.Registry.Counters.{
  IsBalanced, Follows, maybe_cleanup-Follows, ensure_method-Follows, touch_method-IsBalanced,
}

abbrev pub to_number : Bool → ℕ
to_number true = 1
to_number false = 0

-- A balanced registry whose counters are those of another and what is counted in between.
pub record Counted (r q : MetricsRegistry) (calls successes opened closed : ℕ) : Type 0 where
  pub balanced : IsBalanced q
  pub total : u64 q.total_requests ≡ u64 (r.total_requests + calls)
  pub successful : u64 q.successful_requests ≡ u64 (r.successful_requests + successes)
  pub connections : u64 (q.active_connections + closed) ≡ u64 (r.active_connections + opened)

count_outcome-IsBalanced :
    (success : Bool) (r : MetricsRegistry)
    → IsBalanced r
    → Counted r (count_outcome success (increment_total r)) 1 (to_number success) 0 0
count_outcome-IsBalanced true r b = record {
  balanced = record {
    distinct_methods = b.distinct_methods;
    distinct_nodes = b.distinct_nodes;
    words = (omega arith, b.words.1);
    outcomes = omega (arith, b.outcomes);
    consistent = b.consistent;
  };
  total = omega arith;
  successful = omega arith;
  connections = refl;
}
count_outcome-IsBalanced false r b = record {
  balanced = record {
    distinct_methods = b.distinct_methods;
    distinct_nodes = b.distinct_nodes;
    words = (b.words.0, omega arith);
    outcomes = omega (arith, b.outcomes);
    consistent = b.consistent;
  };
  total = omega arith;
  successful = omega arith;
  connections = refl;
}

follow-Counted :
    {r q p : MetricsRegistry} {calls successes opened closed : ℕ}
    → Counted r q calls successes opened closed
    → Follows q p
    → Counted r p calls successes opened closed
follow-Counted {closed = closed} c (b, same) = record {
  balanced = b;
  total = ap u64 same.total ∙ c.total;
  successful = ap u64 same.successful ∙ c.successful;
  connections = ap (λ n. u64 (n + closed)) same.connections ∙ c.connections;
}

pub record_method_call-Counted :
    (now : Option ℕ) (method : String) (latency_us : ℕ) (success : Bool) (s : State)
    → IsBalanced s.registry
    → (s' : State) × (record_method_call now method latency_us success s ≡ some s')
      × Counted s.registry s'.registry 1 (to_number success) 0 0
unfolding record_method_call
record_method_call-Counted now method latency_us success s b =
    let counted = record s { registry = count_outcome success (increment_total s.registry) } in
    let c1 = count_outcome-IsBalanced success s.registry b in
    let f1 = maybe_cleanup-Follows now counted c1.balanced in
    let (f2, (stats, e)) =
      ensure_method-Follows now method (maybe_cleanup_metrics now counted) f1.0 in
    let (s', done, f3) =
      touch_method-IsBalanced now method latency_us success stats
        (ensure_method now method (maybe_cleanup_metrics now counted)) f2.0
        (f2.0.consistent method stats e) in
    (
      s',
      rw (e, record_method_call) done,
      follow-Counted (follow-Counted (follow-Counted c1 f1) f2) f3,
    )

ensure_node-Follows :
    (node_addr : String) (s : State)
    → IsBalanced s.registry
    → Follows s.registry (ensure_node node_addr s).registry
unfolding ensure_node
ensure_node-Follows node_addr s b = elim (Option-cases (get str_dec node_addr s.registry.nodes)) [
  | inl absent ↦
      rw (absent, ensure_node)
        (
          record {
            distinct_methods = b.distinct_methods;
            distinct_nodes =
                insert-Distinct str_dec node_addr new_node_stats s.registry.nodes b.distinct_nodes;
            words = b.words;
            outcomes = b.outcomes;
            consistent = b.consistent;
          },
          record { total = refl; successful = refl; failed = refl; connections = refl },
        )
  | inr (stats, e) ↦
      rw (e, ensure_node)
        (b, record { total = refl; successful = refl; failed = refl; connections = refl })
]

pub unchanged-Counted : (r : MetricsRegistry) → IsBalanced r → Counted r r 0 0 0 0
unchanged-Counted r b = record {
  balanced = b;
  total = omega arith;
  successful = omega arith;
  connections = omega arith;
}

pub record_node_request-Counted :
    (now : Option ℕ) (node_addr : String) (s : State)
    → IsBalanced s.registry
    → Counted s.registry (record_node_request now node_addr s).registry 0 0 0 0
unfolding record_node_request
record_node_request-Counted now node_addr s b =
    let f1 = maybe_cleanup-Follows now s b in
    let ready = ensure_node node_addr (maybe_cleanup_metrics now s) in
    let f2 = ensure_node-Follows node_addr (maybe_cleanup_metrics now s) f1.0 in
    let t = (get_monotonic_timestamp now ready.clock).0 in
    follow-Counted (follow-Counted (follow-Counted (unchanged-Counted s.registry b) f1) f2) (
      record {
        distinct_methods = f2.0.distinct_methods;
        distinct_nodes =
            subst (Distinct str_dec)
              (sym (keys-alter str_dec node_addr (record_request t) ready.registry.nodes))
              f2.0.distinct_nodes;
        words = f2.0.words;
        outcomes = f2.0.outcomes;
        consistent = f2.0.consistent;
      },
      record { total = refl; successful = refl; failed = refl; connections = refl },
    )

-- The counters of the connections are no part of the balance.
pub connections-IsBalanced :
    (n : ℕ) (r : MetricsRegistry) → IsBalanced r → IsBalanced (record r { active_connections = n })
connections-IsBalanced n r b = record {
  distinct_methods = b.distinct_methods;
  distinct_nodes = b.distinct_nodes;
  words = b.words;
  outcomes = b.outcomes;
  consistent = b.consistent;
}
