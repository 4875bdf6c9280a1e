-- ===== src/Metrics/Registry/Events.antt =====
-- The registry from its construction through any sequence of events.
use madrpc.Prelude.{ℕ, ◌+◌, ◌≡◌, refl, String, Bool, Option, none, some, List, [], ◌∷◌, arith}
use madrpc.Prelude.Word.{u64}
use madrpc.Prelude.HashMap.{get}
use madrpc.Metrics.Clock.{Clock}
use madrpc.Metrics.Registry.{MetricsConfig, MetricsRegistry, State, registry_with_config}
use madrpc.Metrics.Recording.{
  record_method_call, record_node_request, increment_active_connections,
  decrement_active_connections,
}
use madrpc.Metrics.Registry.Counters.{IsBalanced}
use madrpc.Metrics.Registry.Accounts.{
  to_number, Counted, record_method_call-Counted, unchanged-Counted, record_node_request-Counted,
  connections-IsBalanced,
}

-- What the servers report to the registry. A time that the system's clock does not give is `none`.
pub data Event : Type 0 where
  called : (now : Option ℕ) (method : String) (latency_us : ℕ) (success : Bool) → Event
  node_requested : (now : Option ℕ) (node_addr : String) → Event
  connection_opened : Event
  connection_closed : Event

unfoldable pub report : Event → State → Option State
report (called now method latency_us success) s = record_method_call now method latency_us success s
report (node_requested now node_addr) s = some (record_node_request now node_addr s)
report connection_opened s = some (record s { registry = increment_active_connections s.registry })
report connection_closed s = some (record s { registry = decrement_active_connections s.registry })

unfoldable pub report_all : List Event → State → Option State
report_all [] s = some s
report_all (e ∷ es) s = elim (report e s) [ none ↦ none | some s' ↦ report_all es s' ]

abbrev pub call_of : Event → ℕ
call_of (called now method latency_us success) = 1
call_of (node_requested now node_addr) = 0
call_of connection_opened = 0
call_of connection_closed = 0

abbrev pub success_of : Event → ℕ
success_of (called now method latency_us success) = to_number success
success_of (node_requested now node_addr) = 0
success_of connection_opened = 0
success_of connection_closed = 0

abbrev pub opened_of : Event → ℕ
opened_of (called now method latency_us success) = 0
opened_of (node_requested now node_addr) = 0
opened_of connection_opened = 1
opened_of connection_closed = 0

abbrev pub closed_of : Event → ℕ
closed_of (called now method latency_us success) = 0
closed_of (node_requested now node_addr) = 0
closed_of connection_opened = 0
closed_of connection_closed = 1

unfoldable pub sum_of : (Event → ℕ) → List Event → ℕ
sum_of f [] = 0
sum_of f (e ∷ es) = f e + sum_of f es

report-Counted :
    (e : Event) (s : State)
    → IsBalanced s.registry
    → (s' : State) × (report e s ≡ some s')
      × Counted s.registry s'.registry (call_of e) (success_of e) (opened_of e) (closed_of e)
unfolding report
report-Counted (called now method latency_us success) s b =
    record_method_call-Counted now method latency_us success s b
report-Counted (node_requested now node_addr) s b =
    (record_node_request now node_addr s, refl, record_node_request-Counted now node_addr s b)
report-Counted connection_opened s b = (
  record s { registry = increment_active_connections s.registry },
  refl,
  record {
    balanced = connections-IsBalanced _ s.registry b;
    total = omega arith;
    successful = omega arith;
    connections = omega arith;
  },
)
report-Counted connection_closed s b = (
  record s { registry = decrement_active_connections s.registry },
  refl,
  record {
    balanced = connections-IsBalanced _ s.registry b;
    total = omega arith;
    successful = omega arith;
    connections = omega arith;
  },
)

join-Counted :
    {r q p : MetricsRegistry} {c1 s1 o1 d1 c2 s2 o2 d2 : ℕ}
    → Counted r q c1 s1 o1 d1
    → Counted q p c2 s2 o2 d2
    → Counted r p (c1 + c2) (s1 + s2) (o1 + o2) (d1 + d2)
join-Counted a b = record {
  balanced = b.balanced;
  total = omega (arith, a.total, b.total);
  successful = omega (arith, a.successful, b.successful);
  connections = omega (arith, a.connections, b.connections);
}

pub report_all-Counted :
    (es : List Event) (s : State)
    → IsBalanced s.registry
    → (s' : State) × (report_all es s ≡ some s')
      × Counted s.registry s'.registry
          (sum_of call_of es)
          (sum_of success_of es)
          (sum_of opened_of es)
          (sum_of closed_of es)
unfolding report_all sum_of
report_all-Counted [] s b = (s, refl, unchanged-Counted s.registry b)
report_all-Counted (e ∷ es) s b =
    let (s1, done, c1) = report-Counted e s b in
    let (s2, rest, c2) = report_all-Counted es s1 c1.balanced in
    (s2, rw (done, report_all) rest, join-Counted c1 c2)

-- What the registry counts after a list of events.
pub record Totals (es : List Event) (r : MetricsRegistry) : Type 0 where
  pub balanced : IsBalanced r
  pub total : r.total_requests ≡ u64 (sum_of call_of es)
  pub successful : r.successful_requests ≡ u64 (sum_of success_of es)
  pub connections : u64 (r.active_connections + sum_of closed_of es) ≡ u64 (sum_of opened_of es)

pub empty-IsBalanced : (config : MetricsConfig) → IsBalanced (registry_with_config config)
unfolding registry_with_config get
empty-IsBalanced config = record {
  distinct_methods = tt;
  distinct_nodes = tt;
  words = (omega arith, omega arith);
  outcomes = refl;
  consistent = λ k m e. absurd cc;
}

-- A registry takes any list of events without a panic. It then counts the calls in the list and
-- the successes among them, its failures are the rest, and its open connections are those opened
-- less those closed, all modulo 2^64; no method or node has two entries, and of each method the
-- calls are the successes and the failures, and as many as the latencies.
pub report_all-Totals :
    (config : MetricsConfig) (clock : Clock) (es : List Event)
    → (s : State) × (report_all es
          (record { clock = clock; registry = registry_with_config config })
        ≡ some s)
      × Totals es s.registry
unfolding registry_with_config
report_all-Totals config clock es =
    let (s, done, c) =
      report_all-Counted es (record { clock = clock; registry = registry_with_config config })
        (empty-IsBalanced config) in
    (
      s,
      done,
      record {
        balanced = c.balanced;
        total = omega (arith, c.total, c.balanced.outcomes);
        successful = omega (arith, c.successful, c.balanced.words.0);
        connections = omega (arith, c.connections);
      },
    )
