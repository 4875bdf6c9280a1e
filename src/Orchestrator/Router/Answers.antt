-- ===== src/Orchestrator/Router/Answers.antt =====
-- What the router answers, and what it leaves in the metrics.
use text.Mathlib.Text.{◌==◌}
use madrpc.Prelude.{
  ℕ, ◌+◌, ◌-◌, ◌/◌, ◌≡◌, ◌⊎◌, inl, inr, refl, sym, subst, String, Bool, true, false, ◌||◌, Option,
  some, List, [], ◌∷◌, arith, Bool-cases, if◌then◌else◌,
}
use madrpc.Prelude.Word.{u64}
use madrpc.Prelude.HashMap.{is_some}
use madrpc.Float.{F64}
use madrpc.Protocol.{
  Result, ok, err, JsonRpcRequest, JsonRpcError, JsonRpcResponse, success, failure, server_error,
  node_registration_error,
}
use madrpc.Builtin.{Json}
use madrpc.Metrics.Recording.{is_metrics_request}
use madrpc.Metrics.Registry.{MetricsRegistry, State}
use madrpc.Metrics.Registry.Counters.{IsBalanced}
use madrpc.Metrics.Registry.Accounts.{to_number}
use madrpc.Metrics.Registry.Events.{
  call_of, success_of, opened_of, closed_of, sum_of, report_all, report_all-Counted,
}
use madrpc.Orchestrator.{
  RetryConfig, is_ok, Effect, node_requested, slept, call_recorded, Forwarded, register_node,
}
use madrpc.Orchestrator.Forward.{recorded, forward-Accounts}
use madrpc.Orchestrator.Router.{
  Service, World, events_of, no_nodes_message, forward_request_jsonrpc, respond, forward_to_node,
  handle_register, handle_request, get_metrics, get_info,
}

trues : List Bool → ℕ
trues [] = 0
trues (b ∷ bs) = to_number b + trues bs

count : List Bool → ℕ
count [] = 0
count (b ∷ bs) = 1 + count bs

-- The calls and successes among the events are the flags recorded; connections have no part.
events_of-recorded :
    (now : Option ℕ) (method : String) (latency_us : ℕ) (xs : List Effect)
    → let es = events_of now method latency_us xs in
      (sum_of call_of es ≡ count (recorded xs))
      × (sum_of success_of es ≡ trues (recorded xs))
      × (sum_of opened_of es ≡ 0)
      × (sum_of closed_of es ≡ 0)
unfolding events_of sum_of recorded trues count
events_of-recorded now method latency_us [] = (refl, refl, refl, refl)
events_of-recorded now method latency_us (node_requested addr ∷ xs) =
    let (c, s, o, d) = events_of-recorded now method latency_us xs in
    (omega (arith, c), omega (arith, s), omega (arith, o), omega (arith, d))
events_of-recorded now method latency_us (slept ms ∷ xs) =
    events_of-recorded now method latency_us xs
events_of-recorded now method latency_us (call_recorded flag ∷ xs) =
    let (c, s, o, d) = events_of-recorded now method latency_us xs in
    (omega (arith, c), omega (arith, s), omega (arith, o), omega (arith, d))

-- The counters of requests after one that is counted as a success, or is not counted.
pub record Grown (n : ℕ) (r q : MetricsRegistry) : Type 0 where
  pub balanced : IsBalanced q
  pub total : u64 q.total_requests ≡ u64 (r.total_requests + n)
  pub successful : u64 q.successful_requests ≡ u64 (r.successful_requests + n)
  pub failed : q.failed_requests ≡ r.failed_requests
  pub connections : u64 q.active_connections ≡ u64 r.active_connections

module _ {F : F64} {V : Type 0} (J : Json V) (version : String) (config : RetryConfig F)
    (w : World F V) where
  forward-Grown :
      (method : String) (latency_us : ℕ) (r : Forwarded F V) (metrics : State)
      → recorded r.effects ≡ (if is_ok r.result then true ∷ [] else [])
      → IsBalanced metrics.registry
      → (metrics' : State) × (report_all
            (events_of w.system_time method latency_us r.effects)
            metrics
          ≡ some metrics')
        × Grown (to_number (is_ok r.result)) metrics.registry metrics'.registry
  unfolding trues count
  forward-Grown method latency_us r metrics records b =
      let es = events_of w.system_time method latency_us r.effects in
      let (calls, successes, opened, closed) =
        events_of-recorded w.system_time method latency_us r.effects in
      let (metrics', done, c) = report_all-Counted es metrics b in
      let flagged : count (recorded r.effects) ≡ to_number (is_ok r.result) =
        elim (Bool-cases (is_ok r.result)) [
          | inl t ↦ rw (records, t) refl
          | inr f ↦ rw (records, f) refl
        ] in
      let passed : trues (recorded r.effects) ≡ to_number (is_ok r.result) =
        elim (Bool-cases (is_ok r.result)) [
          | inl t ↦ rw (records, t) refl
          | inr f ↦ rw (records, f) refl
        ] in
      (
        metrics',
        done,
        record {
          balanced = c.balanced;
          total = omega (arith, c.total, calls, flagged);
          successful = omega (arith, c.successful, successes, passed);
          failed = omega (
            arith, c.total, c.successful, calls, flagged, successes, passed, b.outcomes, b.words.1,
            c.balanced.outcomes, c.balanced.words.1,
          );
          connections = omega (arith, c.connections, opened, closed);
        },
      )

  -- The result of a request that is forwarded, and the metrics it leaves.
  pub forward_request_jsonrpc-Grown :
      (req : JsonRpcRequest V) (s : Service F)
      → is_metrics_request req.method ≡ false
      → IsBalanced s.metrics.registry
      → (s' : Service F) × (result : Result V) × (forward_request_jsonrpc J version config w req s
          ≡ some (s', result))
        × Grown (to_number (is_ok result)) s.metrics.registry s'.metrics.registry
  unfolding forward_request_jsonrpc
  forward_request_jsonrpc-Grown req s plain b =
      let (r, done, account) =
        forward-Accounts config (w.send req.method req.params) w.others
          (no_nodes_message J version config w) w.clock s.balancer in
      let latency_us = u64 ((w.end_ - w.start) / 1000) in
      let (metrics, reported, grown) =
        forward-Grown req.method latency_us r s.metrics account.records b in
      (
        record { balancer = r.balancer; metrics = metrics },
        r.result,
        rw (plain, done, reported, forward_request_jsonrpc) refl,
        grown,
      )

  abbrev is_built_in : String → Bool
  is_built_in method = (method == "_metrics" || method == "_info") || method == "_register"

  -- The answer to a request, and the state before and after it.
  pub record Answered (req : JsonRpcRequest V) (s s' : Service F) (r : JsonRpcResponse V)
      : Type 0 where
    pub one_of :
        ((v : V) × (r ≡ success req.id v)) ⊎ ((e : JsonRpcError V) × (r ≡ failure req.id e))
    pub read_only : is_metrics_request req.method ≡ true → s' ≡ s
    pub uncounted : is_built_in req.method ≡ true → s'.metrics ≡ s.metrics
    pub counted :
        is_built_in req.method ≡ false
        → Grown (to_number (is_some r.result)) s.metrics.registry s'.metrics.registry

  respond-one_of :
      (id : V) {A : Type 0} (to_value : A → V) (to_error : String → JsonRpcError V) (a : Result A)
      → ((v : V) × (respond J version config w id to_value to_error a ≡ success id v))
        ⊎ ((e : JsonRpcError V) × (respond J version config w id to_value to_error a
              ≡ failure id e))
  respond-one_of id to_value to_error (ok a) = inl (_, refl)
  respond-one_of id to_value to_error (err e) = inr (_, refl)

  is_some-respond :
      (id : V) (result : Result V)
      → is_some (respond J version config w id (λ v. v) server_error result).result ≡ is_ok result
  unfolding success failure
  is_some-respond id (ok v) = refl
  is_some-respond id (err e) = refl

  forward_to_node-Answered :
      (req : JsonRpcRequest V) (s : Service F)
      → is_built_in req.method ≡ false
      → IsBalanced s.metrics.registry
      → (s' : Service F) × (r : JsonRpcResponse V) × (forward_to_node J version config w req s
          ≡ some (s', r))
        × Answered req s s' r
  unfolding forward_to_node is_metrics_request
  forward_to_node-Answered req s plain b =
      let (s', result, done, grown) = forward_request_jsonrpc-Grown req s (ground arith) b in
      (
        s',
        respond J version config w req.id (λ v. v) server_error result,
        rw (done, forward_to_node) refl,
        record {
          one_of = respond-one_of req.id (λ v. v) server_error result;
          read_only = λ h. absurd (ground (arith, plain, h));
          uncounted = λ h. absurd (cc (plain, h));
          counted = λ h.
              subst (λ b'. Grown (to_number b') s.metrics.registry s'.metrics.registry)
                (sym (is_some-respond req.id result)) grown;
        },
      )

  register-Answered :
      (req : JsonRpcRequest V) (s : Service F) (x : String ⊎ String)
      → J.node_url req.params ≡ x
      → is_metrics_request req.method ≡ false
      → is_built_in req.method ≡ true
      → Answered req s
          (handle_register J version config w req s).0
          (handle_register J version config w req s).1
  unfolding handle_register
  register-Answered req s (inl e) q plain own =
      rw (q, handle_register)
        (record {
          one_of = inr (_, refl);
          read_only = λ h. refl;
          uncounted = λ h. refl;
          counted = λ h. absurd (cc (own, h));
        })
  register-Answered req s (inr node_url) q plain own =
      rw (q, handle_register)
        (record {
          one_of =
              respond-one_of req.id J.of_registration node_registration_error
                (register_node node_url s.balancer).1;
          read_only = λ h. absurd (cc (plain, h));
          uncounted = λ h. refl;
          counted = λ h. absurd (cc (own, h));
        })

  -- An answer that reads the state alone.
  read-Answered :
      (req : JsonRpcRequest V) (s : Service F) {A : Type 0} (to_value : A → V) (a : Result A)
      → is_built_in req.method ≡ true
      → Answered req s s (respond J version config w req.id to_value server_error a)
  read-Answered req s to_value a own = record {
    one_of = respond-one_of req.id to_value server_error a;
    read_only = λ h. refl;
    uncounted = λ h. refl;
    counted = λ h. absurd (cc (own, h));
  }

  -- With a balanced registry the router answers every request, with no panic: the answer has
  -- the request's id and a result or an error but not both. The methods `_metrics` and `_info`
  -- change nothing, `_register` leaves the metrics, and any other request is counted once as a
  -- request and as a success if it is answered with a result; an error is counted nowhere, and
  -- no failure ever is.
  pub handle_request-Answered :
      (req : JsonRpcRequest V) (s : Service F)
      → IsBalanced s.metrics.registry
      → (s' : Service F) × (r : JsonRpcResponse V) × (handle_request J version config w req s
          ≡ some (s', r))
        × Answered req s s' r
  unfolding handle_request is_metrics_request
  handle_request-Answered req s b = elim (Bool-cases (req.method == "_metrics")) [
    | inl m ↦ (
      s,
      respond J version config w req.id J.of_metrics server_error
          (get_metrics J version config w s),
      rw (m, handle_request) refl,
      read-Answered req s J.of_metrics _ (ground arith),
    )
    | inr m ↦ elim (Bool-cases (req.method == "_info")) [
      | inl i ↦ (
        s,
        respond J version config w req.id J.of_info server_error (get_info J version config w s),
        rw (m, i, handle_request) refl,
        read-Answered req s J.of_info _ (ground arith),
      )
      | inr i ↦ elim (Bool-cases (req.method == "_register")) [
        | inl g ↦
            let (s', r) = handle_register J version config w req s in
            (
              s',
              r,
              rw (m, i, g, handle_request) refl,
              register-Answered req s (J.node_url req.params) refl (ground arith) (ground arith),
            )
        | inr g ↦
            let (s', r, done, answered) = forward_to_node-Answered req s (ground arith) b in
            (s', r, rw (m, i, g, handle_request) done, answered)
      ]
    ]
  ]
