-- ===== src/Server/Answers.antt =====
-- What a node's router answers, and what it leaves in the metrics.
use text.Mathlib.Text.{◌==◌}
use madrpc.Prelude.{
  ℕ, ◌-◌, ◌/◌, ◌≡◌, ◌⊎◌, inl, inr, refl, String, Bool, true, false, ◌||◌, some, arith, Bool-cases,
}
use madrpc.Prelude.Word.{u64}
use madrpc.Float.{F64}
use madrpc.Protocol.{
  MadrpcError, Result, ok, err, JsonRpcRequest, JsonRpcError, JsonRpcResponse, success, failure,
}
use madrpc.Builtin.{Json, healthy_response}
use madrpc.Metrics.Registry.{State}
use madrpc.Metrics.Registry.Counters.{IsBalanced}
use madrpc.Metrics.Registry.Accounts.{
  to_number, Counted, record_method_call-Counted, unchanged-Counted,
}
use madrpc.Metrics.Recording.{record_call}
use madrpc.Server.{
  ResourceLimits, Execution, no_runtime, elapsed, not_joined, finished, is_success, NodeWorld,
  call_rpc, time_limit_error, runtime_error, join_error, rpc_error, respond_to, as_internal,
  get_node_metrics, get_node_info, handle_node_request,
}

-- The calls and the successes that the metrics learn of.
abbrev pub calls_of : {V : Type 0} → Execution V → ℕ
calls_of (no_runtime e) = 0
calls_of elapsed = 0
calls_of (not_joined e) = 0
calls_of (finished result) = 1

abbrev pub successes_of : {V : Type 0} → Execution V → ℕ
successes_of (no_runtime e) = 0
successes_of elapsed = 0
successes_of (not_joined e) = 0
successes_of (finished result) = to_number (is_success result)

-- A method that the node answers itself.
abbrev pub is_own : String → Bool
is_own method = (method == "_health" || method == "_metrics") || method == "_info"

module _ (F : F64) {V : Type 0} (J : Json V) (version : String) (limits : ResourceLimits)
    (w : NodeWorld V) where
  -- A call that has finished is counted, and its result is the one that the node gives.
  pub call_rpc-finished :
      (method : String) (params : V) (metrics : State) (result : Result V)
      → w.execute method params ≡ finished result
      → IsBalanced metrics.registry
      → (metrics' : State) × (call_rpc F J version limits w method params metrics
          ≡ some (metrics', result))
        × Counted metrics.registry metrics'.registry 1 (to_number (is_success result)) 0 0
  unfolding call_rpc record_call
  call_rpc-finished method params metrics result q b =
      let (metrics', done, c) =
        record_method_call-Counted w.system_time method (u64 ((w.end_ - w.start) / 1000))
          (is_success result) metrics b in
      (metrics', rw (q, done, call_rpc, record_call) refl, c)

  call_rpc-Counted :
      (method : String) (params : V) (metrics : State) (x : Execution V)
      → w.execute method params ≡ x
      → IsBalanced metrics.registry
      → (metrics' : State) × (result : Result V) × (call_rpc F J version limits w method params
            metrics
          ≡ some (metrics', result))
        × Counted metrics.registry metrics'.registry (calls_of x) (successes_of x) 0 0
  unfolding call_rpc record_call
  call_rpc-Counted method params metrics (no_runtime e) q b = (
    metrics,
    err (runtime_error F J version limits w e),
    rw (q, call_rpc) refl,
    unchanged-Counted metrics.registry b,
  )
  call_rpc-Counted method params metrics elapsed q b = (
    metrics,
    err (time_limit_error F J version limits w),
    rw (q, call_rpc) refl,
    unchanged-Counted metrics.registry b,
  )
  call_rpc-Counted method params metrics (not_joined e) q b = (
    metrics,
    err (join_error F J version limits w e),
    rw (q, call_rpc) refl,
    unchanged-Counted metrics.registry b,
  )
  call_rpc-Counted method params metrics (finished result) q b =
      let (metrics', done, c) = call_rpc-finished method params metrics result q b in
      (metrics', result, done, c)

  -- The answer to a request, and the metrics before and after it.
  pub record Settled (req : JsonRpcRequest V) (metrics metrics' : State) (r : JsonRpcResponse V)
      : Type 0 where
    pub one_of :
        ((v : V) × (r ≡ success req.id v)) ⊎ ((e : JsonRpcError V) × (r ≡ failure req.id e))
    pub untouched : is_own req.method ≡ true → metrics' ≡ metrics
    pub counted :
        is_own req.method ≡ false
        → Counted metrics.registry metrics'.registry
            (calls_of (w.execute req.method req.params))
            (successes_of (w.execute req.method req.params))
            0
            0

  respond_to-one_of :
      {A : Type 0} (id : V) (to_value : A → V) (to_error : MadrpcError → JsonRpcError V)
      (a : Result A)
      → ((v : V) × (respond_to F J version limits w id to_value to_error a ≡ success id v))
        ⊎ ((e : JsonRpcError V) × (respond_to F J version limits w id to_value to_error a
              ≡ failure id e))
  respond_to-one_of id to_value to_error (ok a) = inl (_, refl)
  respond_to-one_of id to_value to_error (err e) = inr (_, refl)

  own-Settled :
      (req : JsonRpcRequest V) (metrics : State) (r : JsonRpcResponse V)
      → is_own req.method ≡ true
      → ((v : V) × (r ≡ success req.id v)) ⊎ ((e : JsonRpcError V) × (r ≡ failure req.id e))
      → Settled req metrics metrics r
  own-Settled req metrics r own one = record {
    one_of = one;
    untouched = λ h. refl;
    counted = λ h. absurd (cc (own, h));
  }

  -- The node's router.
  pub handle_node_request-Settled :
      (req : JsonRpcRequest V) (metrics : State)
      → IsBalanced metrics.registry
      → (metrics' : State) × (r : JsonRpcResponse V) × (handle_node_request F J version limits w req
            metrics
          ≡ some (metrics', r))
        × Settled req metrics metrics' r
  unfolding handle_node_request
  handle_node_request-Settled req metrics b = elim (Bool-cases (req.method == "_health")) [
    | inl h ↦ (
      metrics,
      success req.id (J.of_health healthy_response),
      rw (h, handle_node_request) refl,
      own-Settled req metrics _ (ground arith) (inl (_, refl)),
    )
    | inr h ↦ elim (Bool-cases (req.method == "_metrics")) [
      | inl m ↦ (
        metrics,
        respond_to F J version limits w req.id J.of_metrics (as_internal F J version limits w)
            (get_node_metrics F J version limits w metrics),
        rw (h, m, handle_node_request) refl,
        own-Settled req metrics _ (ground arith)
            (respond_to-one_of req.id J.of_metrics (as_internal F J version limits w) _),
      )
      | inr m ↦ elim (Bool-cases (req.method == "_info")) [
        | inl i ↦ (
          metrics,
          respond_to F J version limits w req.id J.of_info (as_internal F J version limits w)
              (get_node_info F J version limits w),
          rw (h, m, i, handle_node_request) refl,
          own-Settled req metrics _ (ground arith)
              (respond_to-one_of req.id J.of_info (as_internal F J version limits w) _),
        )
        | inr i ↦
            let (metrics', result, done, c) =
              call_rpc-Counted req.method req.params metrics (w.execute req.method req.params) refl
                b in
            (
              metrics',
              respond_to F J version limits w req.id (λ v. v) (rpc_error F J version limits w)
                  result,
              rw (h, m, i, done, handle_node_request) refl,
              record {
                one_of = respond_to-one_of req.id (λ v. v) (rpc_error F J version limits w) result;
                untouched = λ own. absurd (ground (arith, own, h, m, i));
                counted = λ own. c;
              },
            )
      ]
    ]
  ]
