-- ===== src/Server/Relay.antt =====
-- A request from a client through the orchestrator to a node and back: what comes of the node's result.
use text.Mathlib.Text.{◌==◌}
use madrpc.Prelude.{
  not, ℕ, ◌-◌, ◌/◌, ◌≡◌, ◌⊎◌, inl, inr, refl, sym, ap, ◌∙◌, subst, String, Bool, true, false, ◌||◌,
  none, some, [], ◌∷◌, arith, Bool-cases, ltb,
}
use madrpc.Prelude.Word.{u64}
use madrpc.Float.{F64}
use madrpc.Protocol.{
  MadrpcError, java_script_execution, invalid_request, is_retryable, display, Result, ok, err,
  JsonRpcRequest, JsonRpcResponse, success, failure, server_error, method_not_found,
}
use madrpc.Builtin.{Json}
use madrpc.Client.{responded, parsed, error_of_code, try_call}
use madrpc.Metrics.Registry.{State}
use madrpc.Metrics.Registry.Counters.{IsBalanced}
use madrpc.Metrics.Registry.Events.{report_all-Counted}
use madrpc.Metrics.Recording.{is_metrics_request}
use madrpc.LoadBalancer.{LoadBalancer, next_node}
use madrpc.Orchestrator.{
  RetryConfig, is_retryable_static, node_requested, call_recorded, Forwarded, retry_from, forward,
}
use madrpc.Orchestrator.Router.{
  Service, World, events_of, no_nodes_message, forward_request_jsonrpc, respond, forward_to_node,
  handle_request,
}
use madrpc.Server.{ResourceLimits, NodeWorld, call_rpc, rpc_error, respond_to, handle_node_request}

-- A method of neither server's own.
abbrev pub is_plain : String → Bool
is_plain method =
    not (
      (method == "_metrics" || method == "_info") || (method == "_register" || method == "_health"))

-- What a client makes of a response that it receives.
abbrev pub received : {V : Type 0} → V → String → JsonRpcResponse V → Result V
received null text r = try_call null (responded 200 text (parsed r))

-- The error that arrives is final for the client and for the orchestrator.
abbrev pub IsFinal : MadrpcError → Type 0
IsFinal e = (is_retryable e ≡ false) × (is_retryable_static e ≡ false)

-- What has become of a result: the same value, or an error that is final.
abbrev pub Relayed : {V : Type 0} → Result V → Result V → Type 0
Relayed (ok v) y = y ≡ ok v
Relayed (err e) y = (e' : MadrpcError) × (y ≡ err e') × IsFinal e'

module _ (F : F64) {V : Type 0} (J : Json V) (version : String) (limits : ResourceLimits)
    (nw : NodeWorld V) where
  method_not_found-Relayed :
      (null id : V) (text : String)
      → (e' : MadrpcError) × (received null text (failure id method_not_found) ≡ err e')
        × IsFinal e'
  unfolding try_call error_of_code failure method_not_found is_retryable is_retryable_static
  method_not_found-Relayed null id text = (_, refl, (refl, refl))

  server_error-Relayed :
      (null id : V) (text msg : String)
      → (received null text (failure id (server_error msg)) ≡ err (java_script_execution msg))
        × IsFinal (java_script_execution msg)
  unfolding try_call error_of_code failure server_error is_retryable is_retryable_static
  server_error-Relayed null id text msg = (refl, (refl, refl))

  rpc_error-cases :
      (e : MadrpcError)
      → (rpc_error F J version limits nw e ≡ method_not_found)
        ⊎ ((msg : String) × (rpc_error F J version limits nw e ≡ server_error msg))
  unfolding rpc_error
  rpc_error-cases (MadrpcError.transport msg) = inl refl
  rpc_error-cases (MadrpcError.json_serialization msg) = inl refl
  rpc_error-cases (MadrpcError.request_timeout ms) = inl refl
  rpc_error-cases (MadrpcError.node_unavailable msg) = inl refl
  rpc_error-cases (MadrpcError.invalid_response msg) = inl refl
  rpc_error-cases (MadrpcError.all_nodes_failed) = inl refl
  rpc_error-cases (invalid_request msg) = inl refl
  rpc_error-cases (MadrpcError.io msg) = inl refl
  rpc_error-cases (MadrpcError.connection msg) = inl refl
  rpc_error-cases (MadrpcError.pool_timeout ms) = inl refl
  rpc_error-cases (MadrpcError.pool_exhausted msg) = inl refl
  rpc_error-cases (MadrpcError.payload_too_large size limit) = inl refl
  rpc_error-cases (java_script_execution msg) = inr (msg, refl)

  -- From the node to whoever asked it.
  respond_to-Relayed :
      (null id : V) (text : String) (result : Result V)
      → Relayed result (
          received null text
            (respond_to F J version limits nw id (λ v. v) (rpc_error F J version limits nw) result))
  unfolding try_call success
  respond_to-Relayed null id text (ok v) = refl
  respond_to-Relayed null id text (err e) = elim (rpc_error-cases e) [
    | inl q ↦
        subst (λ x. (e' : MadrpcError) × (received null text (failure id x) ≡ err e') × IsFinal e')
          (sym q) (method_not_found-Relayed null id text)
    | inr (msg, q) ↦
        let (arrives, final) = server_error-Relayed null id text msg in
        subst (λ x. (e' : MadrpcError) × (received null text (failure id x) ≡ err e') × IsFinal e')
          (sym q) (java_script_execution msg, arrives, final)
  ]

-- A request that has asked one node.
abbrev asked_once : {F : F64} {V : Type 0} → String → LoadBalancer F → Result V → Forwarded F V
asked_once addr lb (ok v) = record {
  result = ok v;
  balancer = lb;
  effects = node_requested addr ∷ call_recorded true ∷ [];
}
asked_once addr lb (err e) = record {
  result = err e;
  balancer = lb;
  effects = node_requested addr ∷ [];
}

-- The first attempt decides: it succeeds, or fails in a way that the orchestrator does not retry.
first_attempt :
    {F : F64} {V : Type 0} (config : RetryConfig F) (send : ℕ → String → Result V)
    (others : ℕ → LoadBalancer F → LoadBalancer F) (message : ℕ → String) (now : ℕ → ℕ)
    (lb lb' : LoadBalancer F) (addr : String) (x y : Result V)
    → next_node (now 0) lb ≡ some (some addr, lb')
    → send 0 addr ≡ y
    → Relayed x y
    → forward config send others message now lb ≡ some (asked_once addr lb' y)
unfolding forward retry_from
first_attempt config send others message now lb lb' addr (ok v) y picked sent q =
    rw (picked, sent, q, forward, retry_from) refl
first_attempt config send others message now lb lb' addr (err e) y picked sent (e', q, final) =
    elim (Bool-cases (ltb 0 config.max_retries)) [
      | inl t ↦ rw (picked, sent, q, final.1, t, forward, retry_from) refl
      | inr f ↦ rw (picked, sent, q, final.1, f, forward, retry_from) refl
    ]

asked_once-parts :
    {F : F64} {V : Type 0} (addr : String) (lb : LoadBalancer F) (y : Result V)
    → ((asked_once addr lb y).result ≡ y) × ((asked_once addr lb y).balancer ≡ lb)
asked_once-parts addr lb (ok v) = (refl, refl)
asked_once-parts addr lb (err e) = (refl, refl)

module _ {F : F64} {V : Type 0} (J : Json V) (version : String) (config : RetryConfig F)
    (w : World F V) where
  -- A request that is forwarded, when its first attempt decides.
  forwarded_once :
      (req : JsonRpcRequest V) (s : Service F) (lb' : LoadBalancer F) (addr : String)
      (x y : Result V)
      → is_metrics_request req.method ≡ false
      → IsBalanced s.metrics.registry
      → next_node (w.clock 0) s.balancer ≡ some (some addr, lb')
      → w.send req.method req.params 0 addr ≡ y
      → Relayed x y
      → (metrics : State) × (forward_request_jsonrpc J version config w req s
          ≡ some (record { balancer = lb'; metrics = metrics }, y))
  unfolding forward_request_jsonrpc
  forwarded_once req s lb' addr x y plain b picked sent q =
      let first =
        first_attempt config (w.send req.method req.params) w.others
          (no_nodes_message J version config w) w.clock s.balancer lb' addr x y picked sent q in
      let (metrics, reported, c) =
        report_all-Counted
          (events_of w.system_time req.method (u64 ((w.end_ - w.start) / 1000))
            (asked_once addr lb' y).effects)
          s.metrics b in
      let (result, balancer) = asked_once-parts addr lb' y in
      (metrics, rw (plain, first, reported, result, balancer, forward_request_jsonrpc) refl)

  -- From the orchestrator to the client.
  respond-Relayed :
      (null id : V) (text : String) (x y : Result V)
      → Relayed x y
      → Relayed x (received null text (respond J version config w id (λ v. v) server_error y))
  unfolding try_call success failure server_error error_of_code is_retryable is_retryable_static
  respond-Relayed null id text (ok v) y q =
      subst (λ z. received null text (respond J version config w id (λ v. v) server_error z) ≡ ok v)
        (sym q) refl
  respond-Relayed null id text (err e) y (e', q, final) = (
    java_script_execution (display J.show e'),
    ap (λ z. received null text (respond J version config w id (λ v. v) server_error z)) q,
    (refl, refl),
  )

  module _ (limits : ResourceLimits) (nw : NodeWorld V) where
    node-plain :
        (req : JsonRpcRequest V) (metrics metrics' : State) (result : Result V)
        → is_plain req.method ≡ true
        → call_rpc F J version limits nw req.method req.params metrics ≡ some (metrics', result)
        → handle_node_request F J version limits nw req metrics
          ≡ some (
            metrics',
            respond_to F J version limits nw req.id
                (λ v. v)
                (rpc_error F J version limits nw)
                result,
          )
    unfolding handle_node_request
    node-plain req metrics metrics' result plain called =
        let h : (req.method == "_health") ≡ false = ground arith in
        let m : (req.method == "_metrics") ≡ false = ground arith in
        let i : (req.method == "_info") ≡ false = ground arith in
        rw (h, m, i, called, handle_node_request) refl

    -- A call through client, orchestrator and node, when the method is none of the servers'
    -- own, the registry is balanced, the first attempt picks a node, the node settles the
    -- call, and what the orchestrator receives is the node's answer: the orchestrator asks
    -- no other node. The client receives the value that the call returned, or, whatever
    -- error the call ended with, an error that neither the orchestrator nor the client
    -- retries.
    pub handle_request-Relayed :
        (req node_req : JsonRpcRequest V) (s : Service F) (metrics metrics' : State)
        (lb' : LoadBalancer F) (addr text : String) (result : Result V)
        (node_response : JsonRpcResponse V)
        → is_plain req.method ≡ true
        → node_req.method ≡ req.method
        → IsBalanced s.metrics.registry
        → next_node (w.clock 0) s.balancer ≡ some (some addr, lb')
        → call_rpc F J version limits nw node_req.method node_req.params metrics
          ≡ some (metrics', result)
        → handle_node_request F J version limits nw node_req metrics
          ≡ some (metrics', node_response)
        → w.send req.method req.params 0 addr ≡ received J.null text node_response
        → (s' : Service F) × (response : JsonRpcResponse V) × (handle_request J version config w req
              s
            ≡ some (s', response))
          × (s'.balancer ≡ lb')
          × Relayed result (received J.null text response)
    unfolding handle_request forward_to_node is_metrics_request
    handle_request-Relayed req node_req s metrics metrics' lb' addr text result node_response plain
          same b picked called handled sent =
        let m : (req.method == "_metrics") ≡ false = ground arith in
        let i : (req.method == "_info") ≡ false = ground arith in
        let g : (req.method == "_register") ≡ false = ground arith in
        let response' =
          respond_to F J version limits nw node_req.id (λ v. v) (rpc_error F J version limits nw)
            result in
        let arrives : node_response ≡ response' =
          ap (λ o. elim o [ none ↦ node_response | some p ↦ p.1 ])
            (sym handled
              ∙ node-plain node_req metrics metrics' result (ap is_plain same ∙ plain) called) in
        let answer = received J.null text response' in
        let relayed = respond_to-Relayed F J version limits nw J.null node_req.id text result in
        let (after, done) =
          forwarded_once req s lb' addr result answer (ground (arith, m, i)) b picked
            (sent ∙ ap (received J.null text) arrives) relayed in
        (
          record { balancer = lb'; metrics = after },
          respond J version config w req.id (λ v. v) server_error answer,
          rw (m, i, g, done, handle_request, forward_to_node) refl,
          refl,
          respond-Relayed J.null req.id text result answer relayed,
        )
