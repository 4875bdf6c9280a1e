-- ===== src/Server/Gate.antt =====
-- Which requests reach a node's router, and what the others are answered.
use madrpc.Prelude.{
  ℕ, ◌≡◌, ◌⊎◌, inl, inr, refl, String, true, false, not, ◌&&◌, some, List, length, ltb, Bool-cases,
}
use madrpc.Float.{F64}
use madrpc.Protocol.{
  MadrpcError, Result, ok, err, JsonRpcRequest, JsonRpcResponse, invalid_request_error,
  internal_error, request_too_large, parse_error,
}
use madrpc.Builtin.{Json}
use madrpc.Auth.{AuthConfig, requires_auth, validate_api_key}
use madrpc.Auth.Equality.{AreBytes}
use madrpc.RateLimit.{RateLimiter, RateLimitResult, is_allowed, retry_after, check_rate_limit}
use madrpc.Metrics.Registry.{State}
use madrpc.Metrics.Registry.Counters.{IsBalanced}
use madrpc.Transport.{HttpResponse, parse_jsonrpc, to_http_response, to_http_error}
use madrpc.Orchestrator.HttpServer.{key_bytes, unauthorized_response, rate_limited_response}
use madrpc.Orchestrator.HttpServer.Gate.{Accepts, unlocked-Accepts, locked-Accepts}
use madrpc.Server.{
  ResourceLimits, NodeWorld, NodeHttpRequest, max_body_size, handle_body, admit_node_request,
  handle_http_request,
}
use madrpc.Server.Answers.{Settled, handle_node_request-Settled}

module _ (F : F64) {V : Type 0} {IpAddr : Type 0} (ip_dec : Discrete IpAddr) (J : Json V)
    (version : String) (limits : ResourceLimits) (w : NodeWorld V) (auth_config : AuthConfig)
    (req : NodeHttpRequest IpAddr) (metrics : State) where
  -- Why a request is not handled, and what it is answered.
  pub data Declined (answer : RateLimitResult) (response : HttpResponse V) : Type 0 where
    too_many : is_allowed answer ≡ false → response.status ≡ 429 → Declined answer response
    unauthorized :
        ¬ Accepts auth_config (key_bytes req.x_api_key)
        → response.status ≡ 401
        → Declined answer response
    no_post :
        req.is_post ≡ false
        → response ≡ to_http_error J.null invalid_request_error
        → Declined answer response
    unread :
        (e : String)
        → req.body ≡ inl e
        → response ≡ to_http_error J.null (internal_error "Failed to read request body")
        → Declined answer response
    too_large :
        (body : List ℕ)
        → req.body ≡ inr body
        → ltb max_body_size (length body) ≡ true
        → response ≡ to_http_error J.null (request_too_large (J.show max_body_size))
        → Declined answer response
    unparsable :
        (body : List ℕ) (e : MadrpcError)
        → req.body ≡ inr body
        → parse_jsonrpc J.from_slice body ≡ err e
        → response ≡ to_http_error J.null parse_error
        → Declined answer response

  -- A request that passes all checks is answered by the router.
  pub record Served (answer : RateLimitResult) (metrics' : State) (response : HttpResponse V)
      : Type 0 where
    pub allowed : is_allowed answer ≡ true
    pub authorized : Accepts auth_config (key_bytes req.x_api_key)
    pub posted : req.is_post ≡ true
    pub body : List ℕ
    pub read : req.body ≡ inr body
    pub small : ltb max_body_size (length body) ≡ false
    pub jsonrpc_req : JsonRpcRequest V
    pub parsed : parse_jsonrpc J.from_slice body ≡ ok jsonrpc_req
    pub jsonrpc_response : JsonRpcResponse V
    pub settled : Settled F J version limits w jsonrpc_req metrics metrics' jsonrpc_response
    pub sent : response ≡ to_http_response jsonrpc_response

  abbrev Screened : RateLimitResult → State → HttpResponse V → Type 0
  Screened answer metrics' response =
      Served answer metrics' response ⊎ ((metrics' ≡ metrics) × Declined answer response)

  module _ (b : IsBalanced metrics.registry) (answer : RateLimitResult)
      (a : is_allowed answer ≡ true) (accepted : Accepts auth_config (key_bytes req.x_api_key))
      (posted : req.is_post ≡ true) where
    parsed-Screened :
        (body : List ℕ)
        → req.body ≡ inr body
        → ltb max_body_size (length body) ≡ false
        → (x : Result (JsonRpcRequest V)) → parse_jsonrpc J.from_slice body ≡ x
        → (metrics' : State) × (response : HttpResponse V) × (handle_body F ip_dec J version limits
              w auth_config body metrics
            ≡ some (metrics', response))
          × Screened answer metrics' response
    unfolding handle_body
    parsed-Screened body read small (err e) q = (
      metrics,
      to_http_error J.null parse_error,
      rw (small, q, handle_body) refl,
      inr (refl, unparsable body e read q refl),
    )
    parsed-Screened body read small (ok jsonrpc_req) q =
        let (metrics', r, done, settled) =
          handle_node_request-Settled F J version limits w jsonrpc_req metrics b in
        (
          metrics',
          to_http_response r,
          rw (small, q, done, handle_body) refl,
          inl (record {
            allowed = a;
            authorized = accepted;
            posted = posted;
            body = body;
            read = read;
            small = small;
            jsonrpc_req = jsonrpc_req;
            parsed = q;
            jsonrpc_response = r;
            settled = settled;
            sent = refl;
          }),
        )

    body-Screened :
        (body : List ℕ)
        → req.body ≡ inr body
        → (metrics' : State) × (response : HttpResponse V) × (handle_body F ip_dec J version limits
              w auth_config body metrics
            ≡ some (metrics', response))
          × Screened answer metrics' response
    unfolding handle_body
    body-Screened body read = elim (Bool-cases (ltb max_body_size (length body))) [
      | inl large ↦ (
        metrics,
        to_http_error J.null (request_too_large (J.show max_body_size)),
        rw (large, handle_body) refl,
        inr (refl, too_large body read large refl),
      )
      | inr small ↦ parsed-Screened body read small (parse_jsonrpc J.from_slice body) refl
    ]

  module _ (hk : AreBytes (key_bytes req.x_api_key))
      (hc : (expected : List ℕ) → auth_config.api_key ≡ some expected → AreBytes expected)
      (b : IsBalanced metrics.registry) (answer : RateLimitResult)
      (a : is_allowed answer ≡ true) where
    read-Screened :
        (requires_auth auth_config && not (validate_api_key (key_bytes req.x_api_key) auth_config))
          ≡ false
        → req.is_post ≡ true
        → (x : String ⊎ List ℕ) → req.body ≡ x
        → (metrics' : State) × (response : HttpResponse V) × (admit_node_request F ip_dec J version
              limits w auth_config req metrics
            ≡ some (metrics', response))
          × Screened answer metrics' response
    unfolding admit_node_request
    read-Screened k p (inl e) q = (
      metrics,
      to_http_error J.null (internal_error "Failed to read request body"),
      rw (k, p, q, admit_node_request) refl,
      inr (refl, unread e q refl),
    )
    read-Screened k p (inr body) q =
        let (metrics', response, done, screened) =
          body-Screened b answer a (unlocked-Accepts auth_config (key_bytes req.x_api_key) hk hc k)
            p body q in
        (metrics', response, rw (k, p, q, admit_node_request) done, screened)

    admit-Screened :
        (metrics' : State) × (response : HttpResponse V) × (admit_node_request F ip_dec J version
            limits w auth_config req metrics
          ≡ some (metrics', response))
        × Screened answer metrics' response
    unfolding admit_node_request unauthorized_response
    admit-Screened =
        elim (Bool-cases (
          requires_auth auth_config
          && not (validate_api_key (key_bytes req.x_api_key) auth_config))) [
            | inl locked ↦ (
              metrics,
              unauthorized_response,
              rw (locked, admit_node_request) refl,
              inr (
                refl,
                unauthorized (locked-Accepts auth_config (key_bytes req.x_api_key) hk hc locked)
                    refl,
              ),
            )
            | inr k ↦ elim (Bool-cases req.is_post) [
              | inl p ↦ read-Screened k p req.body refl
              | inr n ↦ (
                metrics,
                to_http_error J.null invalid_request_error,
                rw (k, n, admit_node_request) refl,
                inr (refl, no_post n refl),
              )
            ]
          ]

  -- A request to a node that gets an answer from the rate limiter is handled by the router
  -- exactly if the limiter allows it, its key is the configured one or none is configured, it
  -- is a POST, its body is read, has at most 10 MiB and is parsed. The response then has the
  -- request's id and a result or an error; the metrics count a call that has finished, by its
  -- outcome, and nothing for a built-in method or for a call that ran out of time. Otherwise
  -- the metrics are unchanged and the answer names a check that the request fails. Keys are
  -- bytes, and the registry is balanced.
  pub handle_http_request-Screened :
      (now : ℕ) (limiter : RateLimiter F IpAddr) (answer : RateLimitResult)
      → AreBytes (key_bytes req.x_api_key)
      → ((expected : List ℕ) → auth_config.api_key ≡ some expected → AreBytes expected)
      → IsBalanced metrics.registry
      → (check_rate_limit ip_dec req.client_ip now limiter).1 ≡ some answer
      → (metrics' : State) × (response : HttpResponse V) × (handle_http_request F ip_dec J version
            limits w auth_config req now limiter metrics
          ≡ some ((check_rate_limit ip_dec req.client_ip now limiter).0, metrics', response))
        × (Served answer metrics' response ⊎ ((metrics' ≡ metrics) × Declined answer response))
  unfolding handle_http_request rate_limited_response
  handle_http_request-Screened now limiter answer hk hc b checked =
      elim (Bool-cases (is_allowed answer)) [
        | inl a ↦
            let (metrics', response, done, screened) = admit-Screened hk hc b answer a in
            (metrics', response, rw (checked, a, done, handle_http_request) refl, screened)
        | inr n ↦ (
          metrics,
          rate_limited_response J.show (retry_after answer),
          rw (checked, n, handle_http_request) refl,
          inr (refl, too_many n refl),
        )
      ]
