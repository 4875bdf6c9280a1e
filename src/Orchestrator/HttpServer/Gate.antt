-- ===== src/Orchestrator/HttpServer/Gate.antt =====
-- Which requests reach the router, and what the others are answered.
use madrpc.Prelude.{
  ℕ, ◌≡◌, ◌⊎◌, inl, inr, refl, String, true, false, not, ◌&&◌, none, some, List, arith, Bool-cases,
  Option-cases,
}
use madrpc.Float.{F64}
use madrpc.Protocol.{MadrpcError, Result, ok, err, JsonRpcRequest, JsonRpcResponse}
use madrpc.Builtin.{Json}
use madrpc.Auth.{AuthConfig, requires_auth, validate_api_key}
use madrpc.Auth.Equality.{AreBytes, validate_api_key-accepts}
use madrpc.RateLimit.{RateLimiter, RateLimitResult, is_allowed, retry_after, check_rate_limit}
use madrpc.Metrics.Registry.Counters.{IsBalanced}
use madrpc.Transport.{HttpResponse, parse_jsonrpc, to_http_response}
use madrpc.Orchestrator.{RetryConfig}
use madrpc.Orchestrator.Router.{Service, World, handle_request}
use madrpc.Orchestrator.Router.Answers.{Answered, handle_request-Answered}
use madrpc.Orchestrator.HttpServer.{
  HttpRequest, key_bytes, is_json, unauthorized_response, rate_limited_response, plain_response,
  unparsed_response, admit, handle_jsonrpc,
}

-- No key is configured, or the key is the configured one.
abbrev pub Accepts : AuthConfig → List ℕ → Type 0
Accepts config key = (config.api_key ≡ none) ⊎ (config.api_key ≡ some key)

module _ (auth_config : AuthConfig) (key : List ℕ) (hk : AreBytes key)
    (hc : (expected : List ℕ) → auth_config.api_key ≡ some expected → AreBytes expected) where
  pub unlocked-Accepts :
      (requires_auth auth_config && not (validate_api_key key auth_config)) ≡ false
      → Accepts auth_config key
  unfolding requires_auth
  unlocked-Accepts free = elim (Option-cases auth_config.api_key) [
    | inl n ↦ inl n
    | inr (expected, e) ↦ (validate_api_key-accepts key auth_config hk hc).0 (ground arith)
  ]

  pub locked-Accepts :
      (requires_auth auth_config && not (validate_api_key key auth_config)) ≡ true
      → ¬ Accepts auth_config key
  unfolding requires_auth
  locked-Accepts locked a =
      let valid = (validate_api_key-accepts key auth_config hk hc).1 a in ground arith

module _ {F : F64} {V : Type 0} {IpAddr : Type 0} (ip_dec : Discrete IpAddr) (J : Json V)
    (version : String) (config : RetryConfig F) (w : World F V) (auth_config : AuthConfig)
    (req : HttpRequest IpAddr) (s : Service F) where
  -- Why a request is not handled, and the status it is answered with.
  pub data Refused (answer : RateLimitResult) (status : ℕ) : Type 0 where
    too_many : is_allowed answer ≡ false → status ≡ 429 → Refused answer status
    unauthorized :
        ¬ Accepts auth_config (key_bytes req.x_api_key) → status ≡ 401 → Refused answer status
    not_json : is_json req.content_type ≡ false → status ≡ 415 → Refused answer status
    unparsable :
        (e : MadrpcError)
        → parse_jsonrpc J.from_slice req.body ≡ err e
        → status ≡ 400
        → Refused answer status

  -- A request that passes all checks is answered by the router.
  pub record Handled (answer : RateLimitResult) (s' : Service F) (response : HttpResponse V)
      : Type 0 where
    pub allowed : is_allowed answer ≡ true
    pub authorized : Accepts auth_config (key_bytes req.x_api_key)
    pub json : is_json req.content_type ≡ true
    pub jsonrpc_req : JsonRpcRequest V
    pub parsed : parse_jsonrpc J.from_slice req.body ≡ ok jsonrpc_req
    pub jsonrpc_response : JsonRpcResponse V
    pub routed : handle_request J version config w jsonrpc_req s ≡ some (s', jsonrpc_response)
    pub answered : Answered J version config w jsonrpc_req s s' jsonrpc_response
    pub sent : response ≡ to_http_response jsonrpc_response

  abbrev Gated : RateLimitResult → Service F → HttpResponse V → Type 0
  Gated answer s' response =
      Handled answer s' response ⊎ ((s' ≡ s) × Refused answer response.status)

  module _ (hk : AreBytes (key_bytes req.x_api_key))
      (hc : (expected : List ℕ) → auth_config.api_key ≡ some expected → AreBytes expected)
      (b : IsBalanced s.metrics.registry) (answer : RateLimitResult) where
    parsed-Gated :
        is_allowed answer ≡ true
        → (requires_auth auth_config
            && not (validate_api_key (key_bytes req.x_api_key) auth_config))
          ≡ false
        → is_json req.content_type ≡ true
        → (x : Result (JsonRpcRequest V)) → parse_jsonrpc J.from_slice req.body ≡ x
        → (s' : Service F) × (response : HttpResponse V) × (admit ip_dec J version config w
              auth_config req s
            ≡ some (s', response))
          × Gated answer s' response
    unfolding admit
    parsed-Gated a k j (err e) q =
        (s, unparsed_response J.show e, rw (k, j, q, admit) refl, inr (refl, unparsable e q refl))
    parsed-Gated a k j (ok jsonrpc_req) q =
        let (s', r, done, answered) = handle_request-Answered J version config w jsonrpc_req s b in
        (
          s',
          to_http_response r,
          rw (k, j, q, done, admit) refl,
          inl (record {
            allowed = a;
            authorized = unlocked-Accepts auth_config (key_bytes req.x_api_key) hk hc k;
            json = j;
            jsonrpc_req = jsonrpc_req;
            parsed = q;
            jsonrpc_response = r;
            routed = done;
            answered = answered;
            sent = refl;
          }),
        )

    admit-Gated :
        is_allowed answer ≡ true
        → (s' : Service F) × (response : HttpResponse V) × (admit ip_dec J version config w
              auth_config req s
            ≡ some (s', response))
          × Gated answer s' response
    unfolding admit unauthorized_response
    admit-Gated a =
        elim (Bool-cases (
          requires_auth auth_config
          && not (validate_api_key (key_bytes req.x_api_key) auth_config))) [
            | inl locked ↦ (
              s,
              unauthorized_response,
              rw (locked, admit) refl,
              inr (
                refl,
                unauthorized (locked-Accepts auth_config (key_bytes req.x_api_key) hk hc locked)
                    refl,
              ),
            )
            | inr k ↦ elim (Bool-cases (is_json req.content_type)) [
              | inl j ↦ parsed-Gated a k j (parse_jsonrpc J.from_slice req.body) refl
              | inr n ↦ (
                s,
                plain_response 415 "Content-Type must be application/json",
                rw (k, n, admit) refl,
                inr (refl, not_json n refl),
              )
            ]
          ]

  -- A request that gets an answer from the rate limiter is handled by the router exactly if
  -- the limiter allows it, its key is the configured one or none is configured, its content
  -- type is missing or names JSON, and its body is parsed; the response then carries the
  -- router's answer. Otherwise the balancer and the metrics are unchanged, and the status is
  -- 429, 401, 415 or 400 for a check that the request fails. Keys are bytes, and the registry
  -- is balanced.
  pub handle_jsonrpc-Gated :
      (now : ℕ) (limiter : RateLimiter F IpAddr) (answer : RateLimitResult)
      → AreBytes (key_bytes req.x_api_key)
      → ((expected : List ℕ) → auth_config.api_key ≡ some expected → AreBytes expected)
      → IsBalanced s.metrics.registry
      → (check_rate_limit ip_dec req.client_ip now limiter).1 ≡ some answer
      → (s' : Service F) × (response : HttpResponse V) × (handle_jsonrpc ip_dec J version config w
            auth_config req now limiter s
          ≡ some ((check_rate_limit ip_dec req.client_ip now limiter).0, s', response))
        × (Handled answer s' response ⊎ ((s' ≡ s) × Refused answer response.status))
  unfolding handle_jsonrpc rate_limited_response
  handle_jsonrpc-Gated now limiter answer hk hc b checked = elim (Bool-cases (is_allowed answer)) [
    | inl a ↦
        let (s', response, done, gated) = admit-Gated hk hc b answer a in
        (s', response, rw (checked, a, done, handle_jsonrpc) refl, gated)
    | inr n ↦ (
      s,
      rate_limited_response J.show (retry_after answer),
      rw (checked, n, handle_jsonrpc) refl,
      inr (refl, too_many n refl),
    )
  ]
