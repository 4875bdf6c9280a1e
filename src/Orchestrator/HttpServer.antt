-- ===== src/Orchestrator/HttpServer.antt =====
-- crates/madrpc-orchestrator/src/http_server.rs: the checks that a request passes on its way to the
-- router, in their order. A header is none where it is missing; `unreadable` is one that is not text.
pub mod Gate
use text.Mathlib.Text.{find?}
use madrpc.Prelude.{
  ℕ, zero, suc, ◌/◌, String, Bool, true, false, not, ◌&&◌, Option, none, some, List, [], ◌∷◌,
  if◌then◌else◌,
}
use mathlib.Core.Option
use madrpc.Prelude.HashMap.{is_some}
use Prim.Native.String.{◌++◌ as ◌<>◌}
use madrpc.Float.{F64}
use madrpc.Protocol.{MadrpcError, Result, ok, err, display}
use madrpc.Builtin.{Json}
use madrpc.Auth.{AuthConfig, requires_auth, validate_api_key}
use madrpc.RateLimit.{RateLimiter, is_allowed, retry_after, check_rate_limit}
use madrpc.Transport.{HttpResponse, plain_text, limited, parse_jsonrpc, to_http_response}
use madrpc.Orchestrator.{RetryConfig}
use madrpc.Orchestrator.Router.{Service, World, handle_request}

-- A header's value, as its bytes and as text.
pub data Header : Type 0 where
  unreadable : Header
  readable : List ℕ → String → Header

pub record HttpRequest (IpAddr : Type 0) : Type 0 where
  pub client_ip : IpAddr
  pub x_api_key : Option Header
  pub content_type : Option Header
  pub body : List ℕ

-- `headers.get("x-api-key").and_then(|v| v.to_str().ok()).unwrap_or("")`.
abbrev pub key_bytes : Option Header → List ℕ
key_bytes none = []
key_bytes (some unreadable) = []
key_bytes (some (readable bytes chars)) = bytes

unfoldable pub is_json : Option Header → Bool
is_json none = true
is_json (some unreadable) = false
is_json (some (readable bytes chars)) = is_some (find? chars "application/json")

unfoldable pub unauthorized_response : {V : Type 0} → HttpResponse V
unauthorized_response = record {
  status = 401;
  retry_after = none;
  content =
      plain_text
        "{\"jsonrpc\":\"2.0\",\"error\":{\"code\":-401,\"message\":\"Unauthorized: Invalid or missing API key\"},\"id\":null}";
}

-- `d.as_secs().to_string()`, of nanoseconds, and "1" where there is no time.
abbrev pub retry_after_secs : (ℕ → String) → Option ℕ → String
retry_after_secs show none = "1"
retry_after_secs show (some wait) = show (wait / 1000000000)

unfoldable pub rate_limited_response : {V : Type 0} → (ℕ → String) → Option ℕ → HttpResponse V
rate_limited_response show wait = record {
  status = 429;
  retry_after = some (retry_after_secs show wait);
  content = limited (retry_after_secs show wait);
}

abbrev pub plain_response : {V : Type 0} → ℕ → String → HttpResponse V
plain_response status body = record {
  status = status;
  retry_after = none;
  content = plain_text body;
}

abbrev pub unparsed_response : {V : Type 0} → (ℕ → String) → MadrpcError → HttpResponse V
unparsed_response show e = plain_response 400 ("Invalid JSON-RPC: " <> display show e)

module _ {F : F64} {V : Type 0} {IpAddr : Type 0} (ip_dec : Discrete IpAddr) (J : Json V)
    (version : String) (config : RetryConfig F) (w : World F V) (auth_config : AuthConfig) where
  -- From the authentication on. `none` is a panic.
  unfoldable pub admit : HttpRequest IpAddr → Service F → Option (Service F × HttpResponse V)
  admit req s =
      if requires_auth auth_config && not (validate_api_key (key_bytes req.x_api_key) auth_config)
      then some (s, unauthorized_response)
      else if not (is_json req.content_type)
      then some (s, plain_response 415 "Content-Type must be application/json")
      else elim (parse_jsonrpc J.from_slice req.body) [
        | err e ↦ some (s, unparsed_response J.show e)
        | ok jsonrpc_req ↦ elim (handle_request J version config w jsonrpc_req s) [
          | none ↦ none
          | some (s', response) ↦ some (s', to_http_response response)
        ]
      ]

  unfoldable pub handle_jsonrpc :
      HttpRequest IpAddr
      → ℕ
      → RateLimiter F IpAddr
      → Service F
      → Option (RateLimiter F IpAddr × Service F × HttpResponse V)
  handle_jsonrpc req now limiter s =
      let (limiter', answer) = check_rate_limit ip_dec req.client_ip now limiter in
      elim answer [
        | none ↦ none
        | some rate_limit_result ↦
            if not (is_allowed rate_limit_result)
            then some (limiter', s, rate_limited_response J.show (retry_after rate_limit_result))
            else elim (admit req s) [
              | none ↦ none
              | some (s', response) ↦ some (limiter', s', response)
            ]
      ]
