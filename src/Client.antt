-- ===== src/Client.antt =====
-- crates/madrpc-client/src/client.rs: one call over HTTP and its retries. What HTTP and JSON answer to
-- an attempt is an argument, `Exchange`; the random numbers of the jitter are one too.
pub mod Config
pub mod Errors
pub mod Retries
use Prim.Native.String.{◌++◌}
use madrpc.Prelude.{
  ℕ, zero, suc, ◌+◌, ◌%◌, ◌*◌, String, Bool, true, false, ◌&&◌, Option, none, some, List, [], ◌∷◌,
  ltb, leb, ◌==◌, if◌then◌else◌,
}
use madrpc.Float.{F64, ℤ, pos, negsuc}
use madrpc.Protocol.{
  MadrpcError, transport, json_serialization, node_unavailable, java_script_execution,
  invalid_response, invalid_request, is_retryable, Result, ok, err, JsonRpcError, JsonRpcResponse,
}
use Config.{RetryConfig, calculate_delay, Draw}

-- `code == n` and `code >= -32099 && code <= -32001`.
abbrev pub is_code : ℤ → ℕ → Bool
is_code (pos m) n = false
is_code (negsuc m) n = m + 1 == n

abbrev pub in_server_range : ℤ → Bool
in_server_range (pos m) = false
in_server_range (negsuc m) = leb 32000 m && leb m 32098

-- The error of a response, by its code: the arms of the `match` in their order.
unfoldable pub error_of_code : {V : Type 0} → JsonRpcError V → MadrpcError
error_of_code e =
    if is_code e.code 32700
    then invalid_response ("Parse error: " ++ e.message)
    else if is_code e.code 32600
    then invalid_response ("Invalid request: " ++ e.message)
    else if is_code e.code 32601
    then invalid_request ("Method not found: " ++ e.message)
    else if is_code e.code 32602
    then invalid_request ("Invalid params: " ++ e.message)
    else if is_code e.code 32603
    then node_unavailable ("Internal error: " ++ e.message)
    else if in_server_range e.code
    then node_unavailable e.message
    else if is_code e.code 32001
    then invalid_request e.message
    else java_script_execution e.message

-- The body of a response, or what went wrong with it.
pub data Body (V : Type 0) : Type 0 where
  unread : String → Body V
  unparsed : String → Body V
  parsed : JsonRpcResponse V → Body V

-- What an attempt meets, up to the response. A status is its number and its text.
pub data Exchange (V : Type 0) : Type 0 where
  unserialized : String → Exchange V
  unbuilt : String → Exchange V
  unsent : String → Exchange V
  responded : ℕ → String → Body V → Exchange V

module _ {V : Type 0} (null : V) where
  value_or_null : Option V → V
  value_or_null none = null
  value_or_null (some v) = v

  check_error : Option (JsonRpcError V) → Option V → Result V
  unfolding value_or_null
  check_error (some e) result = err (error_of_code e)
  check_error none result = ok (value_or_null result)

  read_body : Body V → Result V
  unfolding check_error
  read_body (unread e) = err (transport ("Failed to read response body: " ++ e))
  read_body (unparsed e) = err (invalid_response ("Failed to parse JSON-RPC response: " ++ e))
  read_body (parsed res) = check_error res.error res.result

  -- `status.is_success()` is 200 to 299, `is_server_error()` 500 to 599.
  unfoldable pub try_call : Exchange V → Result V
  unfolding read_body
  try_call (unserialized e) = err (json_serialization e)
  try_call (unbuilt e) = err (invalid_request ("Invalid HTTP request: " ++ e))
  try_call (unsent e) = err (transport ("HTTP request failed: " ++ e))
  try_call (responded status text body) =
      if leb 200 status && leb status 299
      then read_body body
      else if leb 500 status && leb status 599
      then err (transport ("HTTP error: " ++ text))
      else err (invalid_response ("HTTP error: " ++ text))

-- The end of a call: its result, how many attempts it made, and the delays that it slept, in
-- milliseconds, the first one first.
pub record Outcome (V : Type 0) : Type 0 where
  pub result : Result V
  pub attempts : ℕ
  pub slept : List ℕ

or_exhausted : Option MadrpcError → MadrpcError
or_exhausted none = invalid_response "All retry attempts exhausted"
or_exhausted (some e) = e

abbrev pub after_sleep : {V : Type 0} → ℕ → Outcome V → Outcome V
after_sleep d o = record o { slept = d ∷ o.slept }

module _ {F : F64} {V : Type 0} (config : RetryConfig F) (draws : ℕ → Draw)
    (tries : ℕ → Result V) where
  -- The loop with the attempts that are left, from the attempt on that is given.
  unfoldable pub attempt_from : ℕ → ℕ → Option MadrpcError → Outcome V
  unfolding or_exhausted
  attempt_from zero attempt last_error = record {
    result = err (or_exhausted last_error);
    attempts = attempt;
    slept = [];
  }
  attempt_from (suc left) attempt last_error =
      let rest = λ (e : MadrpcError). attempt_from left (suc attempt) (some e) in
      elim (tries (suc attempt)) [
        | ok v ↦ record { result = ok v; attempts = suc attempt; slept = [] }
        | err e ↦
            if is_retryable e
            then if ltb (suc attempt) config.max_attempts
              then after_sleep (calculate_delay config (suc attempt) (draws (suc attempt))) (rest e)
              else rest e
            else record { result = err e; attempts = suc attempt; slept = [] }
      ]

  -- `tries k` is the result of `try_call` in attempt k, counted from 1.
  unfoldable pub call : Outcome V
  call = attempt_from config.max_attempts 0 none
