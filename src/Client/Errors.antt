-- ===== src/Client/Errors.antt =====
-- How the answers of a server become errors of the client, and which of those are retried.
use madrpc.Prelude.{
  ◌≡◌, refl, String, Bool, true, false, ◌&&◌, ◌||◌, some, none, arith, leb, inl, inr, Option-cases,
}
use madrpc.Float.{ℤ, pos, negsuc}
use madrpc.Protocol.{
  JsonRpcError, Result, ok, err, is_retryable, request_too_large, node_unavailable,
}
use madrpc.Client.{
  is_code, in_server_range, error_of_code, Exchange, unserialized, unbuilt, unsent, responded, Body,
  unread, unparsed, parsed, try_call,
}

-- An error response is retried exactly for the codes -32603 and -32099 to -32001.
error_of_code-is_retryable :
    {V : Type 0} (e : JsonRpcError V)
    → is_retryable (error_of_code e) ≡ is_code e.code 32603 || in_server_range e.code
unfolding is_retryable error_of_code
error_of_code-is_retryable e = code_cases e.code refl
  where
    code_cases :
        (c : ℤ)
        → e.code ≡ c
        → is_retryable (error_of_code e) ≡ is_code e.code 32603 || in_server_range e.code
    code_cases (pos n) q = ground arith
    code_cases (negsuc n) q = ground arith

-- The error that is made for an oversized request comes back to the client as an unavailable
-- node, which is retried.
pub error_of_code-request_too_large :
    (V : Type 0) (limit : String)
    → let e = request_too_large {V = V} limit in
      (error_of_code e ≡ node_unavailable e.message) × (is_retryable (error_of_code e) ≡ true)
unfolding error_of_code request_too_large is_retryable
error_of_code-request_too_large V limit = (refl, refl)

-- Whether an attempt fails in a way that is worth another.
abbrev pub fails_for_now : {V : Type 0} → Result V → Bool
fails_for_now (ok v) = false
fails_for_now (err e) = is_retryable e

abbrev transient_body : {V : Type 0} → Body V → Bool
transient_body (unread e) = true
transient_body (unparsed e) = false
transient_body (parsed res) = elim res.error [
  | none ↦ false
  | some e ↦ is_code e.code 32603 || in_server_range e.code
]

-- The same read off what happened: nothing was sent, the server had an internal error, the body broke
-- off, or the server answered with an error of the retryable codes.
abbrev pub is_transient : {V : Type 0} → Exchange V → Bool
is_transient (unserialized e) = false
is_transient (unbuilt e) = false
is_transient (unsent e) = true
is_transient (responded status text body) =
    (leb 500 status && leb status 599) || (leb 200 status && leb status 299 && transient_body body)

-- What makes a failed attempt worth another, read off the exchange: nothing was sent or the body
-- could not be read, or the status is a server error, or the response is an error with the code
-- -32603 or one from -32099 to -32001.
pub try_call-is_transient :
    {V : Type 0} (null : V) (x : Exchange V) → fails_for_now (try_call null x) ≡ is_transient x
unfolding try_call is_retryable
try_call-is_transient null (unserialized e) = refl
try_call-is_transient null (unbuilt e) = refl
try_call-is_transient null (unsent e) = refl
try_call-is_transient null (responded status text (unread e)) = ground arith
try_call-is_transient null (responded status text (unparsed e)) = ground arith
try_call-is_transient null (responded status text (parsed res)) = elim (Option-cases res.error) [
  | inl n ↦ ground arith
  | inr (e, n) ↦ ground (arith, error_of_code-is_retryable e)
]
