-- ===== src/Examples/Calls.antt =====
-- Calls of the client.
use madrpc.Prelude.{ℕ, zero, suc, ◌*◌, ◌≤◌, ◌≡◌, ◌↔◌, refl, false, [], ◌∷◌, arith}
use madrpc.Protocol.{
  node_unavailable, is_retryable, Result, ok, err, JsonRpcError, internal_error, failure,
}
use madrpc.Client.{Exchange, responded, parsed, call, attempt_from, try_call}
use madrpc.Client.Config.{
  Draw, default_retry, calculate_delay, validate, new, valid, calculate_delay-le, validate-new,
}
use madrpc.Client.Errors.{fails_for_now, is_transient, try_call-is_transient}
use madrpc.Client.Retries.{Promised, call-Promised}
use madrpc.Node.{backoff_exponent}
use madrpc.Examples.Numbers.{whole, whole-IsClamping}

-- The first attempt fails for now and the second is answered.
abbrev tries : ℕ → Result ℕ
tries zero = ok 0
tries (suc zero) = err (node_unavailable "down")
tries (suc (suc k)) = ok 42

abbrev draws : ℕ → Draw
draws k = record { coin = false; number = 0 }

second_try :
    call (default_retry whole) draws tries
    ≡ record { result = ok 42; attempts = 2; slept = 100 ∷ [] }
unfolding call attempt_from default_retry is_retryable calculate_delay backoff_exponent whole
second_try = refl

call-Promised_example :
    Promised (default_retry whole) draws tries (call (default_retry whole) draws tries)
call-Promised_example = call-Promised (default_retry whole) draws tries

calculate_delay-le_example : calculate_delay (default_retry whole) 9 (draws 9) ≤ 2 * 5000
unfolding default_retry
calculate_delay-le_example =
    calculate_delay-le (default_retry whole) 9 (draws 9) whole-IsClamping (omega arith)

validate-new_example :
    (validate (default_retry whole) ≡ valid tt)
    ↔ (new 3 100 5000 (whole.of_ℕ 2) ≡ valid (default_retry whole))
unfolding default_retry
validate-new_example = validate-new (default_retry whole)

abbrev internal : JsonRpcError ℕ
internal = internal_error "boom"

abbrev failed : Exchange ℕ
failed = responded 200 "OK" (parsed (failure 1 internal))

try_call-is_transient_example : fails_for_now (try_call 0 failed) ≡ is_transient failed
try_call-is_transient_example = try_call-is_transient 0 failed
