-- ===== src/Requests.antt =====
-- crates/madrpc-common/src/protocol/requests.rs and responses.rs: the messages of the older protocol, with
-- their identifiers. The counter of the process is passed on; a time before the epoch is none.
use Prim.Native.Nat.{bit_or, bit_and}
use madrpc.Prelude.{ℕ, ◌+◌, ◌-◌, ◌*◌, ◌^◌, String, Bool, true, false, Option, none, some}
use madrpc.Prelude.Word.{u64}

pub record Request (V : Type 0) : Type 0 where
  pub id : ℕ  -- u64
  pub method : String
  pub args : V
  pub timeout_ms : Option ℕ
  pub idempotency_key : Option String

abbrev pub or_zero : Option ℕ → ℕ
or_zero none = 0
or_zero (some secs) = secs

-- The identifier, and the counter after it.
unfoldable pub generate_request_id : Option ℕ → ℕ → ℕ × ℕ
generate_request_id timestamp counter =
    (bit_or (u64 (or_zero timestamp * 2 ^ 32)) (bit_and counter (2 ^ 32 - 1)), u64 (counter + 1))

unfoldable pub new_request : {V : Type 0} → Option ℕ → String → V → ℕ → Request V × ℕ
new_request timestamp method args counter =
    let (id, counter') = generate_request_id timestamp counter in
    (
      record { id = id; method = method; args = args; timeout_ms = none; idempotency_key = none },
      counter',
    )

unfoldable pub with_timeout : {V : Type 0} → ℕ → Request V → Request V
with_timeout ms req = record req { timeout_ms = some ms }

unfoldable pub with_idempotency_key : {V : Type 0} → String → Request V → Request V
with_idempotency_key key req = record req { idempotency_key = some key }

-- The field `success` is `is_success` here.
pub record Response (V : Type 0) : Type 0 where
  pub id : ℕ
  pub result : Option V
  pub error : Option String
  pub is_success : Bool

unfoldable pub success_response : {V : Type 0} → ℕ → V → Response V
success_response id result = record {
  id = id;
  result = some result;
  error = none;
  is_success = true;
}

unfoldable pub error_response : {V : Type 0} → ℕ → String → Response V
error_response id error = record { id = id; result = none; error = some error; is_success = false }
