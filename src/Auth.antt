-- ===== src/Auth.antt =====
-- crates/madrpc-common/src/auth.rs: the API key of the orchestrator's server. A key is the list of its
-- bytes, which are below 256.
pub mod Equality
use Prim.Native.Nat.{bit_or, bit_xor}
use madrpc.Prelude.{
  ℕ, zero, suc, Bool, true, false, Option, none, some, List, [], ◌∷◌, ◌==◌, if◌then◌else◌, length,
}
use madrpc.Prelude.HashMap.{is_some}

pub record AuthConfig : Type 0 where
  pub api_key : Option (List ℕ)

unfoldable pub with_api_key : List ℕ → AuthConfig
with_api_key api_key = record { api_key = some api_key }

unfoldable pub disabled : AuthConfig
disabled = record { api_key = none }

unfoldable pub requires_auth : AuthConfig → Bool
requires_auth config = is_some config.api_key

-- The loop over the pairs of bytes, with the result so far.
unfoldable pub differences : ℕ → List ℕ → List ℕ → ℕ
differences result [] bs = result
differences result (a ∷ as_) [] = result
differences result (a ∷ as_) (b ∷ bs) = differences (bit_or result (bit_xor a b)) as_ bs

unfoldable pub constant_time_eq : List ℕ → List ℕ → Bool
constant_time_eq a b = if length a == length b then differences 0 a b == 0 else false

unfoldable pub validate_api_key : List ℕ → AuthConfig → Bool
validate_api_key provided_key config = elim config.api_key [
  | none ↦ true
  | some expected_key ↦ constant_time_eq expected_key provided_key
]
