-- ===== src/Node/Timeout.antt =====
-- `calculate_timeout`: the cap, and the values under the default configuration.
use native.Mathlib.Nat.{mod-eq_of_lt}
use madrpc.Prelude.{
  ℕ, zero, suc, ◌+◌, ◌-◌, ◌*◌, ◌^◌, ◌≤◌, ◌<◌, ◌≡◌, refl, ap, subst, ◌∙◌, arith, min, leb,
  passes_until, passes_until-total, leb→le,
}
use madrpc.Float.{F64, IsExact, pos}
use madrpc.Node.{CircuitBreakerConfig, default_circuit_config, backoff_exponent, calculate_timeout}

-- No timeout is longer than the maximum, whatever the failures and the multiplier. The maximum
-- fits in 64 bits of milliseconds.
pub calculate_timeout-le :
    {F : F64} (c : CircuitBreakerConfig F) (failures : ℕ)
    → c.max_timeout_secs * 1000 < 2 ^ 64
    → calculate_timeout c failures ≤ c.max_timeout_secs * 1000
unfolding calculate_timeout
calculate_timeout-le c failures h = omega (arith, mod-eq_of_lt h)

backoff_exponent-suc : (k : ℕ) → k + 1 < 2 ^ 31 → backoff_exponent (suc k) ≡ pos k
unfolding backoff_exponent
backoff_exponent-suc k h = ground arith

pow_small : (k : ℕ) → k ≤ 38 → 30000 * 2 ^ k ≤ 2 ^ 53
unfolding passes_until
pow_small k h =
    leb→le _ _ (passes_until-total (λ j. leb (30000 * 2 ^ j) (2 ^ 53)) 39 k (omega arith) refl)

-- Under the default configuration the timeout of an open circuit doubles with each failure from
-- 30 seconds, up to the cap of 300 seconds. Whole numbers up to 2^53 are exact as floats; the
-- failures are 1 to 39.
pub calculate_timeout-default :
    (F : F64)
    → IsExact F
    → (k : ℕ) → k ≤ 38
    → calculate_timeout (default_circuit_config F) (suc k) ≡ min (30000 * 2 ^ k) 300000
unfolding calculate_timeout default_circuit_config
calculate_timeout-default F x k h = ap (λ (t : ℕ). min t 300000) value
  where
    value :
        F.to_u64 (F.mul (F.of_ℕ 30000) (F.powi (F.of_ℕ 2) (backoff_exponent (suc k))))
        ≡ 30000 * 2 ^ k
    value =
        ap (λ e. F.to_u64 (F.mul (F.of_ℕ 30000) (F.powi (F.of_ℕ 2) e)))
          (backoff_exponent-suc k (omega arith))
        ∙ ap (λ y. F.to_u64 (F.mul (F.of_ℕ 30000) y)) (x.powi-two k (omega arith))
        ∙ ap F.to_u64 (x.mul-of_ℕ 30000 (2 ^ k) (pow_small k h))
        ∙ x.to_u64-of_ℕ (30000 * 2 ^ k) (pow_small k h)

four_up : (k : ℕ) → 4 ≤ k → k ≤ 38 → 300000 ≤ 30000 * 2 ^ k
unfolding passes_until
four_up k l h =
    subst (λ j. 300000 ≤ 30000 * 2 ^ j) {x = k - 4 + 4} (omega arith)
      (leb→le _ _
        (passes_until-total (λ j. leb 300000 (30000 * 2 ^ (j + 4))) 35 (k - 4) (omega arith) refl))

-- Under the default configuration, from its threshold of failures to 39 of them, the timeout of
-- an open circuit is the cap of 300 seconds. Whole numbers up to 2^53 are exact as floats.
pub calculate_timeout-tripped :
    (F : F64)
    → IsExact F
    → (failures : ℕ) → (default_circuit_config F).failure_threshold ≤ failures
    → failures ≤ 39
    → calculate_timeout (default_circuit_config F) failures ≡ 300000
unfolding default_circuit_config
calculate_timeout-tripped F x zero l h = absurd (omega arith)
calculate_timeout-tripped F x (suc k) l h =
    calculate_timeout-default F x k (omega arith)
    ∙ omega (arith, four_up k (omega arith) (omega arith))
