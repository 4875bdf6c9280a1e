-- ===== src/Client/Config.antt =====
-- crates/madrpc-client/src/client.rs: the retry configuration, its check and the delay before a retry.
use madrpc.Prelude.{ℕ, ◌+◌, ◌*◌, ◌%◌, ◌^◌, ◌≤◌, ◌≡◌, Bool, ltb, ◌==◌, if◌then◌else◌, arith, ◌↔◌}
use native.Mathlib.Nat.{mod-le, mod-lt}
use madrpc.Prelude.Word.{u64}
use madrpc.Float.{F64, IsClamping}
use madrpc.Node.{backoff_exponent}

pub record RetryConfig (F : F64) : Type 0 where
  pub max_attempts : ℕ  -- u32
  pub base_delay_ms : ℕ  -- u64
  pub max_delay_ms : ℕ  -- u64
  pub backoff_multiplier : F.Float

unfoldable pub default_retry : (F : F64) → RetryConfig F
default_retry F = record {
  max_attempts = 3;
  base_delay_ms = 100;
  max_delay_ms = 5000;
  backoff_multiplier = F.of_ℕ 2;
}

-- The variants that the program builds.
pub data RetryConfigError (F : F64) : Type 0 where
  invalid_max_attempts : ℕ → RetryConfigError F
  invalid_backoff_multiplier : F.Float → RetryConfigError F
  invalid_delay_range : ℕ → ℕ → RetryConfigError F

pub data Checked (F : F64) (A : Type 0) : Type 0 where
  valid : A → Checked F A
  refused : RetryConfigError F → Checked F A

module _ {F : F64} where
  unfoldable pub new : ℕ → ℕ → ℕ → F.Float → Checked F (RetryConfig F)
  new max_attempts base_delay_ms max_delay_ms backoff_multiplier =
      if max_attempts == 0
      then refused (invalid_max_attempts max_attempts)
      else if F.leb backoff_multiplier (F.of_ℕ 0)
      then refused (invalid_backoff_multiplier backoff_multiplier)
      else if ltb max_delay_ms base_delay_ms
      then refused (invalid_delay_range max_delay_ms base_delay_ms)
      else valid (record {
        max_attempts = max_attempts;
        base_delay_ms = base_delay_ms;
        max_delay_ms = max_delay_ms;
        backoff_multiplier = backoff_multiplier;
      })

  unfoldable pub validate : RetryConfig F → Checked F (Unit {0})
  validate c =
      if c.max_attempts == 0
      then refused (invalid_max_attempts c.max_attempts)
      else if F.leb c.backoff_multiplier (F.of_ℕ 0)
      then refused (invalid_backoff_multiplier c.backoff_multiplier)
      else if ltb c.max_delay_ms c.base_delay_ms
      then refused (invalid_delay_range c.max_delay_ms c.base_delay_ms)
      else valid tt

-- `rand::random::<bool>()` and `rand::random::<u64>()`.
pub record Draw : Type 0 where
  pub coin : Bool
  pub number : ℕ

-- In milliseconds.
unfoldable pub calculate_delay : {F : F64} → RetryConfig F → ℕ → Draw → ℕ
calculate_delay {F} c attempt draw =
    let delay_ms = F.to_u64 (
      F.fmin
        (F.mul (F.of_ℕ c.base_delay_ms) (F.powi c.backoff_multiplier (backoff_exponent attempt)))
        (F.of_ℕ c.max_delay_ms)) in
    let jitter = F.to_u64 (F.mul (F.of_ℕ delay_ms) (F.div (F.of_ℕ 1) (F.of_ℕ 10))) in
    let jitter_amount =
      (if ltb 0 jitter then (if draw.coin then draw.number % jitter else 0) else 0) in
    u64 (delay_ms + jitter_amount)

-- A delay before a retry is at most twice the maximum, whatever the attempt, the multiplier and
-- the random numbers. The maximum is at most 2^53, and a float's minimum and tenth truncate as
-- documented.
pub calculate_delay-le :
    {F : F64} (c : RetryConfig F) (attempt : ℕ) (draw : Draw)
    → IsClamping F
    → c.max_delay_ms ≤ 2 ^ 53
    → calculate_delay c attempt draw ≤ 2 * c.max_delay_ms
unfolding calculate_delay
calculate_delay-le {F} c attempt draw laws h =
    total draw.coin draw.number delay jitter delay_le jitter_le
  where
    delay : ℕ
    delay = F.to_u64 (
        F.fmin
          (F.mul (F.of_ℕ c.base_delay_ms) (F.powi c.backoff_multiplier (backoff_exponent attempt)))
          (F.of_ℕ c.max_delay_ms))

    jitter : ℕ
    jitter = F.to_u64 (F.mul (F.of_ℕ delay) (F.div (F.of_ℕ 1) (F.of_ℕ 10)))

    delay_le : delay ≤ c.max_delay_ms
    delay_le = laws.to_u64-fmin _ c.max_delay_ms h

    jitter_le : jitter ≤ delay
    jitter_le = laws.to_u64-tenth delay (omega (arith, delay_le))

    total :
        (coin : Bool) (number d j : ℕ)
        → d ≤ c.max_delay_ms
        → j ≤ d
        → u64 (d + (if ltb 0 j then (if coin then number % j else 0) else 0)) ≤ 2 * c.max_delay_ms
    total coin number d j p q = ground (
      arith,
      mod-le (d + (if ltb 0 j then (if coin then number % j else 0) else 0)) (2 ^ 64),
      mod-lt number {m = j},
    )

-- A configuration passes `validate` exactly if `new` gives it back from its fields.
pub validate-new :
    {F : F64} (c : RetryConfig F)
    → (validate c ≡ valid tt)
      ↔ (new c.max_attempts c.base_delay_ms c.max_delay_ms c.backoff_multiplier ≡ valid c)
unfolding validate new
validate-new c = (λ h. ground arith, λ h. ground arith)
