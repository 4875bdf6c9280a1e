-- ===== src/RateLimit/Burst.antt =====
-- How many requests pass at one instant.
use madrpc.Prelude.{
  ℕ, zero, suc, ◌-◌, ◌^◌, ◌≤◌, ◌<◌, ◌≡◌, refl, ap, ◌∙◌, Bool, true, false, List, [], ◌∷◌, arith,
  min, ltb,
}
use madrpc.Float.{F64, IsCounting}
use madrpc.RateLimit.{RateLimitConfig, TokenBucket, new_bucket, try_consume, refilled}

-- Whether each of `calls` requests passes, all of them at `now`.
unfoldable pub consume_all : {F : F64} → RateLimitConfig F → ℕ → ℕ → TokenBucket F → List Bool
consume_all config now zero bucket = []
consume_all config now (suc calls) bucket =
    let (bucket', passes) = try_consume config bucket now in
    passes ∷ consume_all config now calls bucket'

-- The first `left` of `calls` pass.
abbrev pub first_pass : ℕ → ℕ → List Bool
first_pass left zero = []
first_pass left (suc calls) = ltb 0 left ∷ first_pass (left - 1) calls

module _ {F : F64} (laws : IsCounting F) (config : RateLimitConfig F) (now : ℕ)
    (small : config.burst_size < 2 ^ 32)
    (finite : F.mul (F.secs_of_nanos 0) config.requests_per_second ≡ F.of_ℕ 0) where
  abbrev holding : ℕ → TokenBucket F
  holding n = record { tokens = F.of_ℕ n; last_update = now }

  refilled-holding : (n : ℕ) → n ≤ config.burst_size → refilled config (holding n) now ≡ F.of_ℕ n
  refilled-holding n h =
      ap
        (λ t.
          F.fmin (F.add (F.of_ℕ n) (F.mul (F.secs_of_nanos t) config.requests_per_second))
            (F.of_ℕ config.burst_size))
        {x = now - now} {y = 0} (omega arith)
      ∙ ap (λ x. F.fmin (F.add (F.of_ℕ n) x) (F.of_ℕ config.burst_size)) finite
      ∙ ap (λ x. F.fmin x (F.of_ℕ config.burst_size)) (laws.add-zero n (omega arith))
      ∙ laws.fmin-of_ℕ n config.burst_size (omega arith) small
      ∙ ap F.of_ℕ {x = min n config.burst_size} {y = n} (omega arith)

  passes :
      (n : ℕ)
      → suc n ≤ config.burst_size
      → try_consume config (holding (suc n)) now ≡ (holding n, true)
  unfolding try_consume
  passes n h =
      let enough : F.leb (F.of_ℕ 1) (F.of_ℕ (suc n)) ≡ true =
        laws.one-leb (suc n) (omega arith) ∙ ground arith in
      rw (refilled-holding (suc n) h) (rw (enough, laws.sub-one n (omega arith)) refl)

  stopped : try_consume config (holding 0) now ≡ (holding 0, false)
  unfolding try_consume
  stopped =
      let empty : F.leb (F.of_ℕ 1) (F.of_ℕ 0) ≡ false = laws.one-leb 0 (omega arith) in
      rw (refilled-holding 0 (omega arith)) (rw empty refl)

  consume_all-holding :
      (calls n : ℕ)
      → n ≤ config.burst_size
      → consume_all config now calls (holding n) ≡ first_pass n calls
  unfolding consume_all
  consume_all-holding zero n h = refl
  consume_all-holding (suc calls) zero h =
      ap (λ r. r.1 ∷ consume_all config now calls r.0) stopped
      ∙ ap (◌∷◌ false) (consume_all-holding calls 0 h)
  consume_all-holding (suc calls) (suc n) h =
      ap (λ r. r.1 ∷ consume_all config now calls r.0) (passes n h)
      ∙ ap (◌∷◌ true) (consume_all-holding calls n (omega arith))
      ∙ ap (λ (k : ℕ). true ∷ first_pass k calls) {x = n} {y = suc n - 1} (omega arith)
      ∙ ap (λ b. b ∷ first_pass (suc n - 1) calls) {x = true} {y = ltb 0 (suc n)} (ground arith)

  -- Of any number of requests at one instant on a new bucket, exactly the first ones pass, as
  -- many as the burst size. The burst size has 32 bits, whole numbers of 32 bits are exact as
  -- floats, and the rate times no time is 0.
  pub consume_all-first_pass :
      (calls : ℕ)
      → consume_all config now calls (new_bucket config.burst_size now)
        ≡ first_pass config.burst_size calls
  unfolding new_bucket
  consume_all-first_pass calls = consume_all-holding calls config.burst_size (omega arith)
