-- ===== src/Examples/Limits.antt =====
-- Two requests a second with bursts of three, from addresses that are numbers.
use madrpc.Prelude.{ℕ, ◌≡◌, refl, true, false, [], ◌∷◌, arith, ℕ_discrete}
use madrpc.RateLimit.{RateLimitConfig, new_bucket, RateLimiter, check_rate_limit}
use madrpc.RateLimit.Isolation.{Checked, check_rate_limit-Checked}
use madrpc.RateLimit.Burst.{consume_all, consume_all-first_pass}
use madrpc.Examples.Numbers.{whole, whole-IsCounting}

abbrev config : RateLimitConfig whole
config = record {
  requests_per_second = whole.of_ℕ 2;
  burst_size = 3;
  cleanup_interval = 60000000000;
  entry_ttl = 300000000000;
}

consume_all-first_pass_example :
    consume_all config 7 5 (new_bucket 3 7) ≡ true ∷ true ∷ true ∷ false ∷ false ∷ []
unfolding whole
consume_all-first_pass_example =
    consume_all-first_pass whole-IsCounting config 7 (omega arith) refl 5

abbrev limiter : RateLimiter whole ℕ
limiter = record {
  config = config;
  buckets = (1, new_bucket 3 0) ∷ (2, new_bucket 3 0) ∷ [];
  last_cleanup = 0;
}

check_rate_limit-Checked_example :
    Checked ℕ_discrete 1 7 limiter
      (check_rate_limit ℕ_discrete 1 7 limiter).0
      (check_rate_limit ℕ_discrete 1 7 limiter).1
unfolding whole ℕ_discrete
check_rate_limit-Checked_example =
    check_rate_limit-Checked ℕ_discrete 1 7 limiter (refl, (refl, tt)) refl
