-- ===== src/RateLimit.antt =====
-- crates/madrpc-common/src/rate_limit.rs: a bucket of tokens for each address. Addresses are a type with
-- decided equality, times are nanoseconds, and the clock is an argument.
pub mod Isolation
pub mod Burst
use madrpc.Prelude.{
  ℕ, ◌-◌, Bool, true, false, Option, none, some, List, [], ◌∷◌, ltb, leb, if◌then◌else◌, length,
}
use madrpc.Prelude.HashMap.{get, insert, retain}
use madrpc.Float.{F64}

-- The times are in nanoseconds.
pub record RateLimitConfig (F : F64) : Type 0 where
  pub requests_per_second : F.Float
  pub burst_size : ℕ  -- u32
  pub cleanup_interval : ℕ
  pub entry_ttl : ℕ

unfoldable pub new_config : {F : F64} → F.Float → ℕ → RateLimitConfig F
new_config requests_per_second burst_size = record {
  requests_per_second = requests_per_second;
  burst_size = burst_size;
  cleanup_interval = 60000000000;
  entry_ttl = 300000000000;
}

-- `rate_limited` has the time after which to retry.
pub data RateLimitResult : Type 0 where
  allowed : RateLimitResult
  rate_limited : ℕ → RateLimitResult

unfoldable pub is_allowed : RateLimitResult → Bool
is_allowed allowed = true
is_allowed (rate_limited wait) = false

unfoldable pub retry_after : RateLimitResult → Option ℕ
retry_after allowed = none
retry_after (rate_limited wait) = some wait

pub record TokenBucket (F : F64) : Type 0 where
  pub tokens : F.Float
  pub last_update : ℕ

unfoldable pub new_bucket : {F : F64} → ℕ → ℕ → TokenBucket F
new_bucket {F} burst_size now = record { tokens = F.of_ℕ burst_size; last_update = now }

module _ {F : F64} (config : RateLimitConfig F) where
  abbrev pub refilled : TokenBucket F → ℕ → F.Float
  refilled bucket now =
      F.fmin
        (F.add bucket.tokens
          (F.mul (F.secs_of_nanos (now - bucket.last_update)) config.requests_per_second))
        (F.of_ℕ config.burst_size)

  unfoldable pub try_consume : TokenBucket F → ℕ → TokenBucket F × Bool
  try_consume bucket now =
      let tokens = refilled bucket now in
      if F.leb (F.of_ℕ 1) tokens
      then (record { tokens = F.sub tokens (F.of_ℕ 1); last_update = now }, true)
      else (record { tokens = tokens; last_update = now }, false)

  -- `none` is the panic of a duration that is not finite.
  unfoldable pub time_until_next_token : TokenBucket F → Option ℕ
  time_until_next_token bucket =
      if F.leb (F.of_ℕ 1) bucket.tokens
      then some 0
      else F.nanos_of_secs (F.div (F.sub (F.of_ℕ 1) bucket.tokens) config.requests_per_second)

  abbrev pub is_fresh : ℕ → TokenBucket F → Bool
  is_fresh now bucket = ltb (now - bucket.last_update) config.entry_ttl

  abbrev pub is_disabled : Bool
  is_disabled = F.leb (F.of_ℕ 1000000) config.requests_per_second

  abbrev pub or_new : ℕ → Option (TokenBucket F) → TokenBucket F
  or_new now none = new_bucket config.burst_size now
  or_new now (some bucket) = bucket

pub record RateLimiter (F : F64) (IpAddr : Type 0) : Type 0 where
  pub config : RateLimitConfig F
  pub buckets : List (IpAddr × TokenBucket F)
  pub last_cleanup : ℕ

module _ {F : F64} {IpAddr : Type 0} where
  unfoldable pub new_limiter : RateLimitConfig F → ℕ → RateLimiter F IpAddr
  new_limiter config now = record { config = config; buckets = []; last_cleanup = now }

  unfoldable pub retain_fresh :
      RateLimitConfig F → ℕ → List (IpAddr × TokenBucket F) → List (IpAddr × TokenBucket F)
  retain_fresh config now m = retain (is_fresh config now) m

  unfoldable pub cleanup_stale_entries : RateLimiter F IpAddr → ℕ → RateLimiter F IpAddr
  cleanup_stale_entries limiter now = record limiter {
    buckets = retain_fresh limiter.config now limiter.buckets;
  }

  abbrev pub is_cleanup_due : RateLimiter F IpAddr → ℕ → Bool
  is_cleanup_due limiter now = leb limiter.config.cleanup_interval (now - limiter.last_cleanup)

  unfoldable pub maybe_cleanup : RateLimiter F IpAddr → ℕ → RateLimiter F IpAddr
  unfolding cleanup_stale_entries
  maybe_cleanup limiter now =
      if is_cleanup_due limiter now
      then (let cleaned = cleanup_stale_entries limiter now in
          record cleaned { last_cleanup = now })
      else limiter

  unfoldable pub tracked_ip_count : RateLimiter F IpAddr → ℕ
  tracked_ip_count limiter = length limiter.buckets

module _ {F : F64} {IpAddr : Type 0} (ip_dec : Discrete IpAddr) where
  -- `entry(ip).or_insert_with(..)`. A new bucket reads the clock after `now`, which no refill sees.
  abbrev pub entry : IpAddr → ℕ → RateLimiter F IpAddr → TokenBucket F
  entry ip now limiter = or_new limiter.config now (get ip_dec ip limiter.buckets)

  abbrev pub answer : RateLimitConfig F → TokenBucket F × Bool → Option RateLimitResult
  answer config (bucket, true) = some allowed
  answer config (bucket, false) = elim (time_until_next_token config bucket) [
    | none ↦ none
    | some wait ↦ some (rate_limited wait)
  ]

  unfoldable pub check_rate_limit :
      IpAddr → ℕ → RateLimiter F IpAddr → RateLimiter F IpAddr × Option RateLimitResult
  check_rate_limit ip now limiter =
      if is_disabled limiter.config
      then (limiter, some allowed)
      else (let cleaned = maybe_cleanup limiter now in
          let consumed = try_consume limiter.config (entry ip now cleaned) now in
          (
            record cleaned { buckets = insert ip_dec ip consumed.0 cleaned.buckets },
            answer limiter.config consumed,
          ))
