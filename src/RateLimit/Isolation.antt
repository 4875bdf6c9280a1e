-- ===== src/RateLimit/Isolation.antt =====
-- What a check leaves of the buckets of other addresses.
use madrpc.Prelude.{
  ℕ, ◌≡◌, ◌≢◌, refl, ap, ◌∙◌, false, Option, some, arith, if_pos, if_neg, Distinct, if◌then◌else◌,
}
use madrpc.Prelude.HashMap.{
  keys, get, get-insert, insert-Distinct, filtered, get-retain, retain-Distinct,
}
use madrpc.Float.{F64}
use madrpc.RateLimit.{
  RateLimitResult, TokenBucket, RateLimiter, is_fresh, retain_fresh, cleanup_stale_entries,
  is_cleanup_due, maybe_cleanup, is_disabled, or_new, entry, answer, check_rate_limit, try_consume,
}

module _ {F : F64} {IpAddr : Type 0} (ip_dec : Discrete IpAddr) where
  -- What a check does to the bucket of an address before it looks at its own: only the cleanup.
  abbrev pub survives : RateLimiter F IpAddr → ℕ → IpAddr → Option (TokenBucket F)
  survives limiter now ip =
      if is_cleanup_due limiter now
      then filtered (is_fresh limiter.config now) (get ip_dec ip limiter.buckets)
      else get ip_dec ip limiter.buckets

  get-maybe_cleanup :
      (limiter : RateLimiter F IpAddr) (now : ℕ) (ip : IpAddr)
      → Distinct ip_dec (keys limiter.buckets)
      → get ip_dec ip (maybe_cleanup limiter now).buckets ≡ survives limiter now ip
  unfolding maybe_cleanup cleanup_stale_entries retain_fresh
  get-maybe_cleanup limiter now ip d =
      ground (arith, get-retain ip_dec (is_fresh limiter.config now) ip limiter.buckets d)

  maybe_cleanup-Distinct :
      (limiter : RateLimiter F IpAddr) (now : ℕ)
      → Distinct ip_dec (keys limiter.buckets)
      → Distinct ip_dec (keys (maybe_cleanup limiter now).buckets)
  unfolding maybe_cleanup cleanup_stale_entries retain_fresh
  maybe_cleanup-Distinct limiter now d =
      ground (arith, retain-Distinct ip_dec (is_fresh limiter.config now) limiter.buckets d)

  -- The bucket that a check consumes from: the one that survived, or a full one.
  abbrev pub held : RateLimiter F IpAddr → ℕ → IpAddr → TokenBucket F
  held limiter now ip = or_new limiter.config now (survives limiter now ip)

  config-maybe_cleanup :
      (limiter : RateLimiter F IpAddr) (now : ℕ)
      → (maybe_cleanup limiter now).config ≡ limiter.config
  unfolding maybe_cleanup cleanup_stale_entries retain_fresh
  config-maybe_cleanup limiter now = ground arith

  entry-held :
      (limiter : RateLimiter F IpAddr) (now : ℕ) (ip : IpAddr)
      → Distinct ip_dec (keys limiter.buckets)
      → entry ip_dec ip now (maybe_cleanup limiter now) ≡ held limiter now ip
  entry-held limiter now ip d =
      ap (λ c. or_new c now (get ip_dec ip (maybe_cleanup limiter now).buckets))
        (config-maybe_cleanup limiter now)
      ∙ ap (or_new limiter.config now) (get-maybe_cleanup limiter now ip d)

  -- What a check of `ip` does, limiting being enabled.
  pub record Checked (ip : IpAddr) (now : ℕ) (limiter after : RateLimiter F IpAddr)
      (result : Option RateLimitResult) : Type 0 where
    pub distinct : Distinct ip_dec (keys after.buckets)
    pub others : (j : IpAddr) → j ≢ ip → get ip_dec j after.buckets ≡ survives limiter now j
    pub own :
        get ip_dec ip after.buckets ≡ some (try_consume limiter.config (held limiter now ip) now).0
    pub answered :
        result ≡ answer ip_dec limiter.config (try_consume limiter.config (held limiter now ip) now)

  -- With limiting enabled and distinct addresses, a check leaves the addresses distinct and
  -- the bucket of every other address as it was, unless a cleanup is due and the bucket is
  -- stale, and then it is gone. The own bucket, or a full one where none is left, is refilled
  -- and consumed from, stored, and decides the answer.
  pub check_rate_limit-Checked :
      (ip : IpAddr) (now : ℕ) (limiter : RateLimiter F IpAddr)
      → Distinct ip_dec (keys limiter.buckets)
      → is_disabled limiter.config ≡ false
      → Checked ip now limiter
          (check_rate_limit ip_dec ip now limiter).0
          (check_rate_limit ip_dec ip now limiter).1
  unfolding check_rate_limit
  check_rate_limit-Checked ip now limiter d on =
      let cleaned = maybe_cleanup limiter now in
      let consumed = try_consume limiter.config (entry ip_dec ip now cleaned) now in
      let same : consumed ≡ try_consume limiter.config (held limiter now ip) now =
        ap (λ b. try_consume limiter.config b now) (entry-held limiter now ip d) in
      rw on (record {
        distinct =
            insert-Distinct ip_dec ip consumed.0 cleaned.buckets
              (maybe_cleanup-Distinct limiter now d);
        others = λ j ne.
            get-insert ip_dec j ip consumed.0 cleaned.buckets
            ∙ if_neg (ip_dec j ip) ne (some consumed.0) (get ip_dec j cleaned.buckets)
            ∙ get-maybe_cleanup limiter now j d;
        own =
            get-insert ip_dec ip ip consumed.0 cleaned.buckets
            ∙ if_pos (ip_dec ip ip) refl (some consumed.0) (get ip_dec ip cleaned.buckets)
            ∙ ap (λ c. some c.0) same;
        answered = ap (answer ip_dec limiter.config) same;
      })
