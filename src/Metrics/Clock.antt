-- ===== src/Metrics/Clock.antt =====
-- crates/madrpc-metrics/src/registry.rs, `get_monotonic_timestamp`: milliseconds that grow with each
-- reading. The two counters are those of the process. The compare-and-swap succeeds, readings being one
-- after the other; the system's time is an argument, none before the epoch.
use madrpc.Prelude.{ℕ, ◌+◌, ◌^◌, ◌<◌, ◌≡◌, refl, Option, none, some, arith, max}
use native.Mathlib.Nat.{mod-eq_of_lt}
use madrpc.Prelude.Word.{u64}

pub record Clock : Type 0 where
  pub timestamp_fallback : ℕ  -- u64
  pub last_timestamp : ℕ  -- u64

abbrev pub system_time : Option ℕ → Clock → ℕ
system_time none clock = clock.timestamp_fallback
system_time (some ms) clock = u64 ms

abbrev pub next_fallback : Option ℕ → Clock → ℕ
next_fallback none clock = u64 (clock.timestamp_fallback + 1)
next_fallback (some ms) clock = clock.timestamp_fallback

unfoldable pub get_monotonic_timestamp : Option ℕ → Clock → ℕ × Clock
get_monotonic_timestamp now clock =
    let new_timestamp = max (system_time now clock) (u64 (clock.last_timestamp + 1)) in
    (
      new_timestamp,
      record { timestamp_fallback = next_fallback now clock; last_timestamp = new_timestamp },
    )

-- A reading is later than every one before it, and is kept, as long as they are below 2^64 - 1.
pub get_monotonic_timestamp-later :
    (now : Option ℕ) (clock : Clock)
    → clock.last_timestamp + 1 < 2 ^ 64
    → (clock.last_timestamp < (get_monotonic_timestamp now clock).0)
      × ((get_monotonic_timestamp now clock).1.last_timestamp
          ≡ (get_monotonic_timestamp now clock).0)
unfolding get_monotonic_timestamp
get_monotonic_timestamp-later now clock h = (omega (arith, mod-eq_of_lt h), refl)
