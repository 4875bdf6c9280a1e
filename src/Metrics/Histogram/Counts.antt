-- ===== src/Metrics/Histogram/Counts.antt =====
-- The counters of a histogram, as latencies are recorded.
use native.Mathlib.Nat.{mod-eq_of_lt}
use madrpc.Prelude.{
  ℕ, zero, suc, ◌+◌, ◌^◌, ◌≤◌, ◌<◌, ◌≡◌, refl, ap, ◌∙◌, Option, some, none, List, [], ◌∷◌, arith,
  length, ◌==◌, if◌then◌else◌,
}
use madrpc.Prelude.Word.{u64}
use madrpc.Metrics.Histogram.{
  num_histogram_bins, LatencyHistogram, new, increment, record_latency, latency_to_bin,
}
use madrpc.Metrics.Histogram.Bins.{latency_to_bin-lt}

abbrev pub sum : List ℕ → ℕ
sum [] = 0
sum (x ∷ xs) = x + sum xs

-- There are all the bins, and they hold the samples.
pub record IsCounted (h : LatencyHistogram) : Type 0 where
  pub all_bins : length h.bins ≡ num_histogram_bins
  pub counted : sum h.bins ≡ h.sample_count
  pub word : h.total_latency < 2 ^ 64

pub new-IsCounted : IsCounted new
unfolding new
new-IsCounted = record { all_bins = refl; counted = refl; word = omega arith }

-- The number of samples in a bin, 0 past the last, and the number of latencies that belong there.
abbrev pub samples : ℕ → List ℕ → ℕ
samples i [] = 0
samples zero (x ∷ xs) = x
samples (suc i) (x ∷ xs) = samples i xs

abbrev pub tally : ℕ → List ℕ → ℕ
tally i [] = 0
tally i (l ∷ ls) = (if latency_to_bin l == i then 1 else 0) + tally i ls

samples_le : (i : ℕ) (xs : List ℕ) → samples i xs ≤ sum xs
samples_le i [] = omega arith
samples_le zero (x ∷ xs) = omega arith
samples_le (suc i) (x ∷ xs) = omega (arith, samples_le i xs)

increment-counts :
    (i : ℕ) (xs : List ℕ)
    → i < length xs
    → sum xs + 1 < 2 ^ 64
    → (ys : List ℕ) × (increment i xs ≡ some ys)
      × (length ys ≡ length xs)
      × (sum ys ≡ sum xs + 1)
      × ((j : ℕ) → samples j ys ≡ (if i == j then 1 else 0) + samples j xs)
unfolding increment
increment-counts i [] lt h = absurd (omega arith)
increment-counts zero (x ∷ xs) lt h =
    let exact : u64 (x + 1) ≡ x + 1 = mod-eq_of_lt (omega arith) in
    (u64 (x + 1) ∷ xs, refl, refl, omega arith, first exact)
  where
    first :
        u64 (x + 1) ≡ x + 1
        → (j : ℕ) → samples j (u64 (x + 1) ∷ xs) ≡ (if 0 == j then 1 else 0) + samples j (x ∷ xs)
    first exact zero = ground arith
    first exact (suc j) = ground arith
increment-counts (suc i) (x ∷ xs) lt h =
    let (ys, e, l, s, t) = increment-counts i xs (omega arith) (omega arith) in
    (x ∷ ys, rw (e, increment) refl, ap suc l, omega arith, later ys t)
  where
    later :
        (ys : List ℕ)
        → ((j : ℕ) → samples j ys ≡ (if i == j then 1 else 0) + samples j xs)
        → (j : ℕ) → samples j (x ∷ ys) ≡ (if suc i == j then 1 else 0) + samples j (x ∷ xs)
    later ys t zero = ground arith
    later ys t (suc j) = ground (arith, t j)

-- Several latencies, one after the other.
unfoldable pub record_all : List ℕ → LatencyHistogram → Option LatencyHistogram
record_all [] h = some h
record_all (l ∷ ls) h = elim (record_latency l h) [ none ↦ none | some h' ↦ record_all ls h' ]

-- The histogram after `ls` on top of `h`.
pub record Recorded (ls : List ℕ) (h r : LatencyHistogram) : Type 0 where
  pub valid : IsCounted r
  pub samples_counted : r.sample_count ≡ h.sample_count + length ls
  pub total : r.total_latency ≡ u64 (h.total_latency + sum ls)
  pub tallied : (i : ℕ) → samples i r.bins ≡ tally i ls + samples i h.bins

record_latency-Recorded :
    (l : ℕ) (h : LatencyHistogram)
    → IsCounted h
    → h.sample_count + 1 < 2 ^ 64
    → (r : LatencyHistogram) × (record_latency l h ≡ some r) × Recorded (l ∷ []) h r
unfolding record_latency
record_latency-Recorded l h c fits =
    let (ys, e, len, s, t) =
      increment-counts (latency_to_bin l) h.bins (omega (arith, c.all_bins, latency_to_bin-lt l))
        (omega (arith, c.counted)) in
    let exact : u64 (h.sample_count + 1) ≡ h.sample_count + 1 = mod-eq_of_lt fits in
    (
      record {
        bins = ys;
        total_latency = u64 (h.total_latency + l);
        sample_count = u64 (h.sample_count + 1);
      },
      rw (e, record_latency) refl,
      record {
        valid = record {
          all_bins = len ∙ c.all_bins;
          counted = omega (arith, c.counted);
          word = omega arith;
        };
        samples_counted = exact;
        total = ap u64 {x = h.total_latency + l} (omega arith);
        tallied = λ i. omega (arith, t i);
      },
    )

record_all-from :
    (ls : List ℕ) (h : LatencyHistogram)
    → IsCounted h
    → h.sample_count + length ls < 2 ^ 64
    → (r : LatencyHistogram) × (record_all ls h ≡ some r) × Recorded ls h r
unfolding record_all
record_all-from [] h c fits = (
  h,
  refl,
  record {
    valid = c;
    samples_counted = omega arith;
    total = omega (arith, c.word);
    tallied = λ i. omega arith;
  },
)
record_all-from (l ∷ ls) h c fits =
    let (h1, e1, r1) = record_latency-Recorded l h c (omega arith) in
    let (h2, e2, r2) = record_all-from ls h1 r1.valid (omega (arith, r1.samples_counted)) in
    (
      h2,
      rw (e1, record_all) e2,
      record {
        valid = r2.valid;
        samples_counted = omega (arith, r1.samples_counted, r2.samples_counted);
        total = omega (arith, r1.total, r2.total);
        tallied = λ i. omega (arith, r1.tallied i, r2.tallied i);
      },
    )

-- Fewer than 2^64 latencies are recorded without a panic in a new histogram. It then has 100
-- bins, each counts the latencies that belong there, they add up to the number of samples, which
-- is that of the latencies, and the total is their sum, wrapped around at 2^64.
pub record_all-Recorded :
    (ls : List ℕ)
    → length ls < 2 ^ 64
    → (r : LatencyHistogram) × (record_all ls new ≡ some r) × Recorded ls new r
unfolding new
record_all-Recorded ls fits = record_all-from ls new new-IsCounted (omega arith)
