-- ===== src/Examples/Latencies.antt =====
-- Latencies of half a millisecond to two seconds.
use madrpc.Prelude.{ℕ, ◌+◌, ◌*◌, ◌/◌, ◌≤◌, ◌<◌, ◌≡◌, refl, some, List, [], ◌∷◌, arith}
use madrpc.Metrics.Histogram.{
  LatencyHistogram, zeros, new, log_from, ilog10, latency_to_bin, bin_to_latency,
  estimate_percentile,
}
use madrpc.Metrics.Histogram.Bins.{latency_to_bin-holds, latency_to_bin_mono, latency_to_bin-above}
use madrpc.Metrics.Histogram.Counts.{IsCounted, record_all, Recorded, record_all-Recorded}
use madrpc.Metrics.Histogram.Percentile.{Found, estimate_percentile-Found}
use madrpc.Examples.Numbers.{whole}

abbrev three : List ℕ
three = 537 ∷ 541 ∷ 2000000 ∷ []

bins_of_three : latency_to_bin 537 ≡ 25
unfolding latency_to_bin ilog10 log_from
bins_of_three = refl

latency_to_bin-holds_example :
    (bin_to_latency (latency_to_bin 537) ≤ 537) × (537 < bin_to_latency (latency_to_bin 537 + 1))
latency_to_bin-holds_example = latency_to_bin-holds 537 (omega arith) (omega arith)

latency_to_bin_mono_example : latency_to_bin 541 ≤ latency_to_bin 2000000
latency_to_bin_mono_example = latency_to_bin_mono 541 2000000 (omega arith) (omega arith)

latency_to_bin-above_example : 2000000 < bin_to_latency (latency_to_bin 2000000)
latency_to_bin-above_example = latency_to_bin-above 2000000 (omega arith) (omega arith)

record_all-Recorded_example :
    (r : LatencyHistogram) × (record_all three new ≡ some r) × Recorded three new r
record_all-Recorded_example = record_all-Recorded three (omega arith)

abbrev two : LatencyHistogram
two = record { bins = 0 ∷ 1 ∷ 1 ∷ zeros 97; total_latency = 3; sample_count = 2 }

two-IsCounted : IsCounted two
two-IsCounted = record { all_bins = refl; counted = refl; word = omega arith }

estimate_percentile-Found_example :
    Found whole (2 * 50 / 100) two.bins (estimate_percentile whole 50 two)
estimate_percentile-Found_example =
    estimate_percentile-Found whole 50 two two-IsCounted (omega arith) (omega arith) (omega arith)
