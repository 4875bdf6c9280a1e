-- ===== src/Metrics/Histogram.antt =====
-- crates/madrpc-metrics/src/registry.rs, `LatencyHistogram`: the bins as a list, of `u64` counters that
-- wrap around. Latencies are in microseconds, and are words of 64 bits.
pub mod Bins
pub mod Counts
pub mod Percentile
use madrpc.Prelude.{
  ℕ, zero, suc, ◌+◌, ◌-◌, ◌*◌, ◌/◌, ◌%◌, ◌^◌, Bool, true, false, Option, none, some, List, [], ◌∷◌,
  ltb, leb, ◌==◌, min, max, if◌then◌else◌,
}
use madrpc.Prelude.Word.{u64}
use madrpc.Float.{F64}

abbrev pub num_histogram_bins : ℕ
num_histogram_bins = 100

-- The loop of `ilog10` over the divisions that are left: 19 divisions bring a word below 10.
unfoldable pub log_from : ℕ → ℕ → ℕ → ℕ
log_from zero n log = log
log_from (suc left) n log =
    let rest = log_from left (n / 10) (log + 1) in if leb 10 n then rest else log

unfoldable pub ilog10 : ℕ → ℕ
ilog10 n = if n == 0 then 0 else log_from 20 n 0

abbrev pub scale_factor : ℕ → ℕ
scale_factor latency_us =
    if ltb latency_us 10
    then latency_us
    else if ltb latency_us 100
    then latency_us / 10
    else if ltb latency_us 1000
    then latency_us / 100
    else if ltb latency_us 10000
    then latency_us / 1000
    else if ltb latency_us 100000
    then latency_us / 10000
    else if ltb latency_us 1000000
    then latency_us / 100000
    else 10 + min (ilog10 (latency_us / 1000000)) 3 * 10

unfoldable pub latency_to_bin : ℕ → ℕ
latency_to_bin latency_us =
    if latency_us == 0
    then 0
    else min (ilog10 latency_us * 10 + min (scale_factor latency_us) 9) (num_histogram_bins - 1)

unfoldable pub bin_to_latency : ℕ → ℕ
bin_to_latency bin = if bin == 0 then 1 else u64 (10 ^ (bin / 10) * max (bin % 10) 1)

pub record LatencyHistogram : Type 0 where
  pub bins : List ℕ
  pub total_latency : ℕ
  pub sample_count : ℕ

abbrev pub zeros : ℕ → List ℕ
zeros zero = []
zeros (suc n) = 0 ∷ zeros n

unfoldable pub new : LatencyHistogram
new = record { bins = zeros num_histogram_bins; total_latency = 0; sample_count = 0 }

-- `self.bins[i].fetch_add(1)`; none is the panic of an index out of bounds.
unfoldable pub increment : ℕ → List ℕ → Option (List ℕ)
increment i [] = none
increment zero (x ∷ xs) = some (u64 (x + 1) ∷ xs)
increment (suc i) (x ∷ xs) = elim (increment i xs) [ none ↦ none | some ys ↦ some (x ∷ ys) ]

unfoldable pub record_latency : ℕ → LatencyHistogram → Option LatencyHistogram
record_latency latency_us h = elim (increment (latency_to_bin latency_us) h.bins) [
  | none ↦ none
  | some bins ↦ some (record {
    bins = bins;
    total_latency = u64 (h.total_latency + latency_us);
    sample_count = u64 (h.sample_count + 1);
  })
]

module _ (F : F64) where
  -- The estimate within the bin that holds the target.
  abbrev pub within : ℕ → ℕ → ℕ → ℕ
  within bin_idx bin_count offset_in_bin =
      let bin_start = bin_to_latency bin_idx in
      let bin_end = bin_to_latency (bin_idx + 1) in
      if bin_count == 0
      then u64 (bin_start + bin_end) / 2
      else F.to_u64 (
          F.add (F.of_ℕ bin_start) (
            F.mul (F.div (F.of_ℕ offset_in_bin) (F.of_ℕ bin_count)) (F.of_ℕ (bin_end - bin_start))))

  -- The loop over the bins from an index on.
  unfoldable pub search_bins : ℕ → ℕ → ℕ → List ℕ → ℕ
  search_bins target_count bin_idx cumulative_count [] = bin_to_latency num_histogram_bins
  search_bins target_count bin_idx cumulative_count (bin_count ∷ bins) =
      let rest = search_bins target_count (bin_idx + 1) (u64 (cumulative_count + bin_count)) bins in
      if leb target_count (u64 (cumulative_count + bin_count))
      then within bin_idx bin_count (target_count - cumulative_count)
      else rest

  unfoldable pub estimate_percentile : ℕ → LatencyHistogram → ℕ
  estimate_percentile percentile h =
      if h.sample_count == 0
      then 0
      else search_bins (u64 (h.sample_count * percentile) / 100) 0 0 h.bins

  -- The average and the percentiles 50, 95 and 99.
  unfoldable pub calculate_percentiles : LatencyHistogram → ℕ × (ℕ × (ℕ × ℕ))
  calculate_percentiles h = if h.sample_count == 0 then (0, (0, (0, 0))) else (
    h.total_latency / h.sample_count,
    (estimate_percentile 50 h, (estimate_percentile 95 h, estimate_percentile 99 h)),
  )
