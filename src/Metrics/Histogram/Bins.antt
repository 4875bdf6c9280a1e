-- ===== src/Metrics/Histogram/Bins.antt =====
-- The bin of a latency, and the latencies of a bin.
use native.Mathlib.Nat.{pow-le-pow_right, mod-eq_of_lt, mul-le-mul, mul-le-mul_left}
use madrpc.Prelude.{
  ℕ, zero, suc, ◌+◌, ◌*◌, ◌/◌, ◌%◌, ◌^◌, ◌≤◌, ◌<◌, ◌≡◌, refl, arith, min, max, ap, ◌∙◌, subst, sym,
  dec_le,
}
use madrpc.Metrics.Histogram.{num_histogram_bins, log_from, ilog10, latency_to_bin, bin_to_latency}

-- Every latency has a bin.
pub latency_to_bin-lt : (l : ℕ) → latency_to_bin l < num_histogram_bins
unfolding latency_to_bin
latency_to_bin-lt l = ground arith

pow_step : (k : ℕ) → 10 ^ suc k ≡ 10 ^ k * 10
pow_step k = omega arith

-- The loop counts the divisions.
log_from-bounds :
    (left n log : ℕ)
    → 0 < n
    → n < 10 ^ suc left
    → (k : ℕ) × (log_from left n log ≡ log + k) × (10 ^ k ≤ n) × (n < 10 ^ suc k)
unfolding log_from
log_from-bounds zero n log pos h = (0, omega arith, omega arith, h)
log_from-bounds (suc left) n log pos h = elim (dec_le 10 n) [
  | yes le ↦
      let (k, e, low, high) = log_from-bounds left (n / 10) (log + 1) (omega arith) (omega arith) in
      (suc k, ground arith, omega arith, omega arith)
  | no gt ↦ (0, ground arith, omega arith, omega arith)
]

-- `ilog10` is the decimal logarithm, rounded down, of every word of 64 bits but 0: its loop ends
-- within the divisions that the model allows.
pub ilog10-floor : (n : ℕ) → 0 < n → n < 2 ^ 64 → (10 ^ ilog10 n ≤ n) × (n < 10 ^ suc (ilog10 n))
unfolding ilog10
ilog10-floor n pos h =
    let (k, e, low, high) = log_from-bounds 20 n 0 pos (omega arith) in
    let same : k ≡ ilog10 n = ground arith in
    (subst (λ j. 10 ^ j ≤ n) same low, subst (λ j. n < 10 ^ suc j) same high)

-- Two powers around one number.
decade_le : (j k m n : ℕ) → 10 ^ j ≤ m → m ≤ n → n < 10 ^ suc k → j ≤ k
decade_le j k m n low h high = elim (dec_le j k) [
  | yes le ↦ le
  | no gt ↦
      let up : 10 ^ suc k ≤ 10 ^ j = pow-le-pow_right (omega arith) (omega arith) in
      absurd (omega arith)
]

module _ (l : ℕ) where
  -- Below a second: the decade, and the leading digit.
  digit_bin :
      (k : ℕ)
      → ilog10 l ≡ k
      → 10 ^ k ≤ l
      → l < 10 ^ suc k
      → l < 1000000
      → (d : ℕ) × (latency_to_bin l ≡ k * 10 + d)
        × (0 < d)
        × (d < 10)
        × (10 ^ k * d ≤ l)
        × (l < 10 ^ k * (d + 1))
  unfolding latency_to_bin
  digit_bin zero e low high h =
      (l, ground arith, omega arith, omega arith, omega arith, omega arith)
  digit_bin (suc zero) e low high h =
      (l / 10, ground arith, omega arith, omega arith, omega arith, omega arith)
  digit_bin (suc (suc zero)) e low high h =
      (l / 100, ground arith, omega arith, omega arith, omega arith, omega arith)
  digit_bin (suc (suc (suc zero))) e low high h =
      (l / 1000, ground arith, omega arith, omega arith, omega arith, omega arith)
  digit_bin (suc (suc (suc (suc zero)))) e low high h =
      (l / 10000, ground arith, omega arith, omega arith, omega arith, omega arith)
  digit_bin (suc (suc (suc (suc (suc zero))))) e low high h =
      (l / 100000, ground arith, omega arith, omega arith, omega arith, omega arith)
  digit_bin (suc (suc (suc (suc (suc (suc k)))))) e low high h =
      let few : suc (suc (suc (suc (suc (suc k))))) ≤ 5 = decade_le _ 5 l l low (omega arith) h in
      absurd (omega arith)

bin_to_latency-digit :
    (k d : ℕ) → k ≤ 9 → d < 10 → 0 < k * 10 + d → bin_to_latency (k * 10 + d) ≡ 10 ^ k * max d 1
unfolding bin_to_latency
bin_to_latency-digit k d hk hd pos =
    let quotient : (k * 10 + d) / 10 ≡ k = omega arith in
    let remainder : (k * 10 + d) % 10 ≡ d = omega arith in
    let small : 10 ^ k ≤ 10 ^ 9 = pow-le-pow_right (omega arith) hk in
    let digit : max d 1 ≤ 10 = omega arith in
    let fits : 10 ^ k * max d 1 ≤ 10 ^ 9 * 10 = mul-le-mul small digit in
    rw (quotient, remainder) (ground (arith, mod-eq_of_lt {n = 10 ^ k * max d 1} {m = 2 ^ 64}))

next_bin : (k d : ℕ) → k ≤ 5 → 0 < d → d < 10 → bin_to_latency (k * 10 + d + 1) ≡ 10 ^ k * (d + 1)
next_bin k d hk pos hd = elim (dec_le 9 d) [
  | yes le ↦
      ap bin_to_latency {x = k * 10 + d + 1} {y = suc k * 10 + 0} (omega arith)
      ∙ bin_to_latency-digit (suc k) 0 (omega arith) (omega arith) (omega arith)
      ∙ omega arith
      ∙ ap (λ (j : ℕ). 10 ^ k * j) {x = 10} {y = d + 1} (omega arith)
  | no gt ↦
      ap bin_to_latency {x = k * 10 + d + 1} {y = k * 10 + (d + 1)} (omega arith)
      ∙ bin_to_latency-digit k (d + 1) (omega arith) (omega arith) (omega arith)
      ∙ ap (λ (j : ℕ). 10 ^ k * j) {x = max (d + 1) 1} {y = d + 1} (omega arith)
]

-- A latency of a microsecond or more and below a second lies in its bin: from the lower bound of
-- the bin up to, and without, that of the next bin.
pub latency_to_bin-holds :
    (l : ℕ)
    → 0 < l
    → l < 1000000
    → (bin_to_latency (latency_to_bin l) ≤ l) × (l < bin_to_latency (latency_to_bin l + 1))
latency_to_bin-holds l pos h =
    let (low, high) = ilog10-floor l pos (omega arith) in
    let few : ilog10 l ≤ 5 = decade_le (ilog10 l) 5 l l low (omega arith) h in
    let (d, e, dpos, dlt, dlow, dhigh) = digit_bin l (ilog10 l) refl low high h in
    let digit : max d 1 ≡ d = omega arith in
    (
      subst (λ (b : ℕ). bin_to_latency b ≤ l) (sym e)
          (subst (λ (b : ℕ). b ≤ l)
            (sym (
              bin_to_latency-digit (ilog10 l) d (omega arith) dlt (omega arith)
              ∙ ap (λ (j : ℕ). 10 ^ ilog10 l * j) digit))
            dlow),
      subst (λ (b : ℕ). l < bin_to_latency (b + 1)) (sym e)
          (subst (λ (b : ℕ). l < b) (sym (next_bin (ilog10 l) d few dpos dlt)) dhigh),
    )

-- From a second on, every latency falls in the last bin of its decade.
pub latency_to_bin-overflow :
    (l : ℕ) → 1000000 ≤ l → l < 2 ^ 64 → latency_to_bin l ≡ min (ilog10 l * 10 + 9) 99
unfolding latency_to_bin
latency_to_bin-overflow l low h = ground arith

-- A latency of one up to nine seconds lies below the lower bound of its bin.
pub latency_to_bin-above :
    (l : ℕ) → 1000000 ≤ l → l < 9000000 → l < bin_to_latency (latency_to_bin l)
unfolding bin_to_latency
latency_to_bin-above l low h =
    let (floor, ceil) = ilog10-floor l (omega arith) (omega arith) in
    let least : 6 ≤ ilog10 l = decade_le 6 (ilog10 l) l l low (omega arith) ceil in
    let most : ilog10 l ≤ 6 = decade_le (ilog10 l) 6 l l floor (omega arith) (omega arith) in
    let at_last : latency_to_bin l ≡ 69 =
      omega (arith, latency_to_bin-overflow l low (omega arith)) in
    subst (λ (b : ℕ). l < bin_to_latency b) (sym at_last) (omega arith)

digit_le : (p d e l m : ℕ) → p * d ≤ l → l ≤ m → m < p * (e + 1) → d ≤ e
digit_le p d e l m low h high = elim (dec_le d e) [
  | yes le ↦ le
  | no gt ↦
      let more : e + 1 ≤ d = omega arith in
      let up : p * (e + 1) ≤ p * d = mul-le-mul_left p more in absurd (omega arith)
]

module _ (l m : ℕ) (pos : 0 < l) (le : l ≤ m) (fits : m < 2 ^ 64) where
  logs : ilog10 l ≤ ilog10 m
  logs =
      decade_le (ilog10 l) (ilog10 m) l m (ilog10-floor l pos (omega arith)).0 le
        (ilog10-floor m (omega arith) fits).1

  below_second : m < 1000000 → latency_to_bin l ≤ latency_to_bin m
  below_second h =
      let (low, high) = ilog10-floor l pos (omega arith) in
      let (low', high') = ilog10-floor m (omega arith) fits in
      let (d, e, dpos, dlt, dlow, dhigh) = digit_bin l (ilog10 l) refl low high (omega arith) in
      let (d', e', dpos', dlt', dlow', dhigh') = digit_bin m (ilog10 m) refl low' high' h in
      elim (dec_le (ilog10 m) (ilog10 l)) [
        | yes same ↦
            let k : ilog10 l ≡ ilog10 m = omega (arith, logs) in
            let digits : d ≤ d' =
              digit_le (10 ^ ilog10 m) d d' l m (subst (λ (j : ℕ). 10 ^ j * d ≤ l) k dlow) le
                dhigh' in
            omega arith
        | no less ↦ omega arith
      ]

  across_second : l < 1000000 → 1000000 ≤ m → latency_to_bin l ≤ latency_to_bin m
  across_second h above =
      let (low, high) = ilog10-floor l pos (omega arith) in
      let (d, e, dpos, dlt, dlow, dhigh) = digit_bin l (ilog10 l) refl low high h in
      let few : ilog10 l ≤ 5 = decade_le (ilog10 l) 5 l l low (omega arith) h in
      let many : 6 ≤ ilog10 m =
        decade_le 6 (ilog10 m) m m above (omega arith) (ilog10-floor m (omega arith) fits).1 in
      omega (arith, latency_to_bin-overflow m above fits)

  above_second : 1000000 ≤ l → latency_to_bin l ≤ latency_to_bin m
  above_second above = omega (
    arith,
    logs,
    latency_to_bin-overflow l above (omega arith),
    latency_to_bin-overflow m (omega arith) fits,
  )

-- A longer latency, of 64 bits, never falls in an earlier bin.
pub latency_to_bin_mono : (l m : ℕ) → l ≤ m → m < 2 ^ 64 → latency_to_bin l ≤ latency_to_bin m
unfolding latency_to_bin
latency_to_bin_mono zero m le fits = omega arith
latency_to_bin_mono (suc l) m le fits = elim (dec_le 1000000 (suc l)) [
  | yes above ↦ above_second (suc l) m (omega arith) le fits above
  | no below ↦ elim (dec_le 1000000 m) [
    | yes above ↦ across_second (suc l) m (omega arith) le fits (omega arith) above
    | no low ↦ below_second (suc l) m (omega arith) le fits (omega arith)
  ]
]
