-- ===== src/Metrics/Histogram/Percentile.antt =====
-- The search for a percentile.
use native.Mathlib.Nat.{mod-eq_of_lt, mul-le-mul_left}
use madrpc.Prelude.{
  ℕ, suc, ◌+◌, ◌-◌, ◌*◌, ◌/◌, ◌^◌, ◌≤◌, ◌<◌, ◌≡◌, refl, sym, ap, ◌∙◌, ◌⊎◌, inl, inr, some, List, [],
  ◌∷◌, arith, length, true, false, get_elem?, take, leb, ◌==◌, dec_le, subst,
}
use madrpc.Prelude.Word.{u64}
use madrpc.Float.{F64}
use madrpc.Metrics.Histogram.{LatencyHistogram, within, search_bins, estimate_percentile}
use madrpc.Metrics.Histogram.Counts.{sum, IsCounted}

-- The bin in which the search ends: the first one with which the samples reach the target.
pub record Found (F : F64) (target : ℕ) (bins : List ℕ) (r : ℕ) : Type 0 where
  pub bin : ℕ
  pub bin_count : ℕ
  pub at_bin : get_elem? bins bin ≡ some bin_count
  pub before : (bin ≡ 0) ⊎ (sum (take bin bins) < target)
  pub reached : target ≤ sum (take bin bins) + bin_count
  pub estimate : r ≡ within F bin bin_count (target - sum (take bin bins))

module _ (F : F64) (target : ℕ) where
  -- The same from a bin on, with the samples before it.
  record FoundFrom (idx cumulative : ℕ) (bins : List ℕ) (r : ℕ) : Type 0 where
    bin : ℕ
    bin_count : ℕ
    at_bin : get_elem? bins bin ≡ some bin_count
    before : (bin ≡ 0) ⊎ (cumulative + sum (take bin bins) < target)
    reached : target ≤ cumulative + sum (take bin bins) + bin_count
    estimate : r ≡ within F (idx + bin) bin_count (target - (cumulative + sum (take bin bins)))

  stops :
      (idx cumulative x : ℕ) (bins : List ℕ)
      → cumulative + x < 2 ^ 64
      → target ≤ cumulative + x
      → search_bins F target idx cumulative (x ∷ bins) ≡ within F idx x (target - cumulative)
  unfolding search_bins
  stops idx cumulative x bins fits h =
      let exact : u64 (cumulative + x) ≡ cumulative + x = mod-eq_of_lt fits in
      let here : leb target (u64 (cumulative + x)) ≡ true = ground arith in rw here refl

  goes_on :
      (idx cumulative x : ℕ) (bins : List ℕ)
      → cumulative + x < 2 ^ 64
      → cumulative + x < target
      → search_bins F target idx cumulative (x ∷ bins)
        ≡ search_bins F target (idx + 1) (cumulative + x) bins
  unfolding search_bins
  goes_on idx cumulative x bins fits h =
      let exact : u64 (cumulative + x) ≡ cumulative + x = mod-eq_of_lt fits in
      let not_here : leb target (u64 (cumulative + x)) ≡ false = ground arith in
      rw not_here (ap (λ (c : ℕ). search_bins F target (idx + 1) c bins) exact)

  first_bin :
      (idx cumulative x : ℕ) (bins : List ℕ)
      → cumulative + x < 2 ^ 64
      → target ≤ cumulative + x
      → FoundFrom idx cumulative (x ∷ bins) (search_bins F target idx cumulative (x ∷ bins))
  first_bin idx cumulative x bins fits h = record {
    bin = 0;
    bin_count = x;
    at_bin = refl;
    before = inl refl;
    reached = omega arith;
    estimate =
        stops idx cumulative x bins fits h
        ∙ ap (λ (i : ℕ). within F i x (target - cumulative)) {x = idx} {y = idx + 0} (omega arith)
        ∙ ap (λ (c : ℕ). within F (idx + 0) x (target - c)) {x = cumulative} {y = cumulative + 0}
            (omega arith);
  }

  later_bin :
      (idx cumulative x : ℕ) (bins : List ℕ) (r : ℕ)
      → cumulative + x < target
      → search_bins F target idx cumulative (x ∷ bins) ≡ r
      → FoundFrom (idx + 1) (cumulative + x) bins r
      → FoundFrom idx cumulative (x ∷ bins) (search_bins F target idx cumulative (x ∷ bins))
  later_bin idx cumulative x bins r h e f = record {
    bin = suc f.bin;
    bin_count = f.bin_count;
    at_bin = f.at_bin;
    before = elim f.before [ inl zero_ ↦ inr (first f.bin zero_) | inr less ↦ inr (omega arith) ];
    reached = omega (arith, f.reached);
    estimate =
        e
        ∙ f.estimate
        ∙ ap (λ (i : ℕ). within F i f.bin_count (target - (cumulative + x + sum (take f.bin bins))))
            {x = idx + 1 + f.bin} {y = idx + suc f.bin} (omega arith)
        ∙ ap (λ (c : ℕ). within F (idx + suc f.bin) f.bin_count (target - c))
            {x = cumulative + x + sum (take f.bin bins)}
            {y = cumulative + (x + sum (take f.bin bins))} (omega arith);
  }
    where
      first : (b : ℕ) → b ≡ 0 → cumulative + (x + sum (take b bins)) < target
      first b e0 =
          subst (λ (j : ℕ). cumulative + (x + sum (take j bins)) < target) (sym e0) (omega arith)

  search_bins-FoundFrom :
      (idx cumulative x : ℕ) (bins : List ℕ)
      → cumulative + sum (x ∷ bins) < 2 ^ 64
      → target ≤ cumulative + sum (x ∷ bins)
      → FoundFrom idx cumulative (x ∷ bins) (search_bins F target idx cumulative (x ∷ bins))
  search_bins-FoundFrom idx cumulative x [] fits h =
      first_bin idx cumulative x [] (omega arith) (omega arith)
  search_bins-FoundFrom idx cumulative x (y ∷ bins) fits h = elim (dec_le target (cumulative + x)) [
    | yes le ↦ first_bin idx cumulative x (y ∷ bins) (omega arith) le
    | no gt ↦
        later_bin idx cumulative x (y ∷ bins) _ (omega arith)
          (goes_on idx cumulative x (y ∷ bins) (omega arith) (omega arith))
          (search_bins-FoundFrom (idx + 1) (cumulative + x) y bins (omega arith) (omega arith))
  ]

  search_bins-Found :
      (bins : List ℕ)
      → 0 < length bins
      → sum bins < 2 ^ 64
      → target ≤ sum bins
      → Found F target bins (search_bins F target 0 0 bins)
  search_bins-Found [] pos fits h = absurd (omega arith)
  search_bins-Found (x ∷ bins) pos fits h =
      let f = search_bins-FoundFrom 0 0 x bins (omega arith) (omega arith) in
      record {
        bin = f.bin;
        bin_count = f.bin_count;
        at_bin = f.at_bin;
        before = elim f.before [ inl e ↦ inl e | inr less ↦ inr (omega arith) ];
        reached = omega (arith, f.reached);
        estimate =
            f.estimate
            ∙ ap (λ (i : ℕ). within F i f.bin_count (target - (0 + sum (take f.bin (x ∷ bins)))))
                {x = 0 + f.bin} {y = f.bin} (omega arith)
            ∙ ap (λ (c : ℕ). within F f.bin f.bin_count (target - c))
                {x = 0 + sum (take f.bin (x ∷ bins))} {y = sum (take f.bin (x ∷ bins))}
                (omega arith);
      }

-- In a histogram with its samples counted, at least one of them and fewer than 2^64 / 100, the
-- search for a percentile up to 100 ends inside the bins: the estimate is taken in the first bin
-- with which the samples reach the target, at the place that the target has among the samples of
-- that bin.
pub estimate_percentile-Found :
    (F : F64) (percentile : ℕ) (h : LatencyHistogram)
    → IsCounted h
    → 0 < h.sample_count
    → h.sample_count * 100 < 2 ^ 64
    → percentile ≤ 100
    → Found F (h.sample_count * percentile / 100) h.bins (estimate_percentile F percentile h)
unfolding estimate_percentile
estimate_percentile-Found F percentile h c pos fits le =
    let product : h.sample_count * percentile ≤ h.sample_count * 100 =
      mul-le-mul_left h.sample_count le in
    let exact : u64 (h.sample_count * percentile) ≡ h.sample_count * percentile =
      mod-eq_of_lt (omega arith) in
    let some_ : (h.sample_count == 0) ≡ false = ground arith in
    rw (some_, exact)
      (search_bins-Found F (h.sample_count * percentile / 100) h.bins (omega (arith, c.all_bins))
        (omega (arith, c.counted)) (omega (arith, c.counted)))
