-- ===== src/Prelude/Order.antt =====
-- The order of texts, in which a map keeps its keys.
use Prim.Native.Nat.{Ordering, compare as compare_ℕ}
use Prim.Native.Char.{Char, code}
use Prim.Native.String.{String, [], ◌∷◌, compare, then}
use Prim.Native.String.compare
use mathlib.Core.Path.{◌≡◌, refl}
use mathlib.Core.Logic.{◌⊎◌, inl, inr}
use text.Mathlib.TextEquality.{path_by_compare}
use native.Mathlib.Omega.{arith}

heads :
    (c d : Char) (s t : String)
    → compare (c ∷ s) (d ∷ t) ≡ then (compare_ℕ (code c) (code d)) (compare s t)
heads c d s t = compare.cons-cons c d s t

pub compare_swap : (s t : String) → compare s t ≡ Ordering.gt → compare t s ≡ Ordering.lt
compare_swap [] [] h = absurd (cc (h, compare.nil-nil))
compare_swap [] (d ∷ t) h = absurd (cc (h, compare.nil-cons d t))
compare_swap (c ∷ s) [] h = compare.nil-cons c s
compare_swap (c ∷ s) (d ∷ t) h = ground (arith, h, heads c d s t, heads d c t s, compare_swap s t)

pub compare-lt_trans :
    (s t u : String)
    → compare s t ≡ Ordering.lt
    → compare t u ≡ Ordering.lt
    → compare s u ≡ Ordering.lt
compare-lt_trans s [] u h k = absurd (not_below s h)
  where
    not_below : (s : String) → compare s [] ≡ Ordering.lt → ⊥
    not_below [] h = cc (h, compare.nil-nil)
    not_below (c ∷ s) h = cc (h, compare.cons-nil c s)
compare-lt_trans s (d ∷ t) [] h k = absurd (cc (k, compare.cons-nil d t))
compare-lt_trans [] (d ∷ t) (e ∷ u) h k = compare.nil-cons e u
compare-lt_trans (c ∷ s) (d ∷ t) (e ∷ u) h k =
    ground (arith, h, k, heads c d s t, heads d e t u, heads c e s u, compare-lt_trans s t u)

pub swap_lt : (s t : String) → compare s t ≡ Ordering.lt → compare t s ≡ Ordering.gt
swap_lt [] [] h = absurd (cc (h, compare.nil-nil))
swap_lt [] (d ∷ t) h = compare.cons-nil d t
swap_lt (c ∷ s) [] h = absurd (cc (h, compare.cons-nil c s))
swap_lt (c ∷ s) (d ∷ t) h = ground (arith, h, heads c d s t, heads d c t s, swap_lt s t)

abbrev pub Below : String → String → Type 0
Below s t = (compare s t ≡ Ordering.lt) × (compare t s ≡ Ordering.gt)

-- The first of two texts is smaller, the same or greater.
pub compare_cases :
    (s t : String) → Below s t ⊎ (((compare s t ≡ Ordering.eq) × (s ≡ t)) ⊎ Below t s)
compare_cases s t = by_answer (compare s t) refl
  where
    by_answer :
        (o : Ordering)
        → compare s t ≡ o
        → Below s t ⊎ (((compare s t ≡ Ordering.eq) × (s ≡ t)) ⊎ Below t s)
    by_answer Ordering.lt e = inl (e, swap_lt s t e)
    by_answer Ordering.eq e = inr (inl (e, path_by_compare s t e))
    by_answer Ordering.gt e = inr (inr (compare_swap s t e, e))
