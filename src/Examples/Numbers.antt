-- ===== src/Examples/Numbers.antt =====
-- Whole numbers in place of floats: they meet the laws that the theorems ask of `f64`.
use madrpc.Prelude.{ℕ, ◌+◌, ◌-◌, ◌*◌, ◌/◌, ◌^◌, refl, arith, min, leb, some}
use madrpc.Float.{F64, ℤ, pos, negsuc, IsExact, IsClamping, IsCounting}

abbrev pub power : ℕ → ℤ → ℕ
power x (pos k) = x ^ k
power x (negsuc k) = 0

unfoldable pub whole : F64
whole = record {
  Float = ℕ;
  of_ℕ = λ n. n;
  to_u64 = λ n. n;
  add = λ m n. m + n;
  sub = λ m n. m - n;
  mul = λ m n. m * n;
  div = λ m n. m / n;
  powi = power;
  fmin = min;
  leb = leb;
  secs_of_nanos = λ n. n / 1000000000;
  nanos_of_secs = λ s. some (s * 1000000000);
}

pub whole-IsExact : IsExact whole
unfolding whole
whole-IsExact = record {
  to_u64-of_ℕ = λ n h. refl;
  mul-of_ℕ = λ m n h. refl;
  powi-two = λ k h. refl;
}

pub whole-IsClamping : IsClamping whole
unfolding whole
whole-IsClamping = record { to_u64-fmin = λ x n h. omega arith; to_u64-tenth = λ n h. omega arith }

pub whole-IsCounting : IsCounting whole
unfolding whole
whole-IsCounting = record {
  add-zero = λ n h. omega arith;
  fmin-of_ℕ = λ m n h k. refl;
  sub-one = λ n h. omega arith;
  one-leb = λ n h. refl;
}
