-- ===== src/Float.antt =====
-- `f64` as an interface: the operations that the program calls, and the documented facts about them
-- that some theorems need. There are no floating-point numbers in the model itself.
use madrpc.Prelude.{ℕ, suc, ◌*◌, ◌^◌, ◌≤◌, ◌<◌, ◌≡◌, Bool, Option, min, leb}

-- An `i32`: `negsuc n` is -(n + 1).
pub data ℤ : Type 0 where
  pos : ℕ → ℤ
  negsuc : ℕ → ℤ

pub record F64 : Type 1 where
  pub Float : Type 0
  -- `n as f64`, for an unsigned n.
  pub of_ℕ : ℕ → Float
  -- `x as u64`: truncates towards zero, and saturates.
  pub to_u64 : Float → ℕ
  pub add : Float → Float → Float
  pub sub : Float → Float → Float
  pub mul : Float → Float → Float
  pub div : Float → Float → Float
  pub powi : Float → ℤ → Float
  -- `f64::min`.
  pub fmin : Float → Float → Float
  -- `x <= y`.
  pub leb : Float → Float → Bool
  -- `Duration::as_secs_f64`, from nanoseconds.
  pub secs_of_nanos : ℕ → Float
  -- `Duration::from_secs_f64`, to nanoseconds; `none` where it panics.
  pub nanos_of_secs : Float → Option ℕ

-- Whole numbers up to 2^53 are represented exactly, and products and small powers of two that stay
-- there are exact.
pub record IsExact (F : F64) : Type 0 where
  pub to_u64-of_ℕ : (n : ℕ) → n ≤ 2 ^ 53 → F.to_u64 (F.of_ℕ n) ≡ n
  pub mul-of_ℕ : (m n : ℕ) → m * n ≤ 2 ^ 53 → F.mul (F.of_ℕ m) (F.of_ℕ n) ≡ F.of_ℕ (m * n)
  pub powi-two : (k : ℕ) → k ≤ 53 → F.powi (F.of_ℕ 2) (pos k) ≡ F.of_ℕ (2 ^ k)

-- A minimum with a whole number truncates to no more than it, and a tenth to no more than the number.
pub record IsClamping (F : F64) : Type 0 where
  pub to_u64-fmin : (x : F.Float) (n : ℕ) → n ≤ 2 ^ 53 → F.to_u64 (F.fmin x (F.of_ℕ n)) ≤ n
  pub to_u64-tenth :
      (n : ℕ) → n ≤ 2 ^ 53 → F.to_u64 (F.mul (F.of_ℕ n) (F.div (F.of_ℕ 1) (F.of_ℕ 10))) ≤ n

-- Whole numbers of 32 bits are exact under the addition of 0, minima, counting down, and the comparison
-- with 1.
pub record IsCounting (F : F64) : Type 0 where
  pub add-zero : (n : ℕ) → n < 2 ^ 32 → F.add (F.of_ℕ n) (F.of_ℕ 0) ≡ F.of_ℕ n
  pub fmin-of_ℕ :
      (m n : ℕ) → m < 2 ^ 32 → n < 2 ^ 32 → F.fmin (F.of_ℕ m) (F.of_ℕ n) ≡ F.of_ℕ (min m n)
  pub sub-one : (n : ℕ) → n < 2 ^ 32 → F.sub (F.of_ℕ (suc n)) (F.of_ℕ 1) ≡ F.of_ℕ n
  pub one-leb : (n : ℕ) → n < 2 ^ 32 → F.leb (F.of_ℕ 1) (F.of_ℕ n) ≡ leb 1 n
