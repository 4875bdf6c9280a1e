-- ===== src/Prelude/Word.antt =====
-- Machine words: the moduli of `u32`, `u64` and `usize` (64 bits), and wrapping sums.
use Prim.Native.Nat.{ℕ, ◌^◌, ◌%◌, ◌<◌}
use mathlib.Core.Path.{◌≡◌}
use native.Mathlib.Nat.{mod-eq_of_lt}

abbrev pub u32 : ℕ → ℕ
u32 n = n % 2 ^ 32

abbrev pub u64 : ℕ → ℕ
u64 n = n % 2 ^ 64

pub u64_of_lt : (n : ℕ) → n < 2 ^ 64 → u64 n ≡ n
u64_of_lt n h = mod-eq_of_lt h
