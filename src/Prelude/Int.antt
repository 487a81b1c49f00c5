-- ===== src/Prelude/Int.antt =====
-- Go's signed `int` as an integer; where the width matters a module says so.
use Prim.Native.Nat.{ℕ, suc, ◌-◌, ◌+◌}
use mathlib.Core.Path.{◌≡◌}
use native.Mathlib.Omega.{arith}
use flynn_controller.Prelude.Tests.{leb, if◌then◌else◌}

-- `negsuc n` is -(n + 1).
pub data ℤ : Type 0 where
  pos : ℕ → ℤ
  negsuc : ℕ → ℤ

-- n - m
abbrev pub sub_ℕ : ℕ → ℕ → ℤ
sub_ℕ n m = if leb m n then pos (n - m) else negsuc (m - n - 1)

-- z - n
abbrev pub minus_ℕ : ℤ → ℕ → ℤ
minus_ℕ (pos m) n = sub_ℕ m n
minus_ℕ (negsuc m) n = negsuc (m + n)

-- max(z, 0)
abbrev pub pos_part : ℤ → ℕ
pos_part (pos n) = n
pos_part (negsuc n) = 0

-- What the sign of a difference says of its parts.
pub minus_ℕ-eq-pos : (z : ℤ) (n k : ℕ) → minus_ℕ z n ≡ pos k → pos_part z ≡ n + k
minus_ℕ-eq-pos (pos m) n k h = ground arith
minus_ℕ-eq-pos (negsuc m) n k h = cc

pub minus_ℕ-eq-negsuc : (z : ℤ) (n k : ℕ) → minus_ℕ z n ≡ negsuc k → n - suc k ≡ pos_part z
minus_ℕ-eq-negsuc (pos m) n k h = ground arith
minus_ℕ-eq-negsuc (negsuc m) n k h = ground arith
