-- ===== src/Prelude/Numbers.antt =====
-- Powers of two.
use Prim.Native.Nat.{ℕ, zero, suc, ◌^◌, ◌≤◌}
use native.Mathlib.Nat.{pow-suc}
use native.Mathlib.Omega.{arith}

pub pow_pos : (k : ℕ) → 1 ≤ 2 ^ k
pow_pos zero = omega arith
pow_pos (suc k) = rw pow-suc (omega (arith, pow_pos k))
