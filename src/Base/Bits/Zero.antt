-- ===== src/Base/Bits/Zero.antt =====
-- `a & 0`.
use Prim.Native.Nat.{ℕ, zero, suc, ◌/◌, ◌≤◌, bit_and}
use mathlib.Core.Path.{◌≡◌, refl}
use native.Mathlib.Omega.{arith}
use tvmm.Base.Bits.Step.{bit_and_digit}

pub bit_and-zero : (n a : ℕ) → a ≤ n → bit_and a 0 ≡ 0
bit_and-zero n zero h = refl
bit_and-zero zero (suc a) h = absurd (omega arith)
bit_and-zero (suc n) (suc a) h =
    omega (arith, bit_and_digit (suc a) 0, bit_and-zero n (suc a / 2) (omega arith))
