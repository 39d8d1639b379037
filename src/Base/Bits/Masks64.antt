-- ===== src/Base/Bits/Masks64.antt =====
-- The masks that the allocator builds from `1UL << k`, in words of 64 digits.
use Prim.Native.Nat.{ℕ, suc, ◌-◌, ◌*◌, ◌^◌, ◌≤◌, ◌<◌}
use mathlib.Core.Path.{◌≡◌, ◌∙◌}
use mathlib.Core.Bool.{◌&&◌}
use native.Mathlib.Nat.{pow-suc, one-le-pow, pow-le-pow_right}
use native.Mathlib.Omega.{arith}
use tvmm.Base.Tests.{ltb, leb}
use tvmm.Base.Word.{w64, sub64, neg64, shl64}
use tvmm.Base.Bits.{testbit, testbit-and, testbit-ones, testbit-tail}
use tvmm.Base.Bits.Mask.{bit_and-low}

pub pow-lt64 : (k : ℕ) → k < 64 → (1 ≤ 2 ^ k) × (2 ^ k * 2 ≤ 2 ^ 64)
pow-lt64 k h = (
  one-le-pow k 2 (omega arith),
  omega (arith, pow-le-pow_right {n = 2} (omega arith) {i = suc k} {j = 64} h, pow-suc 2 k),
)

pub shl64-one : (k : ℕ) → k < 64 → shl64 1 k ≡ 2 ^ k
shl64-one k h = omega (arith, pow-lt64 k h)

pub testbit-below : (k i : ℕ) → k < 64 → testbit (sub64 (shl64 1 k) 1) i ≡ ltb i k
testbit-below k i h =
    let mask : sub64 (shl64 1 k) 1 ≡ 2 ^ k - 1 = omega (arith, pow-lt64 k h, shl64-one k h) in
    rw mask (testbit-ones k i)

pub testbit-from : (k i : ℕ) → k < 64 → testbit (neg64 (shl64 1 k)) i ≡ (leb k i && ltb i 64)
testbit-from k i h =
    let mask : neg64 (shl64 1 k) ≡ 2 ^ 64 - 2 ^ k = omega (arith, pow-lt64 k h, shl64-one k h) in
    rw mask (testbit-tail k 64 i (omega arith))

pub testbit-w64 : (n i : ℕ) → i < 64 → testbit (w64 n) i ≡ testbit n i
testbit-w64 n i h =
    rw (← bit_and-low 64 n) (testbit-and i n (2 ^ 64 - 1) ∙ ground (arith, testbit-ones 64 i))
