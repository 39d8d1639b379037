-- ===== src/Base/Bits.antt =====
-- The binary digits of a word, and what the bit operators do to each of them.
pub mod Step
mod Zero
pub mod Mask
pub mod Join
pub mod Masks64
use Prim.Native.Nat.{
  ℕ, zero, suc, ◌+◌, ◌-◌, ◌*◌, ◌/◌, ◌%◌, ◌^◌, ◌≤◌, ◌<◌, bit_and, bit_or, min, max,
}
use mathlib.Core.Path.{◌≡◌, refl, ap, ◌∙◌}
use mathlib.Core.Bool.{Bool, true, false, ◌&&◌, ◌||◌}
use native.Mathlib.Nat.{pow-suc, one-le-pow}
use native.Mathlib.Omega.{arith}
use tvmm.Base.Tests.{ltb, leb, ◌==◌, ◌!=◌, if◌then◌else◌}
use Step.{bit_or_digit, bit_and_digit}
use Zero.{bit_and-zero}

unfoldable pub testbit : ℕ → ℕ → Bool
testbit n zero = n % 2 == 1
testbit n (suc i) = testbit (n / 2) i

pub testbit-or : (i a b : ℕ) → testbit (bit_or a b) i ≡ (testbit a i || testbit b i)
unfolding testbit
testbit-or zero a b = ground (arith, bit_or_digit a b)
testbit-or (suc i) a b =
    let half : bit_or a b / 2 ≡ bit_or (a / 2) (b / 2) = omega (arith, bit_or_digit a b) in
    rw half (testbit-or i (a / 2) (b / 2))

pub testbit-and : (i a b : ℕ) → testbit (bit_and a b) i ≡ (testbit a i && testbit b i)
unfolding testbit
testbit-and zero a b = ground (arith, bit_and_digit a b)
testbit-and (suc i) a b =
    let half : bit_and a b / 2 ≡ bit_and (a / 2) (b / 2) = omega (arith, bit_and_digit a b) in
    rw half (testbit-and i (a / 2) (b / 2))

pub testbit-zero : (i : ℕ) → testbit 0 i ≡ false
unfolding testbit
testbit-zero zero = refl
testbit-zero (suc i) = testbit-zero i

-- `(1 << k) - 1` has the digits below `k`.
pub testbit-ones : (k i : ℕ) → testbit (2 ^ k - 1) i ≡ ltb i k
unfolding testbit
testbit-ones zero i = testbit-zero i ∙ ground arith
testbit-ones (suc k) zero = ground (arith, pow-suc 2 k, one-le-pow k 2)
testbit-ones (suc k) (suc i) =
    let half : (2 ^ suc k - 1) / 2 ≡ 2 ^ k - 1 = omega (arith, pow-suc 2 k, one-le-pow k 2) in
    rw half (testbit-ones k i ∙ ground arith)

-- `-(1 << s)` in a word of `w` digits has those from `s` on.
pub testbit-tail : (s w i : ℕ) → s ≤ w → testbit (2 ^ w - 2 ^ s) i ≡ (leb s i && ltb i w)
unfolding testbit
testbit-tail zero w i h = testbit-ones w i ∙ ground arith
testbit-tail (suc s) zero i h = absurd (omega arith)
testbit-tail (suc s) (suc w) zero h = ground (arith, pow-suc 2 w, pow-suc 2 s)
testbit-tail (suc s) (suc w) (suc i) h =
    let half : (2 ^ suc w - 2 ^ suc s) / 2 ≡ 2 ^ w - 2 ^ s =
      omega (arith, pow-suc 2 w, pow-suc 2 s) in
    rw half (testbit-tail s w i (omega arith) ∙ ground arith)

two_pow_half : (i : ℕ) → 2 ^ suc i / 2 ≡ 2 ^ i
two_pow_half i = omega (arith, pow-suc 2 i)

-- `a & (1 << i)` is nonzero exactly when `a` has digit `i`.
pub bit_and-pow : (i a : ℕ) → bit_and a (2 ^ i) ≡ (if testbit a i then 2 ^ i else 0)
unfolding testbit
bit_and-pow zero a = ground (arith, bit_and_digit a 1, bit_and-zero (a / 2) (a / 2))
bit_and-pow (suc i) a =
    ground (arith, bit_and_digit a (2 ^ suc i), pow-suc 2 i, two_pow_half i, bit_and-pow i (a / 2))
