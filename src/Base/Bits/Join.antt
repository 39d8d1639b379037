-- ===== src/Base/Bits/Join.antt =====
-- `( high << k ) | low` joins two fields.
use Prim.Native.Nat.{ℕ, zero, suc, ◌+◌, ◌*◌, ◌/◌, ◌%◌, ◌^◌, ◌≤◌, ◌<◌, bit_or, max}
use mathlib.Core.Path.{◌≡◌, refl, ap, ◌∙◌}
use native.Mathlib.Nat.{pow-suc}
use native.Mathlib.Omega.{arith}
use tvmm.Base.Bits.Step.{bit_or_digit}

pub bit_or-zero : (n a : ℕ) → a ≤ n → bit_or a 0 ≡ a
bit_or-zero n zero h = refl
bit_or-zero zero (suc a) h = absurd (omega arith)
bit_or-zero (suc n) (suc a) h =
    omega (arith, bit_or_digit (suc a) 0, bit_or-zero n (suc a / 2) (omega arith))

pub bit_or-join : (k high low : ℕ) → low < 2 ^ k → bit_or (high * 2 ^ k) low ≡ high * 2 ^ k + low
bit_or-join zero high low h =
    let none : low ≡ 0 = omega arith in
    let same : high * 2 ^ 0 ≡ high = omega arith in
    rw (none, same) (bit_or-zero high high (omega arith) ∙ omega arith)
bit_or-join (suc k) high low h =
    let whole : high * 2 ^ suc k ≡ 2 * (high * 2 ^ k) =
      omega (arith, ap (λ (t : ℕ). high * t) (pow-suc 2 k)) in
    let half : high * 2 ^ suc k / 2 ≡ high * 2 ^ k = omega (arith, whole) in
    let rest = bit_or-join k high (low / 2) (omega (arith, pow-suc 2 k)) in
    let digit : bit_or (high * 2 ^ suc k) low
        ≡ bit_or (high * 2 ^ k) (low / 2) * 2 + max (high * 2 ^ suc k % 2) (low % 2) =
      rw (← half) (bit_or_digit (high * 2 ^ suc k) low) in
    omega (arith, digit, rest, whole)
