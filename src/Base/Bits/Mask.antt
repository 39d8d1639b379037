-- ===== src/Base/Bits/Mask.antt =====
-- `&` with a mask of low digits is a remainder, and with its complement a rounding down.
use Prim.Native.Nat.{ℕ, zero, suc, ◌+◌, ◌-◌, ◌*◌, ◌/◌, ◌%◌, ◌^◌, ◌≤◌, ◌<◌, bit_and, min}
use mathlib.Core.Path.{◌≡◌, sym, ap, ◌∙◌}
use native.Mathlib.Nat.{
  pow-suc, one-le-pow, mod_def, div-div-eq-div-mul, mod-eq_of_lt, mul_comm, div-one,
}
use native.Mathlib.Omega.{arith}
use tvmm.Base.Bits.Step.{bit_and_digit}
use tvmm.Base.Bits.Zero.{bit_and-zero}

div-pow-suc : (a k : ℕ) → a / 2 ^ suc k ≡ a / 2 / 2 ^ k
div-pow-suc a k =
    ap (λ (t : ℕ). a / t) (pow-suc 2 k ∙ mul_comm (2 ^ k) 2) ∙ sym (div-div-eq-div-mul a 2 (2 ^ k))

mod-pow-suc : (a k : ℕ) → a % 2 ^ suc k ≡ a / 2 % 2 ^ k * 2 + a % 2
mod-pow-suc a k = omega (
  arith,
  mod_def a (2 ^ suc k),
  mod_def (a / 2) (2 ^ k),
  div-pow-suc a k,
  ap (λ (t : ℕ). 2 ^ suc k * t) (div-pow-suc a k),
  ap (λ (t : ℕ). t * (a / 2 / 2 ^ k)) (pow-suc 2 k),
)

pub bit_and-low : (k a : ℕ) → bit_and a (2 ^ k - 1) ≡ a % 2 ^ k
bit_and-low zero a = omega (arith, bit_and-zero a a)
bit_and-low (suc k) a =
    let half : (2 ^ suc k - 1) / 2 ≡ 2 ^ k - 1 = omega (arith, pow-suc 2 k, one-le-pow k 2) in
    let digit : bit_and a (2 ^ suc k - 1) ≡ bit_and (a / 2) (2 ^ k - 1) * 2 + a % 2 =
      bit_and_digit a (2 ^ suc k - 1)
      ∙ ap (λ (t : ℕ). bit_and (a / 2) t * 2 + min (a % 2) ((2 ^ suc k - 1) % 2)) half
      ∙ omega (arith, pow-suc 2 k, one-le-pow k 2) in
    omega (arith, digit, bit_and-low k (a / 2), mod-pow-suc a k)

-- `a & ~ ( ( 1 << s ) - 1 )` in a word of `w` digits.
pub bit_and-high : (s w a : ℕ) → s ≤ w → a < 2 ^ w → bit_and a (2 ^ w - 2 ^ s) ≡ a / 2 ^ s * 2 ^ s
bit_and-high zero w a h fits = bit_and-low w a ∙ mod-eq_of_lt fits ∙ omega (arith, div-one a)
bit_and-high (suc s) zero a h fits = absurd (omega arith)
bit_and-high (suc s) (suc w) a h fits =
    let half : (2 ^ suc w - 2 ^ suc s) / 2 ≡ 2 ^ w - 2 ^ s =
      omega (arith, pow-suc 2 w, pow-suc 2 s) in
    let digit : bit_and a (2 ^ suc w - 2 ^ suc s) ≡ bit_and (a / 2) (2 ^ w - 2 ^ s) * 2 =
      bit_and_digit a (2 ^ suc w - 2 ^ suc s)
      ∙ ap (λ (t : ℕ). bit_and (a / 2) t * 2 + min (a % 2) ((2 ^ suc w - 2 ^ suc s) % 2)) half
      ∙ omega (arith, pow-suc 2 w, pow-suc 2 s) in
    let rest = bit_and-high s w (a / 2) (omega arith) (omega (arith, pow-suc 2 w)) in
    omega (
      arith,
      digit,
      rest,
      div-pow-suc a s,
      ap (λ (t : ℕ). t * 2 ^ suc s) (div-pow-suc a s),
      ap (λ (t : ℕ). a / 2 / 2 ^ s * t) (pow-suc 2 s),
    )
