-- ===== src/Base/Bits/Step.antt =====
-- One binary digit of `&` and `|`, from the recursion that the native operations stand for.
use Prim.Native.Nat.{
  ℕ, zero, suc, ◌+◌, ◌*◌, ◌/◌, ◌%◌, ◌≤◌, bit_and, bit_or, bit_and-bitwise, bit_or-bitwise, digits,
  bitwise, min, max,
}
use mathlib.Core.Path.{◌≡◌, refl}
use native.Mathlib.Omega.{arith}

module _ (z : ℕ → ℕ) (op : ℕ → ℕ → ℕ) where
  -- The result does not depend on how many digits are to go, once there are enough.
  enough : (k l a b : ℕ) → a ≤ k → a ≤ l → digits z op k a b ≡ digits z op l a b
  enough zero zero a b p q = refl
  enough zero (suc l) zero b p q = refl
  enough (suc k) zero zero b p q = refl
  enough (suc k) (suc l) zero b p q = refl
  enough zero l (suc a) b p q = absurd (omega arith)
  enough (suc k) zero (suc a) b p q = absurd (omega arith)
  enough (suc k) (suc l) (suc a) b p q =
      let next = enough k l (suc a / 2) (b / 2) (omega arith) (omega arith) in omega arith

  pub bitwise_digit :
      (a b : ℕ)
      → bitwise z op (suc a) b ≡ bitwise z op (suc a / 2) (b / 2) * 2 + op (suc a % 2) (b % 2)
  bitwise_digit a b =
      let same = enough a (suc a / 2) (suc a / 2) (b / 2) (omega arith) (omega arith) in omega arith

pub bit_or_digit : (a b : ℕ) → bit_or a b ≡ bit_or (a / 2) (b / 2) * 2 + max (a % 2) (b % 2)
bit_or_digit zero b = simp bit_or-bitwise (omega arith)
bit_or_digit (suc a) b = simp bit_or-bitwise (bitwise_digit (λ y. y) max a b)

pub bit_and_digit : (a b : ℕ) → bit_and a b ≡ bit_and (a / 2) (b / 2) * 2 + min (a % 2) (b % 2)
bit_and_digit zero b = simp bit_and-bitwise (omega arith)
bit_and_digit (suc a) b = simp bit_and-bitwise (bitwise_digit (λ y. 0) min a b)
