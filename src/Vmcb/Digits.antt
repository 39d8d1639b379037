-- ===== src/Vmcb/Digits.antt =====
-- The conditions of the checks, digit by digit.
use tvmm.Base.{
  ℕ, ◌+◌, ◌*◌, ◌/◌, ◌%◌, ◌^◌, ◌≡◌, refl, ap, ◌∙◌, arith, ◌||◌, ◌!=◌, Bool-cases, inl, inr, bit_and,
}
use native.Mathlib.Nat.{one-le-pow}
use tvmm.Base.Bits.{testbit, bit_and-pow}
use tvmm.Base.Bits.Mask.{bit_and-low}
use tvmm.Base.Bits.Step.{bit_and_digit}
use tvmm.Vmcb.{has, cr4_pae, sub_bit, as_int}

pub has-testbit : (i x : ℕ) → has x (2 ^ i) ≡ testbit x i
has-testbit i x = elim (Bool-cases (testbit x i)) [
  | inl set ↦ rw (bit_and-pow i x, set) (ground (arith, one-le-pow i 2))
  | inr clear ↦ rw (bit_and-pow i x, clear) refl
]

and_even : (x c : ℕ) → bit_and x (c * 2) ≡ bit_and (x / 2) c * 2
and_even x c =
    let halved : c * 2 / 2 ≡ c = omega arith in
    let even : c * 2 % 2 ≡ 0 = omega arith in
    bit_and_digit x (c * 2) ∙ rw (halved, even) (omega arith)

and_odd : (x c : ℕ) → bit_and x (c * 2 + 1) ≡ bit_and (x / 2) c * 2 + x % 2
and_odd x c =
    let halved : (c * 2 + 1) / 2 ≡ c = omega arith in
    let odd : (c * 2 + 1) % 2 ≡ 1 = omega arith in
    bit_and_digit x (c * 2 + 1) ∙ rw (halved, odd) (omega arith)

and_5 : (x : ℕ) → bit_and x 5 ≡ x / 4 % 2 * 4 + x % 2
and_5 x = and_odd x 2 ∙ omega (arith, and_even (x / 2) 1, bit_and-low 1 (x / 2 / 2))

and_20 : (x : ℕ) → bit_and x 20 ≡ x / 4 / 4 % 2 * 16 + x / 4 % 2 * 4
and_20 x = and_even x 10 ∙ omega (arith, and_even (x / 2) 5, and_5 (x / 2 / 2))

and_160 : (x : ℕ) → bit_and x 160 ≡ x / 32 % 2 * 32 + x / 128 % 2 * 128
and_160 x =
    and_even x 80
    ∙ omega (arith, and_even (x / 2) 40, and_even (x / 2 / 2) 20, and_20 (x / 2 / 2 / 2))

-- X86_CR4_PAE selects two digits.
pub has-pae : (x : ℕ) → has x cr4_pae ≡ (testbit x 5 || testbit x 7)
unfolding testbit
has-pae x = ground (arith, and_160 x)

pub sub_bit-lem : (x s : ℕ) → sub_bit x s 32 ≡ x / 2 ^ s % 2 ^ 32
unfolding sub_bit
sub_bit-lem x s = bit_and-low 32 (x / 2 ^ s)

-- A field of more than 32 digits is cut to 32.
pub field_53 : (x s : ℕ) → as_int (sub_bit x s 53) ≡ (x / 2 ^ s % 2 ^ 32 != 0)
unfolding sub_bit
field_53 x s = rw (bit_and-low 53 (x / 2 ^ s)) (ap (λ (t : ℕ). t != 0) (omega arith))

pub field_49 : (x s : ℕ) → as_int (sub_bit x s 49) ≡ (x / 2 ^ s % 2 ^ 32 != 0)
unfolding sub_bit
field_49 x s = rw (bit_and-low 49 (x / 2 ^ s)) (ap (λ (t : ℕ). t != 0) (omega arith))

pub field_32 : (x s : ℕ) → as_int (sub_bit x s 32) ≡ (x / 2 ^ s % 2 ^ 32 != 0)
unfolding sub_bit
field_32 x s = rw (bit_and-low 32 (x / 2 ^ s)) (ap (λ (t : ℕ). t != 0) (omega arith))
