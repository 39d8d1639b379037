-- ===== src/Bitops/Laws.antt =====
-- The bits of a string after `set_bit` and `clear_bit`.
use tvmm.Base.{
  ℕ, zero, suc, ◌+◌, ◌*◌, ◌/◌, ◌%◌, ◌^◌, ◌≡◌, refl, sym, ◌∙◌, arith, false, not, ◌&&◌, ◌||◌, ◌==◌,
  bit_and, bit_or, if◌then◌else◌, Bool-cases, or-false, and-true, inl, inr,
}
use Prim.Native.Nat.{bit_and-bitwise}
use native.Mathlib.Nat.{pow-suc, one-le-pow}
use tvmm.Base.Bits.Step.{bit_and_digit}
use tvmm.Base.Bits.{testbit, testbit-or, testbit-zero}
use tvmm.Base.Bits.Mask.{bit_and-low}
use tvmm.Base.Bits.Masks64.{shl64-one}
use tvmm.Base.Word.{shl64}
use tvmm.Bitops.{Words, set_word, clear_digit, set_bit, clear_bit, constant_test_bit}

testbit-pow : (j i : ℕ) → testbit (2 ^ j) i ≡ (i == j)
unfolding testbit
testbit-pow zero zero = refl
testbit-pow zero (suc i) = testbit-zero i ∙ ground arith
testbit-pow (suc j) zero = ground (arith, pow-suc 2 j)
testbit-pow (suc j) (suc i) =
    let half : 2 ^ suc j / 2 ≡ 2 ^ j = omega (arith, pow-suc 2 j) in
    rw half (testbit-pow j i ∙ ground arith)

testbit-clear_digit : (j i w : ℕ) → testbit (clear_digit j w) i ≡ (testbit w i && not (i == j))
unfolding testbit clear_digit
testbit-clear_digit zero zero w = ground arith
testbit-clear_digit zero (suc i) w =
    let half : w / 2 * 2 / 2 ≡ w / 2 = omega arith in rw half (ground arith)
testbit-clear_digit (suc j) zero w = ground arith
testbit-clear_digit (suc j) (suc i) w =
    let half : (clear_digit j (w / 2) * 2 + w % 2) / 2 ≡ clear_digit j (w / 2) = omega arith in
    rw half (testbit-clear_digit j i (w / 2) ∙ ground arith)

zero-bit_and : (a : ℕ) → bit_and 0 a ≡ 0
zero-bit_and a = simp bit_and-bitwise refl

pow-bit_and : (i a : ℕ) → bit_and (2 ^ i) a ≡ (if testbit a i then 2 ^ i else 0)
unfolding testbit
pow-bit_and zero a = ground (arith, bit_and_digit 1 a, zero-bit_and (a / 2))
pow-bit_and (suc i) a =
    let half : 2 ^ suc i / 2 ≡ 2 ^ i = omega (arith, pow-suc 2 i) in
    ground (arith, bit_and_digit (2 ^ suc i) a, pow-suc 2 i, half, pow-bit_and i (a / 2))

-- A test reads the digit of the word in which the bit lies.
pub constant_test_bit-testbit :
    (nr : ℕ) (words : Words) → constant_test_bit nr words ≡ testbit (words (nr / 32)) (nr % 32)
unfolding constant_test_bit
constant_test_bit-testbit nr words =
    let low : bit_and nr 31 ≡ nr % 32 = bit_and-low 5 nr in
    let one : shl64 1 (nr % 32) ≡ 2 ^ (nr % 32) = shl64-one (nr % 32) (omega arith) in
    rw (low, one) (ground (arith, pow-bit_and (nr % 32) (words (nr / 32)), one-le-pow (nr % 32) 2))

-- A test after one word has been replaced.
test-set_word :
    (nr k w : ℕ) (words : Words)
    → constant_test_bit k (set_word (nr / 32) w words)
      ≡ (if k / 32 == nr / 32 then testbit w (k % 32) else constant_test_bit k words)
unfolding set_word
test-set_word nr k w words =
    constant_test_bit-testbit k (set_word (nr / 32) w words)
    ∙ elim (Bool-cases (k / 32 == nr / 32)) [
      | inl here ↦ rw here refl
      | inr other ↦ rw other (sym (constant_test_bit-testbit k words))
    ]

one_bit : (nr k : ℕ) → k / 32 ≡ nr / 32 → (k == nr) ≡ (k % 32 == nr % 32)
one_bit nr k same = ground arith

-- `set_bit` sets the one bit, `clear_bit` clears it, and both leave every other bit of the string
-- as it was.
pub bit_updates :
    (nr k : ℕ) (words : Words)
    → (constant_test_bit k (set_bit nr words) ≡ (constant_test_bit k words || k == nr))
      × (constant_test_bit k (clear_bit nr words) ≡ (constant_test_bit k words && not (k == nr)))
unfolding set_bit clear_bit
bit_updates nr k words =
    let word = words (nr / 32) in
    let before = constant_test_bit-testbit k words in
    rw
      (
        test-set_word nr k (bit_or word (2 ^ (nr % 32))) words,
        test-set_word nr k (clear_digit (nr % 32) word) words,
      )
      (elim (Bool-cases (k / 32 == nr / 32)) [
        | inl here ↦
            let same : k / 32 ≡ nr / 32 = ground arith in
            rw
              (
                here,
                before,
                one_bit nr k same,
                testbit-or (k % 32) word (2 ^ (nr % 32)),
                testbit-pow (nr % 32) (k % 32),
                testbit-clear_digit (nr % 32) (k % 32) word,
                same,
              )
              (refl, refl)
        | inr other ↦
            let apart : (k == nr) ≡ false = ground arith in
            rw (other, apart) (sym (or-false _), sym (and-true _))
      ])
