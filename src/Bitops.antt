-- ===== src/Bitops.antt =====
-- include/bitops.h: bit strings of 32-bit words. `btsl` and `btrl` with the bit's number in a
-- register reach the word in which the bit lies.
pub mod Laws
use tvmm.Base.{
  ℕ, zero, suc, ◌+◌, ◌*◌, ◌/◌, ◌%◌, ◌^◌, Bool, ◌==◌, ◌!=◌, bit_and, bit_or, if◌then◌else◌,
}
use tvmm.Base.Word.{shl64, shr}

-- Word `i` of the string.
abbrev pub Words : Type 0
Words = ℕ → ℕ

unfoldable pub set_word : ℕ → ℕ → Words → Words
set_word w v words i = if i == w then v else words i

-- A word with digit `j` cleared.
unfoldable pub clear_digit : ℕ → ℕ → ℕ
clear_digit zero w = w / 2 * 2
clear_digit (suc j) w = clear_digit j (w / 2) * 2 + w % 2

unfoldable pub set_bit : ℕ → Words → Words
set_bit nr words = set_word (nr / 32) (bit_or (words (nr / 32)) (2 ^ (nr % 32))) words

unfoldable pub clear_bit : ℕ → Words → Words
clear_bit nr words = set_word (nr / 32) (clear_digit (nr % 32) (words (nr / 32))) words

unfoldable pub constant_test_bit : ℕ → Words → Bool
constant_test_bit nr words = bit_and (shl64 1 (bit_and nr 31)) (words (shr nr 5)) != 0
