-- ===== src/Base/Word.antt =====
-- Unsigned words of C: arithmetic modulo `2 ^ 64`, shifts, masks.
use Prim.Native.Nat.{ℕ, ◌+◌, ◌-◌, ◌*◌, ◌/◌, ◌%◌, ◌^◌}

abbrev pub w64 : ℕ → ℕ
w64 n = n % 2 ^ 64

abbrev pub w32 : ℕ → ℕ
w32 n = n % 2 ^ 32

-- `a - b` on `unsigned long`, for `b` below the modulus.
abbrev pub sub64 : ℕ → ℕ → ℕ
sub64 a b = (a + 2 ^ 64 - b) % 2 ^ 64

-- `- a` on `unsigned long`.
abbrev pub neg64 : ℕ → ℕ
neg64 a = (2 ^ 64 - a) % 2 ^ 64

-- `x << k` on `unsigned long`.
abbrev pub shl64 : ℕ → ℕ → ℕ
shl64 x k = x * 2 ^ k % 2 ^ 64

abbrev pub shr : ℕ → ℕ → ℕ
shr x k = x / 2 ^ k

-- A value of 32 bits as a signed one, widened to 64 bits.
abbrev pub sign_extend : ℕ → ℕ
sign_extend n = n + n / 2 ^ 31 * (2 ^ 64 - 2 ^ 32)
