-- ===== src/Memory.antt =====
-- Memory as the C code sees it: one byte at each virtual address, and little-endian words of
-- several bytes.
pub mod Laws
use tvmm.Base.{ℕ, zero, suc, ◌+◌, ◌*◌, ◌/◌, ◌%◌, ◌==◌, if◌then◌else◌}
use tvmm.Base.Word.{w64}

abbrev pub Mem : Type 0
Mem = ℕ → ℕ

-- `* ( unsigned char * ) a`.
abbrev pub byte : Mem → ℕ → ℕ
byte m a = m a % 256

unfoldable pub store8 : Mem → ℕ → ℕ → Mem
store8 m a v b = if b == a then v % 256 else m b

unfoldable pub load_bytes : Mem → ℕ → ℕ → ℕ
load_bytes m a zero = 0
load_bytes m a (suc n) = byte m a + 256 * load_bytes m (a + 1) n

unfoldable pub store_bytes : Mem → ℕ → ℕ → ℕ → Mem
store_bytes m a zero v = m
store_bytes m a (suc n) v = store_bytes (store8 m a v) (a + 1) n (v / 256)

-- `* ( unsigned long * ) a`, `* ( u32 * ) a`, `* ( u16 * ) a`.
unfoldable pub load64 : Mem → ℕ → ℕ
load64 m a = load_bytes m a 8

unfoldable pub load32 : Mem → ℕ → ℕ
load32 m a = load_bytes m a 4

unfoldable pub load16 : Mem → ℕ → ℕ
load16 m a = load_bytes m a 2

unfoldable pub store64 : Mem → ℕ → ℕ → Mem
store64 m a v = store_bytes m a 8 (w64 v)
