-- ===== src/CString.antt =====
-- kernel/string.c. Memory is one address space, so a source and a
-- destination may overlap; pointers do not pass the end of it.
pub mod Laws
pub mod Strings
pub mod Compare
mod Tests
use tvmm.Base.{
  ℕ, zero, suc, ◌+◌, ◌*◌, ◌/◌, bit_and, ltb, ◌==◌, ◌!=◌, ◌||◌, ◌-◌, ◌%◌, Option, none, some,
  if◌then◌else◌,
}
use tvmm.Memory.{Mem, byte, store8, load_bytes, store_bytes}

unfoldable pub memset : Mem → ℕ → ℕ → ℕ → Mem
memset m s c zero = m
memset m s c (suc count) = memset (store8 m s c) (s + 1) c count

-- One `movsb`, `movsw` or `movsl`: `n` bytes are read, and then written.
unfoldable pub movs : ℕ → Mem → ℕ → ℕ → Mem
movs n m to from = store_bytes m to n (load_bytes m from n)

unfoldable pub rep_movsl : ℕ → Mem → ℕ → ℕ → Mem
rep_movsl zero m to from = m
rep_movsl (suc count) m to from = rep_movsl count (movs 4 m to from) (to + 4) (from + 4)

-- `testb $b, n; je 1f; movs; 1:`, with the registers after it.
unfoldable pub movs_if : ℕ → ℕ → ℕ → Mem → ℕ → ℕ → Mem × ℕ × ℕ
movs_if b width n m to from =
    if bit_and n b == 0 then (m, to, from) else (movs width m to from, to + width, from + width)

unfoldable pub inline_memcpy : Mem → ℕ → ℕ → ℕ → Mem
inline_memcpy m to from n =
    let whole = rep_movsl (n / 4) m to from in
    let (half, to', from') = movs_if 2 2 n whole (to + 4 * (n / 4)) (from + 4 * (n / 4)) in
    (movs_if 1 1 n half to' from').0

-- `while ( count-- ) *--p = *--s`, with `p` and `s` starting `count` bytes on.
unfoldable pub copy_down : ℕ → Mem → ℕ → ℕ → Mem
copy_down zero m dest src = m
copy_down (suc count) m dest src =
    copy_down count (store8 m (dest + count) (byte m (src + count))) dest src

unfoldable pub memmove : Mem → ℕ → ℕ → ℕ → Mem
memmove m dest src count =
    if ltb dest src then inline_memcpy m dest src count else copy_down count m dest src

-- Strings may lie in two objects, each in a memory of its own. The `signed char` of the result is
-- kept as the byte that it is.
unfoldable pub strncmp : Mem → ℕ → Mem → ℕ → ℕ → ℕ
strncmp m cs m' ct zero = 0
strncmp m cs m' ct (suc count) =
    let res = (byte m cs + 256 - byte m' ct) % 256 in
    let rest = strncmp m (cs + 1) m' (ct + 1) count in
    if res != 0 || byte m cs == 0 then res else rest

-- `while (1)`, on fuel.
unfoldable pub strcmp : ℕ → Mem → ℕ → Mem → ℕ → Option ℕ
strcmp zero m cs m' ct = none
strcmp (suc fuel) m cs m' ct =
    let res = (byte m cs + 256 - byte m' ct) % 256 in
    let rest = strcmp fuel m (cs + 1) m' (ct + 1) in
    if res != 0 || byte m cs == 0 then some res else rest

-- The memory of the destination after it; the source lies in an object of its own.
unfoldable pub strcpy : ℕ → Mem → ℕ → Mem → ℕ → Option Mem
strcpy zero m dest m' src = none
strcpy (suc fuel) m dest m' src =
    let c = byte m' src in
    let rest = strcpy fuel (store8 m dest c) (dest + 1) m' (src + 1) in
    if c == 0 then some (store8 m dest c) else rest
