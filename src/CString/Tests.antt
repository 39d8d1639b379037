-- ===== src/CString/Tests.antt =====
-- The functions at small memories.
use tvmm.Base.{ℕ, ◌↔◌, ◌||◌, ◌==◌, List, [], ◌∷◌, length, arith, ◌%◌, ◌≡◌, refl, if◌then◌else◌}
use tvmm.Memory.{Mem, byte, store8, load_bytes, store_bytes}
use tvmm.CString.{strncmp, memmove, inline_memcpy, rep_movsl, movs, movs_if, copy_down}
use tvmm.CString.Compare.{BytesAre, strncmp-BytesAre}
use tvmm.CString.Laws.{Moved, memmove_lem}

-- The byte at each address is the address.
abbrev ramp : Mem
ramp a = a % 256

-- Seven bytes down by two, and up by two.
memmove_lem_example : Moved ramp 14 16 7 (memmove ramp 14 16 7)
memmove_lem_example = memmove_lem ramp 14 16 7

overlapping :
    (byte (memmove ramp 14 16 7) 14 ≡ 16)
    × (byte (memmove ramp 14 16 7) 20 ≡ 22)
    × (byte (memmove ramp 14 16 7) 21 ≡ 21)
    × (byte (memmove ramp 18 16 7) 18 ≡ 16)
    × (byte (memmove ramp 18 16 7) 24 ≡ 22)
unfolding memmove inline_memcpy rep_movsl movs movs_if copy_down store8 load_bytes store_bytes
overlapping = (refl, refl, refl, refl, refl)

-- "ab" at 0, and at 8.
abbrev two_strings : Mem
two_strings a = if a == 0 || a == 8 then 97 else (if a == 1 || a == 9 then 98 else 0)

abbrev ab : List ℕ
ab = 97 ∷ 98 ∷ []

strncmp-BytesAre_example :
    (strncmp two_strings 0 two_strings 8 (length ab) ≡ 0) ↔ BytesAre two_strings 0 ab
strncmp-BytesAre_example = strncmp-BytesAre ab two_strings 0 two_strings 8 (omega arith)
