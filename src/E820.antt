-- ===== src/E820.antt =====
-- kernel/e820.c and include/e820.h: the memory map that the BIOS reports. `struct e820_map` is
-- the list of its first `nr_map` entries, so `nr_map` is the list's length.
pub mod Region
pub mod MaxPfn
pub mod Setup
pub mod PrintMap
mod PrintTests
mod Tests
use tvmm.Base.{
  ℕ, zero, suc, ◌+◌, ◌*◌, ◌^◌, bit_and, bit_or, List, [], ◌∷◌, ◌++◌, ltb, leb, ◌==◌, ◌!=◌,
  if◌then◌else◌, length, ◌&&◌,
}
use tvmm.Base.Word.{w64, shl64, shr}
use tvmm.Page.{page_shift, pfn_up, pfn_down}
use tvmm.Memory.{Mem}
use tvmm.Multiboot.{MultibootInfo, MemoryMap, read_memory_map, mbi_memmap}
use tvmm.Failure.{too_many_entries, no_memory_information}
use tvmm.Kernel.{Kernel, pure, fail, done, out_of_fuel, ◌>>=◌}

abbrev pub max_entries : ℕ
max_entries = 128

-- `enum e820_type`; a boot loader may report any other number.
abbrev pub ram : ℕ
ram = 1

abbrev pub reserved : ℕ
reserved = 2

abbrev pub acpi : ℕ
acpi = 3

abbrev pub nvs : ℕ
nvs = 4

pub record E820Entry : Type 0 where
  pub addr : ℕ
  pub size : ℕ
  pub type : ℕ

abbrev pub E820Map : Type 0
E820Map = List E820Entry

unfoldable pub add_memory_region : E820Map → ℕ → ℕ → ℕ → Kernel E820Map
add_memory_region e820 start size type =
    if leb max_entries (length e820)
    then fail too_many_entries
    else pure (e820 ++ record { addr = start; size = size; type = type } ∷ [])

-- `( (u64) high << 32 ) | (u64) low`.
unfoldable pub join_words : ℕ → ℕ → ℕ
join_words high low = bit_or (shl64 high 32) low

-- The loop at offset `p`.
unfoldable pub setup_loop : ℕ → MultibootInfo → ℕ → E820Map → Kernel E820Map
setup_loop zero mbi p e820 s = out_of_fuel
setup_loop (suc fuel) mbi p e820 s =
    let mmap = read_memory_map s.mem (mbi.mmap_addr + p) in
    let start = join_words mmap.base_addr_high mmap.base_addr_low in
    let size = join_words mmap.length_high mmap.length_low in
    let round =
      (add_memory_region e820 start size mmap.type
          >>= setup_loop fuel mbi (w64 (p + (mmap.size + 4))))
        s in
    if ltb p mbi.mmap_length then round else done e820 s

unfoldable pub setup_memory_region : MultibootInfo → Kernel E820Map
setup_memory_region mbi =
    if bit_and mbi.flags mbi_memmap == 0
    then fail no_memory_information
    else setup_loop (mbi.mmap_length + 1) mbi 0 []

unfoldable pub nr_pages_loop : ℕ → E820Map → ℕ
nr_pages_loop n [] = n
nr_pages_loop n (p ∷ rest) =
    nr_pages_loop (if p.type != ram then n else w64 (n + shr p.size page_shift)) rest

unfoldable pub get_nr_pages : E820Map → ℕ
unfolding nr_pages_loop
get_nr_pages e820 = nr_pages_loop 0 e820

-- One round of the loop of `get_max_pfn`.
unfoldable pub max_pfn_step : ℕ → E820Entry → ℕ
max_pfn_step n p =
    if p.type != ram
    then n
    else (let start = pfn_up p.addr in
        let end = pfn_down (w64 (p.addr + p.size)) in if ltb start end && ltb n end then end else n)

unfoldable pub max_pfn_loop : ℕ → E820Map → ℕ
max_pfn_loop n [] = n
max_pfn_loop n (p ∷ rest) = max_pfn_loop (max_pfn_step n p) rest

unfoldable pub get_max_pfn : E820Map → ℕ
unfolding max_pfn_loop
get_max_pfn e820 = max_pfn_loop 0 e820
