-- ===== src/E820/Tests.antt =====
-- A memory map of two entries, as a boot loader writes it.
use tvmm.Base.{
  ℕ, ◌+◌, ◌-◌, ◌*◌, ◌^◌, ◌<◌, ◌≡◌, ◌⊎◌, refl, arith, true, ◌==◌, if◌then◌else◌, [], ◌∷◌, bit_and,
}
use tvmm.Memory.{Mem, load_bytes, load32, store_bytes, store8}
use tvmm.Multiboot.{MultibootInfo, mbi_memmap}
use tvmm.Failure.{no_memory_information}
use tvmm.Kernel.{State, fatal}
use tvmm.E820.{E820Map, setup_memory_region, get_max_pfn}
use tvmm.E820.Region.{in_ram}
use tvmm.E820.MaxPfn.{get_max_pfn_lem}
use tvmm.E820.Setup.{Layout, none, more, entry, parsed, setup_memory_region_lem}

abbrev map_of_two : E820Map
map_of_two =
    record { addr = 0; size = 0x9fc00; type = 1 }
    ∷ record { addr = 0x1_0000_0000; size = 0x10_0000; type = 2 }
    ∷ []

get_max_pfn_lem_example :
    ((p : ℕ) → in_ram map_of_two p ≡ true → p < get_max_pfn map_of_two)
    × ((get_max_pfn map_of_two ≡ 0)
        ⊎ ((0 < get_max_pfn map_of_two) × (in_ram map_of_two (get_max_pfn map_of_two - 1) ≡ true)))
get_max_pfn_lem_example = get_max_pfn_lem map_of_two (omega arith)

-- Two structures of 24 bytes at 0x100, each with 20 in its size field.
abbrev boot_memory : Mem
boot_memory =
    store_bytes (store_bytes (λ a. 0) 0x100 24 (20 + 0x9fc00 * 2 ^ 96 + 1 * 2 ^ 160)) 0x118 24
      (20 + 0x1_0000_0000 * 2 ^ 32 + 0x10_0000 * 2 ^ 96 + 2 * 2 ^ 160)

abbrev info : MultibootInfo
info = record {
  flags = 0x40;
  mem_lower = 0;
  mem_upper = 0;
  boot_device = 0;
  cmdline = 0;
  mods_count = 0;
  mods_addr = 0;
  mmap_length = 48;
  mmap_addr = 0x100;
}

abbrev boot_state : State
boot_state = record { mem = boot_memory; nalloc = record { alloc_bitmap = 0; max_page = 0 } }

boot-Layout : Layout boot_memory 0x100 48 map_of_two
unfolding load32 load_bytes store_bytes store8
boot-Layout =
    more 20 24 (entry refl refl refl refl) refl
      (more 20 0 (entry refl refl refl refl) refl (none refl))

setup_memory_region_lem_example : setup_memory_region info boot_state ≡ (
    if bit_and 0x40 mbi_memmap == 0
    then fatal no_memory_information
    else parsed map_of_two boot_state)
setup_memory_region_lem_example =
    setup_memory_region_lem info boot_state (omega arith) map_of_two boot-Layout
