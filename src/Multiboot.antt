-- ===== src/Multiboot.antt =====
-- include/multiboot.h: what the boot loader hands over. The union of symbol tables, which no
-- code reads, is left out.
use tvmm.Base.{ℕ, ◌+◌, ◌^◌}
use tvmm.Memory.{Mem, load32}

abbrev pub mbi_cmdline : ℕ
mbi_cmdline = 2 ^ 2

abbrev pub mbi_modules : ℕ
mbi_modules = 2 ^ 3

abbrev pub mbi_memmap : ℕ
mbi_memmap = 2 ^ 6

pub record MultibootInfo : Type 0 where
  pub flags : ℕ
  pub mem_lower : ℕ
  pub mem_upper : ℕ
  pub boot_device : ℕ
  pub cmdline : ℕ
  pub mods_count : ℕ
  pub mods_addr : ℕ
  pub mmap_length : ℕ
  pub mmap_addr : ℕ

pub record MemoryMap : Type 0 where
  pub size : ℕ
  pub base_addr_low : ℕ
  pub base_addr_high : ℕ
  pub length_low : ℕ
  pub length_high : ℕ
  pub type : ℕ

-- `* ( struct memory_map * ) p`: six words of 32 bits.
unfoldable pub read_memory_map : Mem → ℕ → MemoryMap
read_memory_map m p = record {
  size = load32 m p;
  base_addr_low = load32 m (p + 4);
  base_addr_high = load32 m (p + 8);
  length_low = load32 m (p + 12);
  length_high = load32 m (p + 16);
  type = load32 m (p + 20);
}

pub record Module : Type 0 where
  pub mod_start : ℕ
  pub mod_end : ℕ
  pub string : ℕ
  pub reserved : ℕ

unfoldable pub read_module : Mem → ℕ → Module
read_module m p = record {
  mod_start = load32 m p;
  mod_end = load32 m (p + 4);
  string = load32 m (p + 8);
  reserved = load32 m (p + 12);
}
