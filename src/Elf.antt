-- ===== src/Elf.antt =====
-- include/elf.h and kernel/elf.c: the loader of a 32-bit ELF image. Headers are read from memory
-- at each use, as the source's pointers do.
pub mod Bounds
pub mod Segment
pub mod Image
pub mod Loadable
pub mod Moved
pub mod Sample
mod Tests
use tvmm.Base.{
  ℕ, zero, suc, ◌+◌, ◌-◌, ◌*◌, ◌%◌, ◌^◌, Bool, true, false, not, ◌&&◌, ◌==◌, ◌!=◌, ltb, bit_and,
  if◌then◌else◌,
}
use tvmm.Base.Word.{w64, w32, sign_extend}
use tvmm.Memory.{Mem, load16, load32}
use tvmm.Kernel.{State, Kernel, done, out_of_fuel, ◌>>◌}
use tvmm.CString.{memset, memmove}

abbrev pub pt_load : ℕ
pt_load = 1

abbrev pub pf_x : ℕ
pf_x = 0x1

abbrev pub pf_w : ℕ
pf_w = 0x2

-- The fields of `struct Elf32_Ehdr` that the loader reads.
abbrev pub e_entry : Mem → ℕ → ℕ
e_entry m ehdr = load32 m (ehdr + 24)

abbrev pub e_phoff : Mem → ℕ → ℕ
e_phoff m ehdr = load32 m (ehdr + 28)

abbrev pub e_phentsize : Mem → ℕ → ℕ
e_phentsize m ehdr = load16 m (ehdr + 42)

abbrev pub e_phnum : Mem → ℕ → ℕ
e_phnum m ehdr = load16 m (ehdr + 44)

-- `struct Elf32_Phdr`.
pub record Phdr : Type 0 where
  pub p_type : ℕ
  pub p_offset : ℕ
  pub p_vaddr : ℕ
  pub p_paddr : ℕ
  pub p_filesz : ℕ
  pub p_memsz : ℕ
  pub p_flags : ℕ
  pub p_align : ℕ

unfoldable pub phdr_at : Mem → ℕ → Phdr
phdr_at m a = record {
  p_type = load32 m a;
  p_offset = load32 m (a + 4);
  p_vaddr = load32 m (a + 8);
  p_paddr = load32 m (a + 12);
  p_filesz = load32 m (a + 16);
  p_memsz = load32 m (a + 20);
  p_flags = load32 m (a + 24);
  p_align = load32 m (a + 28);
}

unfoldable pub is_loadable_phdr : Phdr → Bool
is_loadable_phdr phdr = phdr.p_type == pt_load && bit_and phdr.p_flags (pf_w + pf_x) != 0

-- `i * ehdr->e_phentsize` is a product of two `int`s.
unfoldable pub get_elf_phdr : Mem → ℕ → ℕ → ℕ
get_elf_phdr m ehdr i = w64 (ehdr + e_phoff m ehdr + sign_extend (w32 (i * e_phentsize m ehdr)))

-- The body of the loop for a loadable segment. `len` is a difference of two `u32`s.
unfoldable pub load_segment : ℕ → ℕ → Phdr → Mem → Mem
load_segment ehdr vm_pmem_start phdr m =
    let dest = w64 (vm_pmem_start + phdr.p_paddr) in
    let m1 =
      if ltb 0 phdr.p_filesz
      then memmove m dest (w64 (ehdr + phdr.p_offset)) phdr.p_filesz
      else m in
    let len = w32 (phdr.p_memsz + 2 ^ 32 - phdr.p_filesz) in
    if ltb 0 len then memset m1 (w64 (dest + phdr.p_filesz)) 0 len else m1

unfoldable pub load_one : ℕ → ℕ → ℕ → Mem → Mem
load_one ehdr vm_pmem_start i m =
    let phdr = phdr_at m (get_elf_phdr m ehdr i) in
    if not (is_loadable_phdr phdr) then m else load_segment ehdr vm_pmem_start phdr m

-- The loop from index `i`, which reads `e_phnum` again before each round.
unfoldable pub load_loop : ℕ → ℕ → ℕ → ℕ → Kernel (Unit {0})
load_loop zero ehdr vm_pmem_start i s = out_of_fuel
load_loop (suc fuel) ehdr vm_pmem_start i s =
    let s' : State = record s { mem = load_one ehdr vm_pmem_start i s.mem } in
    let rest = load_loop fuel ehdr vm_pmem_start (i + 1) s' in
    if ltb i (e_phnum s.mem ehdr) then rest else done tt s

-- `e_phnum` has 16 bits, so at most `2 ^ 16` rounds are made. The image's size is not read.
unfoldable pub load_elf_image : ℕ → ℕ → ℕ → Kernel ℕ
load_elf_image guest_image_start guest_image_size vm_pmem_start =
    load_loop (2 ^ 16) guest_image_start vm_pmem_start 0 >> λ s.
    done (e_entry s.mem guest_image_start) s
