-- ===== src/Setup.antt =====
-- kernel/setup.c: from the boot loader's information to a running allocator. What is printed is
-- left out.
pub mod Stash
pub mod LowMap
pub mod Image
pub mod Writes
pub mod Room
mod Tests
use tvmm.Base.{
  ℕ, ◌+◌, ◌-◌, ◌*◌, ◌%◌, ◌^◌, bit_and, Bool, not, ◌&&◌, ◌||◌, ltb, leb, ◌==◌, ◌!=◌, if◌then◌else◌,
  List, [], ◌∷◌,
}
use tvmm.Base.Word.{w64, w32}
use tvmm.Page.{virt}
use tvmm.Memory.{Mem}
use tvmm.CString.{memmove}
use tvmm.Multiboot.{MultibootInfo, Module, read_module, mbi_modules}
use tvmm.E820.{E820Map, E820Entry, ram, setup_memory_region, get_nr_pages, get_max_pfn}
use tvmm.Alloc.{PmemLayout, naive_allocator_init}
use tvmm.Failure.{no_room_for_guest, no_guest_image}
use tvmm.Kernel.{State, Kernel, pure, fail, done, update_mem, ◌>>=◌, ◌>>◌}

pub record CmdlineOption : Type 0 where
  pub vmm_heap_size : ℕ
  pub vm_pmem_size : ℕ

-- DEFAULT_VMM_HEAP_SIZE and DEFAULT_VM_PMEM_SIZE of include/vmm.h: 4 MB each.
abbrev pub default_vmm_heap_size : ℕ
default_vmm_heap_size = 2 ^ 22

abbrev pub default_vm_pmem_size : ℕ
default_vm_pmem_size = 2 ^ 22

-- The command line is printed and not read.
unfoldable pub parse_cmdline : MultibootInfo → CmdlineOption
parse_cmdline mbi = record {
  vmm_heap_size = default_vmm_heap_size;
  vm_pmem_size = default_vm_pmem_size;
}

unfoldable pub has_guest_image : MultibootInfo → Bool
has_guest_image mbi = bit_and mbi.flags mbi_modules != 0 && ltb 0 mbi.mods_count

-- An `unsigned long` that is returned as an `int` and becomes an `unsigned long` again: the low 32
-- bits, with their sign.
unfoldable pub through_int : ℕ → ℕ
through_int x = if ltb (w32 x) (2 ^ 31) then w32 x else w32 x + (2 ^ 64 - 2 ^ 32)

unfoldable pub find_memory_region_for_saving_guest_image : E820Map → PmemLayout → ℕ → Kernel ℕ
find_memory_region_for_saving_guest_image [] pml len = fail no_room_for_guest
find_memory_region_for_saving_guest_image (p ∷ rest) pml len =
    let next = find_memory_region_for_saving_guest_image rest pml len in
    if p.type != ram || ltb p.size len
    then next
    else (if ltb p.addr pml.vmm_heap_end
          && ltb (w64 (pml.vmm_heap_end + len)) (w64 (p.addr + p.size))
        then pure (through_int pml.vmm_heap_end)
        else if leb pml.vmm_heap_end p.addr
        then pure (through_int p.addr)
        else next)

unfoldable pub copy_guest_image : MultibootInfo → E820Map → PmemLayout → Kernel PmemLayout
copy_guest_image mbi e820 pml s =
    let modl = read_module s.mem (virt mbi.mods_addr) in
    let size = w32 (modl.mod_end + 2 ^ 32 - modl.mod_start) in
    let copy = do
      start ← find_memory_region_for_saving_guest_image e820 pml size
      update_mem (λ m. memmove m (virt start) (virt modl.mod_start) size)
      pure (record pml { guest_image_start = start; guest_image_size = size })
    in if not (has_guest_image mbi) then fail no_guest_image s else copy s

-- `setup_arch` up to the processor's identification. `pml` is the caller's layout, whose fields
-- are all assigned on the way.
unfoldable pub setup_arch_memory :
    ℕ → MultibootInfo → CmdlineOption → PmemLayout → Kernel PmemLayout
setup_arch_memory end_symbol mbi opt pml = do
  e820 ← setup_memory_region mbi
  pml' ← copy_guest_image mbi e820 (record pml {
    total_pages = get_nr_pages e820;
    max_page = get_max_pfn e820;
    vmm_heap_end = opt.vmm_heap_size;
  })
  naive_allocator_init end_symbol e820 pml'
