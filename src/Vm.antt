-- ===== src/Vm.antt =====
-- include/vm.h and kernel/vm.c: a virtual machine's control block, its memory, and the page table
-- that maps the one to the other. The control block is kept as a record beside the memory; the
-- page that `alloc_vmcb` takes for it is cleared and is otherwise not written.
pub mod Block
pub mod Created
pub mod Nested
pub mod GuestTable
pub mod GuestWalk
pub mod Started
pub mod Prepared
pub mod Runnable
pub mod Returned
mod Tests
mod ImageTests
use tvmm.Base.{Bool, ◌-◌, ℕ, zero, suc, ◌+◌, ◌*◌, ◌^◌, true, ◌==◌, bit_or, if◌then◌else◌}
use tvmm.Base.Word.{w64, w32, shl64, shr, sign_extend}
use tvmm.Memory.{Mem, load64, store64}
use tvmm.CString.{memset}
use tvmm.Page.{
  page_shift, page_size, page_shift_2mb, pfn_up_2mb, pfn_down_2mb, present_flag, rw_flag,
  page_size_flag, virt, phys,
}
use tvmm.Kernel.{State, Run, Kernel, done, pure, fail, update_mem, ◌>>=◌, ◌>>◌}
use tvmm.Failure.{inconsistent_vmcb}
use tvmm.Alloc.{alloc_pages}
use tvmm.Paging.{
  pml4_table_create, mmap, set_non_term_base, set_non_term_flags, set_term_base, set_term_flags,
}
use tvmm.Elf.{load_elf_image}
use tvmm.Vmcb.{Vmcb, Verdict, consistent, failed, vmcb_check_consistency}
use tvmm.Vm.Block.{alloc_vmcb, set_control_area, set_state_save_area}

-- `struct vm`, with the control block and its address.
pub record Vm : Type 0 where
  pub vmcb : Vmcb
  pub vmcb_addr : ℕ
  pub h_cr3 : ℕ
  pub mbi : ℕ

unfoldable pub alloc_vm_pmem : ℕ → Kernel ℕ
alloc_vm_pmem size = do
  pfn ← alloc_pages (shr size page_shift) (2 ^ (page_shift_2mb - page_shift))
  pure (virt (shl64 pfn page_shift))

abbrev install_paddr : ℕ
install_paddr = 0x2d0e0

abbrev pub init_vm_mbi : ℕ → ℕ
init_vm_mbi vm_pmem_start = w64 (vm_pmem_start + install_paddr)

abbrev pub is_reserved_pmem : ℕ → Bool
is_reserved_pmem pfn = pfn == 0

-- The two addresses of a round. `i << PAGE_SHIFT_2MB` is a shift of an `int`.
unfoldable pub vm_paddr : ℕ → ℕ
vm_paddr i = sign_extend (w32 (i * 2 ^ page_shift_2mb))

unfoldable pub pm_paddr : ℕ → ℕ → ℕ
pm_paddr vm_pmem_pfn i =
    let pm_pfn = w64 (i + (if is_reserved_pmem i then 0 else vm_pmem_pfn)) in
    shl64 pm_pfn page_shift_2mb

-- The loop from page `i`, with the rounds left.
unfoldable pub map_pages : ℕ → ℕ → ℕ → ℕ → Kernel (Unit {0})
map_pages pml4 vm_pmem_pfn zero i = pure tt
map_pages pml4 vm_pmem_pfn (suc left) i =
    mmap pml4 (vm_paddr i) (pm_paddr vm_pmem_pfn i) true >> map_pages pml4 vm_pmem_pfn left (i + 1)

unfoldable pub create_vm_pmem_mapping_table : ℕ → ℕ → Kernel ℕ
create_vm_pmem_mapping_table vm_pmem_start vm_pmem_size = do
  cr3 ← pml4_table_create
  let vm_pmem_pfn = pfn_down_2mb (phys vm_pmem_start)
  map_pages (virt cr3) vm_pmem_pfn (pfn_up_2mb vm_pmem_size) 0
  pure cr3

-- Assignments to the base and the flags of an entry in memory.
abbrev set_non_term : ℕ → ℕ → ℕ → Mem → Mem
set_non_term base flags e m =
    store64 m e (set_non_term_flags flags (set_non_term_base base (load64 m e)))

abbrev set_term : ℕ → ℕ → ℕ → Mem → Mem
set_term base flags e m = store64 m e (set_term_flags flags (set_term_base base (load64 m e)))

unfoldable pub create_temp_page_table : ℕ → ℕ → Mem → Mem
create_temp_page_table vm_pmem_start cr3 m =
    let base = w64 (vm_pmem_start + cr3) in
    let at = λ (offset : ℕ). w64 (base + offset) in
    let m1 = memset m base 0 page_size in
    let m2 = memset m1 (at page_size) 0 page_size in
    let m3 = memset m2 (at (page_size * 2)) 0 page_size in
    let m4 = set_non_term (shr (cr3 + page_size) page_shift) (present_flag + rw_flag) base m3 in
    let m5 =
      set_non_term (shr (cr3 + page_size * 2) page_shift) (present_flag + rw_flag) (at page_size)
        m4 in
    let m6 = set_term 0 (present_flag + rw_flag + page_size_flag) (at (page_size * 2)) m5 in
    set_term 1 (present_flag + rw_flag + page_size_flag) (at (page_size * 2 + 8)) m6

-- The machine at the end of `vm_create`.
unfoldable pub finish_vm : ℕ → Vmcb → ℕ → ℕ → ℕ → Vm
finish_vm vmcb_addr vmcb vm_pmem_start cr3 rip = record {
  vmcb = record vmcb {
    control = record vmcb.control { h_cr3 = cr3 };
    save = record vmcb.save { rip = rip };
  };
  vmcb_addr = vmcb_addr;
  h_cr3 = cr3;
  mbi = init_vm_mbi vm_pmem_start;
}

unfoldable pub vm_create : ℕ → ℕ → ℕ → Kernel Vm
vm_create guest_image_start guest_image_size vm_pmem_size = do
  (vmcb_addr, blank) ← alloc_vmcb
  controlled ← set_control_area blank
  let vmcb = set_state_save_area controlled
  vm_pmem_start ← alloc_vm_pmem vm_pmem_size
  cr3 ← create_vm_pmem_mapping_table vm_pmem_start vm_pmem_size
  rip ← load_elf_image guest_image_start guest_image_size vm_pmem_start
  update_mem (create_temp_page_table vm_pmem_start vmcb.cr3)
  pure (finish_vm vmcb_addr vmcb vm_pmem_start cr3 rip)

-- What `vmcb_check_consistency` does to the machine.
unfoldable pub stop_unless_consistent : Verdict → Kernel (Unit {0})
stop_unless_consistent consistent = pure tt
stop_unless_consistent (failed c) = fail inconsistent_vmcb

-- `svm_launch` runs the guest until it exits; it is written in assembly and the processor's work.
-- The loop is left after one round.
unfoldable pub vm_boot : (ℕ → Vmcb → Kernel Vmcb) → Vm → Kernel Vm
vm_boot svm_launch vm =
    stop_unless_consistent (vmcb_check_consistency vm.vmcb)
    >> (svm_launch (phys vm.vmcb_addr) vm.vmcb >>= λ vmcb. pure (record vm { vmcb = vmcb }))
