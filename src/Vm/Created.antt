-- ===== src/Vm/Created.antt =====
-- `vm_create` ends, and the control block that it leaves is legal.
use tvmm.Base.{ℕ, ◌*◌, ◌^◌, ◌<◌, ◌≡◌, refl, ap, ◌∙◌, sym, subst, arith}
use tvmm.Base.Bits.{testbit}
use tvmm.Base.Word.{shr}
use tvmm.Page.{phys}
use tvmm.Kernel.{NaiveAllocator, State, Kernel, and_then, pure}
use tvmm.Failure.{out_of_pages}
use tvmm.Vm.Nested.{create_vm_pmem_mapping_table-Allocates}
use tvmm.Kernel.Laws.{EndsOr-Ends, Ends, Keeps, and_then-Ends, and_then-Keeps}
use tvmm.Alloc.{alloc_pages}
use tvmm.Paging.Bounds.{alloc_pages-Keeps}
use tvmm.Elf.{load_elf_image}
use tvmm.Elf.Bounds.{load_elf_image-ends}
use tvmm.Vmcb.{Vmcb}
use tvmm.Vmcb.Legal.{IsLegal, legal-consistent}
use tvmm.Vm.{
  vm_boot, stop_unless_consistent, Vm, vm_create, vm_boot, alloc_vm_pmem, stop_unless_consistent,
  create_vm_pmem_mapping_table, finish_vm,
}
use tvmm.Vm.Block.{
  with_tables, alloc_vmcb, create_intercept_table, zero_vmcb, set_control_area, set_state_save_area,
  set_descriptors, code_descriptor,
}

finish_vm-IsLegal :
    (iopm msrpm addr start cr3 rip : ℕ)
    → IsLegal
        (finish_vm addr (set_state_save_area (with_tables iopm msrpm zero_vmcb)) start cr3 rip).vmcb
unfolding finish_vm set_state_save_area set_descriptors code_descriptor testbit
finish_vm-IsLegal iopm msrpm addr start cr3 rip = record {
  svme = refl;
  caching = refl;
  cr0_high = omega arith;
  cr4_high = omega arith;
  dr6_high = omega arith;
  dr7_high = omega arith;
  efer_high = omega arith;
  pae = refl;
  pe = refl;
  code_segment = refl;
  vmrun = refl;
}

-- What is known of a control block with its control area set.
abbrev pub IsControlled : NaiveAllocator → Vmcb → State → Type 0
IsControlled n v s =
    ((iopm : ℕ) × (msrpm : ℕ) × (v ≡ with_tables iopm msrpm zero_vmcb)) × (s.nalloc ≡ n)

abbrev pub IsBlank : NaiveAllocator → ℕ × Vmcb → State → Type 0
IsBlank n block s = (block.1 ≡ zero_vmcb) × (s.nalloc ≡ n)

-- What is known of a new machine.
pub record IsCreated (n : NaiveAllocator) (vm : Vm) (s : State) : Type 0 where
  pub legal : IsLegal vm.vmcb
  pub nested_table : vm.vmcb.h_cr3 ≡ vm.h_cr3
  pub same_allocator : s.nalloc ≡ n

pub finish_vm-IsCreated :
    (n : NaiveAllocator) (addr start cr3 rip iopm msrpm : ℕ) {vmcb : Vmcb} {s : State}
    → vmcb ≡ with_tables iopm msrpm zero_vmcb
    → s.nalloc ≡ n
    → IsCreated n (finish_vm addr (set_state_save_area vmcb) start cr3 rip) s
unfolding finish_vm
finish_vm-IsCreated n addr start cr3 rip iopm msrpm filled same = record {
  legal =
      subst (λ v. IsLegal (finish_vm addr (set_state_save_area v) start cr3 rip).vmcb) (sym filled)
        (finish_vm-IsLegal iopm msrpm addr start cr3 rip);
  nested_table = refl;
  same_allocator = same;
}

module _ (n : NaiveAllocator) (small : n.max_page < 2 ^ 52) where
  pub alloc_vmcb-Ends : (s : State) → s.nalloc ≡ n → Ends (IsBlank n) (alloc_vmcb s)
  unfolding alloc_vmcb
  alloc_vmcb-Ends s same =
      and_then-Ends (λ a s. s.nalloc ≡ n) (IsBlank n) (alloc_pages 1 1 s) _
        (alloc_pages-Keeps n small s 1 1 same (omega arith) (omega arith) (omega arith))
        (λ pfn s1 same1. (refl, same1))

  create_intercept_table-Keeps :
      (size : ℕ) (s : State)
      → size < 2 ^ 64
      → s.nalloc ≡ n
      → Keeps n (create_intercept_table size s)
  unfolding create_intercept_table
  create_intercept_table-Keeps size s short same =
      and_then-Keeps n (alloc_pages (shr size 12) 1 s) _
        (alloc_pages-Keeps n small s (shr size 12) 1 same (omega arith) (omega arith) (omega arith))
        (λ pfn s1 same1. same1)

  pub set_control_area-Ends :
      (v : Vmcb) (s : State)
      → v ≡ zero_vmcb
      → s.nalloc ≡ n
      → Ends (IsControlled n) (set_control_area v s)
  unfolding set_control_area
  set_control_area-Ends v s blank same =
      and_then-Ends (λ a s. s.nalloc ≡ n) (IsControlled n) (create_intercept_table (12 * 2 ^ 10) s)
        _ (create_intercept_table-Keeps (12 * 2 ^ 10) s (omega arith) same)
        (λ iopm s1 same1.
          and_then-Ends (λ a s. s.nalloc ≡ n) (IsControlled n)
            (create_intercept_table (8 * 2 ^ 10) s1) _
            (create_intercept_table-Keeps (8 * 2 ^ 10) s1 (omega arith) same1)
            (λ msrpm s2 same2. ((iopm, msrpm, ap (with_tables iopm msrpm) blank), same2)))

  alloc_vm_pmem-Keeps :
      (size : ℕ) (s : State) → size < 2 ^ 64 → s.nalloc ≡ n → Keeps n (alloc_vm_pmem size s)
  unfolding alloc_vm_pmem
  alloc_vm_pmem-Keeps size s short same =
      and_then-Keeps n (alloc_pages (shr size 12) (2 ^ 9) s) _
        (alloc_pages-Keeps n small s (shr size 12) (2 ^ 9) same (omega arith) (omega arith)
          (omega arith))
        (λ pfn s1 same1. same1)

  pub create_vm_pmem_mapping_table-Keeps :
      (start size : ℕ) (s : State)
      → s.nalloc ≡ n
      → Keeps n (create_vm_pmem_mapping_table start size s)
  create_vm_pmem_mapping_table-Keeps start size s same =
      EndsOr-Ends out_of_pages (λ a s'. s'.nalloc ≡ n) (create_vm_pmem_mapping_table start size s)
        (create_vm_pmem_mapping_table-Allocates n small s start size same)

  pub load_elf_image-Keeps :
      (image size start : ℕ) (s : State)
      → s.nalloc ≡ n
      → Keeps n (load_elf_image image size start s)
  load_elf_image-Keeps image size start s same =
      let (s', e, kept) = load_elf_image-ends image size start s in rw e (kept ∙ same)

  -- With fewer than 2^52 page frames and a size below 2^64, `vm_create` ends: it stops with a
  -- failure, or returns a machine whose control block is legal and holds the base of the
  -- machine's nested page table. The allocator's variables are as before.
  pub vm_create-IsCreated :
      (image image_size size : ℕ) (s : State)
      → size < 2 ^ 64
      → s.nalloc ≡ n
      → Ends (IsCreated n) (vm_create image image_size size s)
  unfolding vm_create
  vm_create-IsCreated image image_size size s short same =
      and_then-Ends (IsBlank n) (IsCreated n) (alloc_vmcb s) _ (alloc_vmcb-Ends s same)
        (λ block s1 (blank, same1).
          and_then-Ends (IsControlled n) (IsCreated n) (set_control_area block.1 s1) _
            (set_control_area-Ends block.1 s1 blank same1)
            (λ vmcb s2 ((iopm, msrpm, filled), same2).
              and_then-Ends (λ a s. s.nalloc ≡ n) (IsCreated n) (alloc_vm_pmem size s2) _
                (alloc_vm_pmem-Keeps size s2 short same2)
                (λ start s3 same3.
                  and_then-Ends (λ a s. s.nalloc ≡ n) (IsCreated n)
                    (create_vm_pmem_mapping_table start size s3) _
                    (create_vm_pmem_mapping_table-Keeps start size s3 same3)
                    (λ cr3 s4 same4.
                      and_then-Ends (λ a s. s.nalloc ≡ n) (IsCreated n)
                        (load_elf_image image image_size start s4) _
                        (load_elf_image-Keeps image image_size start s4 same4)
                        (λ rip s5 same5.
                          finish_vm-IsCreated n block.0 start cr3 rip iopm msrpm filled same5)))))

-- A machine that `vm_create` returned is launched by `vm_boot`: the consistency check does not
-- stop it. What the processor leaves in the control block is the result.
pub vm_boot-launches :
    (svm_launch : ℕ → Vmcb → Kernel Vmcb) {n : NaiveAllocator} {vm : Vm} {s0 : State} (s : State)
    → IsCreated n vm s0
    → vm_boot svm_launch vm s
      ≡ and_then
          (svm_launch (phys vm.vmcb_addr) vm.vmcb s)
          (λ vmcb. pure (record vm { vmcb = vmcb }))
unfolding vm_boot stop_unless_consistent
vm_boot-launches svm_launch {n} {vm} s c = rw (legal-consistent vm.vmcb c.legal) refl
