-- ===== src/Vm/Started.antt =====
-- What the guest sees of its memory when it is launched first.
use tvmm.Base.{ℕ, ◌+◌, ◌*◌, ◌/◌, ◌^◌, ◌≤◌, ◌<◌, ◌≡◌, refl, subst, ap, ◌∙◌, arith, some}
use tvmm.Base.Word.{w64, shr}
use tvmm.Kernel.{NaiveAllocator, State, Run}
use tvmm.Kernel.Laws.{Ends, and_then-Ends}
use tvmm.Alloc.{alloc_pages}
use tvmm.Alloc.FirstFit.{Outcome, allocated, exhausted, alloc_pages-Outcome}
use tvmm.Paging.Tables.{IsAddressable}
use tvmm.Elf.{load_elf_image}
use tvmm.Vm.Block.{alloc_vmcb, set_control_area, set_state_save_area, set_descriptors}
use tvmm.Vm.{Vm, alloc_vm_pmem, create_vm_pmem_mapping_table, finish_vm, vm_create}
use tvmm.Vm.Created.{
  IsBlank, IsControlled, alloc_vmcb-Ends, set_control_area-Ends, create_vm_pmem_mapping_table-Keeps,
  load_elf_image-Keeps,
}
use tvmm.Vm.GuestWalk.{guest_walk, create_temp_page_table-IsIdentity}

-- The machine's memory begins at `start`: there the guest finds the Multiboot information, and its
-- own page table maps its first 4 Mbytes to themselves.
abbrev pub IsStarted : Vm → State → Type 0
IsStarted vm s =
    (start : ℕ) × (vm.mbi ≡ w64 (start + 0x2d0e0))
    × ((v : ℕ) → v < 2 ^ 22 → guest_walk start s.mem vm.vmcb.cr3 v ≡ some v)

module _ (n : NaiveAllocator) (fits : IsAddressable n) where
  -- The guest's memory, in whole pages, lies at host addresses below 2^64.
  abbrev IsRoom : ℕ → ℕ → State → Type 0
  IsRoom size start s = (start + size / 4096 * 4096 ≤ 2 ^ 64) × (s.nalloc ≡ n)

  Outcome-Ends :
      (s : State) (nr align : ℕ) (r : Run ℕ)
      → s.nalloc ≡ n
      → Outcome s nr align r
      → Ends (λ pfn s'. (pfn + nr < n.max_page) × (s'.nalloc ≡ n)) r
  Outcome-Ends s nr align r same (allocated {pfn} fit) =
      (subst (λ t. pfn + nr < t.max_page) same fit.within, fit.same_allocator ∙ same)
  Outcome-Ends s nr align r same (exhausted none_left) = tt

  alloc_vm_pmem-IsRoom :
      (size : ℕ) (s : State)
      → size < 2 ^ 62
      → s.nalloc ≡ n
      → Ends (IsRoom size) (alloc_vm_pmem size s)
  unfolding alloc_vm_pmem
  alloc_vm_pmem-IsRoom size s short same =
      let bound : s.nalloc.max_page + 2 ^ 9 + size / 2 ^ 12 < 2 ^ 64 =
        omega (arith, fits, ap (λ x. x.max_page) same) in
      and_then-Ends (λ pfn s'. (pfn + size / 2 ^ 12 < n.max_page) × (s'.nalloc ≡ n)) (IsRoom size)
        (alloc_pages (shr size 12) (2 ^ 9) s) _
        (Outcome-Ends s (size / 2 ^ 12) (2 ^ 9) _ same
          (alloc_pages-Outcome s (size / 2 ^ 12) (2 ^ 9) (omega arith) bound))
        (λ pfn s1 (below, same1). (omega (arith, fits, below), same1))

  -- With every frame's address below 2^64, and a guest memory of 0x206000 bytes or more, and fewer
  -- than 2^62: `vm_create` stops with a failure, or returns a machine whose memory begins at an
  -- address from which, by the machine's cr3, the guest's own page table maps its first 4 Mbytes to
  -- themselves as the processor walks it, whatever the guest's image has put into that memory. The
  -- machine's Multiboot information is at offset 0x2d0e0 of the same memory.
  pub vm_create-IsStarted :
      (image image_size size : ℕ) (s : State)
      → 0x20_6000 ≤ size
      → size < 2 ^ 62
      → s.nalloc ≡ n
      → Ends IsStarted (vm_create image image_size size s)
  unfolding vm_create finish_vm set_state_save_area set_descriptors
  vm_create-IsStarted image image_size size s large short same =
      let small : n.max_page < 2 ^ 52 = omega (arith, fits) in
      and_then-Ends (IsBlank n) IsStarted (alloc_vmcb s) _ (alloc_vmcb-Ends n small s same)
        (λ block s1 (blank, same1).
          and_then-Ends (IsControlled n) IsStarted (set_control_area block.1 s1) _
            (set_control_area-Ends n small block.1 s1 blank same1)
            (λ vmcb s2 (tables, same2).
              and_then-Ends (IsRoom size) IsStarted (alloc_vm_pmem size s2) _
                (alloc_vm_pmem-IsRoom size s2 short same2)
                (λ start s3 (room, same3).
                  and_then-Ends (λ a s. s.nalloc ≡ n) IsStarted
                    (create_vm_pmem_mapping_table start size s3) _
                    (create_vm_pmem_mapping_table-Keeps n small start size s3 same3)
                    (λ cr3 s4 same4.
                      and_then-Ends (λ a s. s.nalloc ≡ n) IsStarted
                        (load_elf_image image image_size start s4) _
                        (load_elf_image-Keeps n small image image_size start s4 same4)
                        (λ rip s5 same5.
                          let walk =
                            create_temp_page_table-IsIdentity start 0x20_3000 (omega arith)
                              (omega arith) (omega (arith, room, large)) s5.mem in
                          (start, refl, walk.low_addrs))))))
