-- ===== src/Vm/Runnable.antt =====
-- `vm_create` as a whole: what the guest finds in its memory, as the processor translates it.
use tvmm.Base.{
  ℕ, ◌+◌, ◌*◌, ◌/◌, ◌%◌, ◌^◌, ◌≤◌, ◌<◌, ◌≡◌, ◌⊎◌, inl, inr, refl, sym, ap, ◌∙◌, arith, false, ◌==◌,
  some, ltb, Bool-cases,
}
use tvmm.Memory.{Mem, byte}
use tvmm.Page.{virt, phys, pfn_down_2mb}
use tvmm.Kernel.{NaiveAllocator, State}
use tvmm.Kernel.Laws.{Ends, Ends-map, and_then-Ends}
use tvmm.Paging.{vaddr_to_paddr}
use tvmm.Paging.Tables.{IsAddressable, IsMapped, IsFar}
use tvmm.Paging.Protect.{Protects, Protects-trans}
use tvmm.Paging.Aside.{IsIdle, IsAside, frame_of, range-IsAside, Aside-Stays}
use tvmm.Elf.{e_entry, e_phnum, load_elf_image}
use tvmm.Elf.Image.{HasImage}
use tvmm.Elf.Loadable.{IsLoadable, IsFilled, image_byte, load_elf_image-IsFilled}
use tvmm.Vm.Block.{alloc_vmcb, set_control_area, set_state_save_area, set_descriptors}
use tvmm.Vm.{
  Vm, alloc_vm_pmem, create_vm_pmem_mapping_table, create_temp_page_table, finish_vm, vm_create,
}
use tvmm.Vm.Nested.{host_addr, IsNested, HasNested, create_vm_pmem_mapping_table-HasNested}
use tvmm.Vm.GuestWalk.{guest_walk, create_temp_page_table-IsIdentity, IsIdentity}
use tvmm.Vm.Prepared.{
  IsAfter, IsAfter-trans, HasMemory, start_page, pages_fit, HasMemory-after, alloc_vmcb-IsAfter,
  set_control_area-IsAfter, alloc_vm_pmem-HasMemory,
}

-- The memory of `size` bytes that the guest finds. Its page table maps its first 4 Mbytes to
-- themselves; the machine's page table maps its addresses to the host's; and there, from 2 Mbytes
-- on and outside the guest's page table, are the segments of the image that `m` holds.
pub record IsRunnable (m : Mem) (image size : ℕ) (vm : Vm) (s : State) : Type 0 where
  pub start : ℕ
  pub table : vm.vmcb.h_cr3 ≡ vm.h_cr3
  pub nested : IsNested start size vm.h_cr3 s
  pub identity : (v : ℕ) → v < 2 ^ 22 → guest_walk start s.mem vm.vmcb.cr3 v ≡ some v
  pub contents :
      (a b : ℕ)
      → 2 ^ 21 ≤ a
      → a < size / 4096 * 4096
      → (a < 0x20_3000) ⊎ (0x20_6000 ≤ a)
      → image_byte m image (e_phnum m image) a ≡ some b
      → byte s.mem (virt (host_addr (pfn_down_2mb (phys start)) a)) ≡ b
  pub entry_point : vm.vmcb.rip ≡ e_entry m image

module _ (n : NaiveAllocator) (low : n.max_page ≤ 2 ^ 19) (role0 : ℕ → ℕ) (s0 : State)
    (image image_size size : ℕ) (large : 0x20_6000 ≤ size) (short : size < 2 ^ 62)
    (loadable : IsLoadable s0.mem image image_size (size / 4096 * 4096))
    (idle : IsIdle n role0 s0 image (image + image_size)) where
  fits : IsAddressable n
  fits = omega arith

  abbrev IsFarSame : State → Type 0
  IsFarSame s' = (x : ℕ) → IsFar n x → byte s'.mem x ≡ byte s0.mem x

  module _ (start : ℕ) (s3 : State) (memory : HasMemory n role0 s0 size start s3) where
    module _ (cr3 : ℕ) (s4 : State) (has : HasNested n memory.after.role s3 start size cr3 s4) where
      protects : Protects n role0 s0 has.role s4
      protects = Protects-trans n role0 s0 memory.after.protects has.protects

      data_frame : (f : ℕ) → memory.pfn ≤ f → f < memory.pfn + size / 4096 → has.role f ≡ 1
      data_frame f lo hi =
          let one = memory.given f lo hi in has.protects.levels f (omega (arith, one)) ∙ one

      -- The image is as it was, and is not in the guest's memory.
      image_kept : HasImage s0.mem image image_size start s4.mem
      image_kept x lo hi =
          let (off, above, unused) = idle x lo hi in
          protects.bytes (frame_of x) x unused above (omega arith) (omega arith)

      outside_memory :
          (x : ℕ)
          → image ≤ x
          → x < image + image_size
          → (x < start) ⊎ (start + size / 4096 * 4096 ≤ x)
      outside_memory x lo hi = elim (Bool-cases (ltb x start)) [
        | inl before ↦ inl (ground (arith, before))
        | inr above ↦ elim (Bool-cases (ltb x (start + size / 4096 * 4096))) [
          | inr behind ↦ inr (ground (arith, behind))
          | inl inside ↦
              let (off, far, unused) = idle x lo hi in
              let none_there = (protects.idle (frame_of x) unused).0 in
              let from : start ≤ x = ground (arith, above) in
              let to : x < start + size / 4096 * 4096 = ground (arith, inside) in
              let one =
                data_frame (frame_of x) (omega (arith, memory.at)) (omega (arith, memory.at)) in
              absurd (omega (arith, one, none_there))
        ]
      ]

      apart : (start + size / 4096 * 4096 ≤ image) ⊎ (image + image_size ≤ start)
      apart = elim (Bool-cases (ltb image start)) [
        | inr above ↦
            let behind = outside_memory image (omega arith) (omega (arith, loadable.header)) in
            inl (ground (arith, above, behind))
        | inl before ↦ elim (Bool-cases (ltb start (image + image_size))) [
          | inr clear ↦ inr (ground (arith, clear))
          | inl covers ↦
              let inside = outside_memory start (ground (arith, before)) (ground (arith, covers)) in
              absurd (omega (arith, inside, large))
        ]
      ]

      filled :
          Ends
            (λ rip s5.
              (rip ≡ e_entry s0.mem image)
              × IsFilled s0.mem image image_size start (size / 4096 * 4096) s4 s5)
            (load_elf_image image image_size start s4)
      filled =
          load_elf_image-IsFilled s0.mem image image_size start (size / 4096 * 4096) s4 loadable
            (omega (arith, memory.at, memory.within)) apart image_kept

      module _ (s5 : State)
          (full : IsFilled s0.mem image image_size start (size / 4096 * 4096) s4 s5) where
        abbrev last : State
        last = record s5 { mem = create_temp_page_table start 0x20_3000 s5.mem }

        walk : IsIdentity start 0x20_3000 s5.mem last.mem
        walk =
            create_temp_page_table-IsIdentity start 0x20_3000 (omega arith) (omega arith)
              (omega (arith, memory.at, memory.within, large)) s5.mem

        aside : IsAside n has.role s4 last
        aside =
            range-IsAside n has.role s4 last memory.pfn (size / 4096)
              (full.same_allocator ∙ has.mapped.same) data_frame
              (λ x out.
                ap (λ v. v % 256) (walk.rest x (omega (arith, memory.at, out, large)))
                ∙ full.outside x (omega (arith, memory.at, out)))

        last_far : IsFarSame last
        last_far x off =
            let one = data_frame memory.pfn (omega arith) (omega (arith, large)) in
            let above = has.mapped.tables_above memory.pfn (omega (arith, one)) in
            let within = memory.within in
            ap (λ v. v % 256) (walk.rest x (omega (arith, memory.at, off, large, above, within)))
            ∙ full.outside x (omega (arith, memory.at, off, above, within))
            ∙ protects.far x off

        last-IsNested : IsNested start size cr3 last
        unfolding vaddr_to_paddr
        last-IsNested a below =
            ap (λ t. vaddr_to_paddr t a last) has.address
            ∙ Aside-Stays n has.role s4 last has.mapped aside fits a has.root has.root_level _
                (ap (λ t. vaddr_to_paddr t a s4) (sym has.address) ∙ has.nested a below)

        last_contents :
            (a b : ℕ)
            → 2 ^ 21 ≤ a
            → a < size / 4096 * 4096
            → (a < 0x20_3000) ⊎ (0x20_6000 ≤ a)
            → image_byte s0.mem image (e_phnum s0.mem image) a ≡ some b
            → byte last.mem (virt (host_addr (pfn_down_2mb (phys start)) a)) ≡ b
        last_contents a b high inside off e =
            let at : virt (host_addr (pfn_down_2mb (phys start)) a) ≡ start + a =
              let beyond : (a / 2 ^ 21 == 0) ≡ false = ground arith in
              rw beyond (
                omega (
                  arith,
                  start_page n low size start s3 memory,
                  memory.at,
                  memory.aligned,
                  memory.within,
                )) in
            ap (byte last.mem) at
            ∙ ap (λ v. v % 256) (walk.rest (start + a) (omega (arith, off)))
            ∙ full.contents a b e

  -- With it: the bytes in no frame and not in the bitmap are as before.
  pub vm_create-Prepared :
      IsMapped n role0 s0
      → Ends
          (λ vm s'. IsRunnable s0.mem image size vm s' × IsFarSame s')
          (vm_create image image_size size s0)
  unfolding vm_create finish_vm set_state_save_area set_descriptors
  vm_create-Prepared ok =
      let Result : Vm → State → Type 0 =
        λ vm s'. IsRunnable s0.mem image size vm s' × IsFarSame s' in
      and_then-Ends (λ block s1. IsAfter n role0 s0 s1) Result (alloc_vmcb s0) _
        (alloc_vmcb-IsAfter n fits role0 s0 ok)
        (λ block s1 first.
          and_then-Ends (λ v s2. IsAfter n first.role s1 s2) Result (set_control_area block.1 s1) _
            (set_control_area-IsAfter n fits first.role s1 block.1 first.mapped)
            (λ vmcb s2 second.
              let before = IsAfter-trans n first second in
              and_then-Ends (HasMemory n before.role s2 size) Result (alloc_vm_pmem size s2) _
                (alloc_vm_pmem-HasMemory n fits before.role s2 before.mapped size short)
                (λ start s3 here.
                  let memory = HasMemory-after n size start before here in
                  and_then-Ends (HasNested n memory.after.role s3 start size) Result
                    (create_vm_pmem_mapping_table start size s3) _
                    (create_vm_pmem_mapping_table-HasNested n fits (omega arith) memory.after.role
                      s3 start size memory.after.mapped (pages_fit n low size start s3 memory))
                    (λ cr3 s4 has.
                      and_then-Ends
                        (λ rip s5.
                          (rip ≡ e_entry s0.mem image)
                          × IsFilled s0.mem image image_size start (size / 4096 * 4096) s4 s5)
                        Result (load_elf_image image image_size start s4) _
                        (filled start s3 memory cr3 s4 has)
                        (λ rip s5 (entry, full). (
                          record {
                            start = start;
                            table = refl;
                            nested = last-IsNested start s3 memory cr3 s4 has s5 full;
                            identity = (walk start s3 memory cr3 s4 has s5 full).low_addrs;
                            contents = last_contents start s3 memory cr3 s4 has s5 full;
                            entry_point = entry;
                          },
                          last_far start s3 memory cr3 s4 has s5 full,
                        ))))))

  -- If the page tables are well formed, there are at most 2^19 frames, the guest is given 0x206000
  -- bytes or more and fewer than 2^62, and its image, whose headers and segments lie in it and in
  -- that memory, lies behind the bitmap in frames that are neither in use nor free: `vm_create`
  -- stops with a failure, or returns a machine whose memory is ready. Through the machine's page
  -- table each of its addresses is one of the host's, the guest's own page table maps its first 4
  -- Mbytes to themselves, the bytes of the image are at their addresses from 2 Mbytes on, outside
  -- the three frames from 0x203000 on, and execution begins at the image's entry point.
  pub vm_create-IsRunnable :
      IsMapped n role0 s0 → Ends (IsRunnable s0.mem image size) (vm_create image image_size size s0)
  vm_create-IsRunnable ok =
      Ends-map (λ vm s'. IsRunnable s0.mem image size vm s' × IsFarSame s')
        (IsRunnable s0.mem image size) (vm_create image image_size size s0) (vm_create-Prepared ok)
        (λ vm s' both. both.0)
