-- ===== src/Setup/Writes.antt =====
-- kernel/setup.c: where the set-up of the memory writes, against the kernel's place and the first
-- 1 GB, which is what boot.S maps.
use tvmm.Base.{
  ℕ, ◌+◌, ◌-◌, ◌*◌, ◌/◌, ◌^◌, ◌≤◌, ◌<◌, ◌≡◌, ◌⊎◌, refl, ap, ◌∙◌, arith, false, not, leb, ltb, ◌==◌,
  ◌%◌, ◌&&◌, bit_and, length, Bool-cases, inl, inr,
}
use tvmm.Base.Word.{w32}
use tvmm.Memory.{Mem, byte}
use tvmm.CString.{memmove}
use tvmm.CString.Laws.{memmove_lem}
use tvmm.Page.{virt, phys, vmm_offset}
use tvmm.Kernel.{State, Run, Kernel, and_then, pure, update_mem, ◌>>◌}
use tvmm.Kernel.Laws.{Ends, Ends-map, both-Ends, and_then-Ends, either-Ends}
use tvmm.Multiboot.{MultibootInfo, Module, read_module, mbi_memmap}
use tvmm.E820.{E820Map, max_entries, get_max_pfn, get_nr_pages}
use tvmm.E820.Setup.{Layout, setup_memory_region_lem}
use tvmm.E820.MaxPfn.{get_max_pfn_lem, get_max_pfn-le}
use tvmm.Alloc.{PmemLayout, naive_allocator_init}
use tvmm.Alloc.Init.{IsPhysLayout}
use tvmm.Alloc.Kept.{IsConfined, naive_allocator_init-Confines}
use tvmm.Setup.{CmdlineOption, copy_guest_image, has_guest_image, setup_arch_memory}
use tvmm.Setup.LowMap.{IsLowInput, AreLowEntries, AreLowEntries-phys, LiesInRam-low}
use tvmm.Setup.Stash.{Found, found, none_found, find-Found, through_int-small}
use tvmm.Setup.Image.{IsStashed, copy_guest_image-IsStashed}

-- Each byte that has changed lies from `lo` on and before `hi`.
abbrev pub WritesWithin : ℕ → ℕ → Mem → Mem → Type 0
WritesWithin lo hi m m' = (x : ℕ) → (x < lo) ⊎ (hi ≤ x) → byte m' x ≡ byte m x

-- After the set-up of a machine whose kernel ends at the physical address `lo`.
pub record IsSetUp (lo : ℕ) (s s' : State) : Type 0 where
  pub writes : WritesWithin (lo + vmm_offset) (virt (2 ^ 30)) s.mem s'.mem
  pub bitmap_from : lo + vmm_offset ≤ s'.nalloc.alloc_bitmap
  pub bitmap_to : s'.nalloc.alloc_bitmap + 8 * (s'.nalloc.max_page / 64 + 1) ≤ virt (2 ^ 30)

memmove-WritesWithin :
    (m : Mem) (lo hi d a n : ℕ) → lo ≤ d → d + n ≤ hi → WritesWithin lo hi m (memmove m d a n)
memmove-WritesWithin m lo hi d a n above below x out =
    let outside : (leb d x && ltb x (d + n)) ≡ false = ground arith in
    memmove_lem m d a n x ∙ rw outside refl

module _ (mbi : MultibootInfo) (es : E820Map) (s : State) (low : AreLowEntries es) where
  -- The first module, which is the guest's image.
  abbrev modl : Module
  modl = read_module s.mem (virt mbi.mods_addr)

  abbrev size : ℕ
  size = w32 (modl.mod_end + 2 ^ 32 - modl.mod_start)

  module _ (lo : ℕ) (pml : PmemLayout) (heap : lo ≤ pml.vmm_heap_end) where
    abbrev Confined : PmemLayout → State → Type 0
    Confined pml1 s1 = WritesWithin (lo + vmm_offset) (virt (2 ^ 30)) s.mem s1.mem

    abbrev stash : ℕ → Kernel PmemLayout
    stash start =
        update_mem (λ m. memmove m (virt start) (virt modl.mod_start) size)
        >> pure (record pml { guest_image_start = start; guest_image_size = size })

    find-Confines : (r : Run ℕ) → Found pml size s es r → Ends Confined (and_then r stash)
    find-Confines r (found start above lies) =
        let below = LiesInRam-low es start size low lies in
        let whole = through_int-small start (omega arith) in
        rw whole (
          memmove-WritesWithin s.mem (lo + vmm_offset) (virt (2 ^ 30)) (virt start)
            (virt modl.mod_start) size (omega arith) (omega arith))
    find-Confines r (none_found none) = tt

    copy_guest_image-Confines :
        pml.vmm_heap_end ≤ 2 ^ 30 → Ends Confined (copy_guest_image mbi es pml s)
    unfolding copy_guest_image
    copy_guest_image-Confines end = either-Ends Confined (not (has_guest_image mbi)) _ _ tt (
        find-Confines _
          (find-Found pml size s (omega arith) (omega arith) es (AreLowEntries-phys es low)))

  start-Confines :
      (end_symbol : ℕ) (pml pml1 : PmemLayout) (s1 : State)
      → pml.max_page ≡ get_max_pfn es
      → phys end_symbol ≤ pml.vmm_heap_end
      → pml.vmm_heap_end ≤ 2 ^ 30
      → IsStashed mbi es s pml pml1 s1
      → WritesWithin (phys end_symbol + vmm_offset) (virt (2 ^ 30)) s.mem s1.mem
      → Ends
          (λ pml' s'. IsSetUp (phys end_symbol) s s')
          (naive_allocator_init end_symbol es pml1 s1)
  start-Confines end_symbol pml pml1 s1 max kernel heap st before =
      let phys_es = AreLowEntries-phys es low in
      let pages : pml1.max_page ≡ get_max_pfn es = st.max_page ∙ max in
      let small = get_max_pfn-le es phys_es in
      let bounds = (get_max_pfn_lem es phys_es).0 in
      let phys_layout : IsPhysLayout pml1 = omega (arith, st.heap_end, st.low) in
      let Within : PmemLayout → State → Type 0 =
        λ pml' s'. IsConfined (virt (phys end_symbol)) (pml1.vmm_heap_end + vmm_offset) s1 s' in
      Ends-map Within (λ pml' s'. IsSetUp (phys end_symbol) s s')
        (naive_allocator_init end_symbol es pml1 s1)
        (naive_allocator_init-Confines end_symbol es pml1 s1 phys_layout phys_es (omega arith)
          (omega (arith, pages, small)) (λ p whole. omega (arith, pages, bounds p whole)))
        (λ pml' s' within. record {
          writes = λ x out.
              ap (λ v. v % 256) (within.changes x (omega (arith, st.heap_end))) ∙ before x out;
          bitmap_from = omega (arith, within.bitmap_from);
          bitmap_to = omega (arith, within.bitmap_to, st.heap_end);
        })

  -- The set-up of the memory writes, and puts the bitmap, behind the kernel and below 1 GB.
  pub setup_arch_memory-Confines :
      (end_symbol : ℕ) (opt : CmdlineOption) (pml : PmemLayout)
      → mbi.mmap_length < 2 ^ 32
      → Layout s.mem mbi.mmap_addr mbi.mmap_length es
      → IsLowInput end_symbol opt.vmm_heap_size mbi s.mem
      → opt.vmm_heap_size ≤ 2 ^ 30
      → Ends
          (λ pml' s'. IsSetUp (phys end_symbol) s s')
          (setup_arch_memory end_symbol mbi opt pml s)
  unfolding setup_arch_memory
  setup_arch_memory-Confines end_symbol opt pml word layout input heap =
      let given : PmemLayout = record pml {
        total_pages = get_nr_pages es;
        max_page = get_max_pfn es;
        vmm_heap_end = opt.vmm_heap_size;
      } in
      let kernel : phys end_symbol ≤ opt.vmm_heap_size = input.kernel in
      let run = copy_guest_image mbi es given s in
      let Within : PmemLayout → State → Type 0 =
        λ pml' s'. WritesWithin (phys end_symbol + vmm_offset) (virt (2 ^ 30)) s.mem s'.mem in
      rw (setup_memory_region_lem mbi s word es layout)
        (elim (Bool-cases (bit_and mbi.flags mbi_memmap == 0)) [
          | inl missing ↦ rw missing tt
          | inr has ↦ rw has (elim (Bool-cases (leb (length es) max_entries)) [
            | inr over ↦ rw over tt
            | inl fits ↦ rw fits (
                and_then-Ends (λ pml1 s1. IsStashed mbi es s given pml1 s1 × Within pml1 s1)
                  (λ pml' s'. IsSetUp (phys end_symbol) s s') run _
                  (both-Ends (IsStashed mbi es s given) Within run
                    (copy_guest_image-IsStashed mbi es s given low (omega arith))
                    (copy_guest_image-Confines (phys end_symbol) given kernel heap))
                  (λ pml1 s1 (st, before).
                    start-Confines end_symbol given pml1 s1 refl kernel heap st before))
          ])
        ])
