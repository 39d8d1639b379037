-- ===== src/Setup/Image.antt =====
-- The memory's set-up as a whole: the map is read, the guest's image is stashed, and the allocator
-- starts.
use tvmm.Base.{
  ℕ, ◌+◌, ◌-◌, ◌%◌, ◌^◌, ◌≤◌, ◌<◌, ◌≡◌, refl, ap, ◌∙◌, arith, true, false, not, leb, ltb, ◌==◌,
  ◌&&◌, bit_and, length, Bool-cases, inl, inr,
}
use tvmm.Base.Word.{w32}
use tvmm.Memory.{Mem, byte}
use tvmm.CString.{memmove}
use tvmm.CString.Laws.{memmove_lem}
use tvmm.Page.{virt, phys, vmm_offset}
use tvmm.Kernel.{State, Run, Kernel, and_then, pure, update_mem, ◌>>◌}
use tvmm.Kernel.Laws.{Ends, Ends-map, both-Ends, and_then-Ends, either-Ends}
use tvmm.Multiboot.{MultibootInfo, Module, read_module, mbi_memmap}
use tvmm.E820.{E820Map, max_entries, get_max_pfn, get_nr_pages}
use tvmm.E820.Region.{in_ram}
use tvmm.E820.Setup.{Layout, setup_memory_region_lem}
use tvmm.E820.MaxPfn.{get_max_pfn_lem, get_max_pfn-le}
use tvmm.Alloc.{PmemLayout, allocated_in_map, naive_allocator_init}
use tvmm.Alloc.Init.{IsSpare, IsPhysLayout}
use tvmm.Alloc.Boot.{IsBooted, Started, no_heap, started, naive_allocator_init-Started}
use tvmm.Alloc.Kept.{naive_allocator_init-Kept}
use tvmm.Paging.Tables.{IsMapped}
use tvmm.Paging.Aside.{IsIdle}
use tvmm.Paging.Booted.{no_tables, IsBooted-IsMapped, IsBooted-IsIdle}
use tvmm.Setup.{CmdlineOption, copy_guest_image, has_guest_image, setup_arch_memory}
use tvmm.Setup.LowMap.{
  IsLowInput, AreLowEntries, AreLowEntries-phys, LiesInRam-low, get_max_pfn-low,
}
use tvmm.Setup.Stash.{Found, found, none_found, find-Found, through_int-small}

module _ (mbi : MultibootInfo) (es : E820Map) (s : State) where
  -- The first module, which is the guest's image.
  abbrev modl : Module
  modl = read_module s.mem (virt mbi.mods_addr)

  abbrev size : ℕ
  size = w32 (modl.mod_end + 2 ^ 32 - modl.mod_start)

  -- The bytes of the guest's image are where the layout says.
  abbrev pub HasImage : PmemLayout → Mem → Type 0
  HasImage pml m =
      (i : ℕ)
      → i < pml.guest_image_size
      → byte m (virt pml.guest_image_start + i) ≡ byte s.mem (virt modl.mod_start + i)

  -- After `copy_guest_image`.
  pub record IsStashed (pml pml1 : PmemLayout) (s1 : State) : Type 0 where
    pub max_page : pml1.max_page ≡ pml.max_page
    pub heap_end : pml1.vmm_heap_end ≡ pml.vmm_heap_end
    pub behind : pml.vmm_heap_end ≤ pml1.guest_image_start
    pub low : pml1.guest_image_start + pml1.guest_image_size < 2 ^ 30
    size_read : pml1.guest_image_size ≡ size
    image : HasImage pml1 s1.mem

  -- What is done with the place that was found.
  abbrev stash : PmemLayout → ℕ → Kernel PmemLayout
  stash pml start =
      update_mem (λ m. memmove m (virt start) (virt modl.mod_start) size)
      >> pure (record pml { guest_image_start = start; guest_image_size = size })

  find-IsStashed :
      (pml : PmemLayout) (r : Run ℕ)
      → AreLowEntries es
      → Found pml size s es r
      → Ends (IsStashed pml) (and_then r (stash pml))
  find-IsStashed pml r low (found start above lies) =
      let below = LiesInRam-low es start size low lies in
      let whole = through_int-small start (omega arith) in
      rw whole (record {
        max_page = refl;
        heap_end = refl;
        behind = above;
        low = below;
        size_read = refl;
        image = λ i lt.
            let inside : (leb (virt start) (virt start + i)
                  && ltb (virt start + i) (virt start + size))
                ≡ true =
              ground arith in
            memmove_lem s.mem (virt start) (virt modl.mod_start) size (virt start + i)
            ∙ rw inside (ap (λ a. byte s.mem (virt modl.mod_start + a)) (omega arith));
      })
  find-IsStashed pml r low (none_found none) = tt

  pub copy_guest_image-IsStashed :
      (pml : PmemLayout)
      → AreLowEntries es
      → pml.vmm_heap_end ≤ 2 ^ 31
      → Ends (IsStashed pml) (copy_guest_image mbi es pml s)
  unfolding copy_guest_image
  copy_guest_image-IsStashed pml low heap =
      either-Ends (IsStashed pml) (not (has_guest_image mbi)) _ _ tt (
        find-IsStashed pml _ low
          (find-Found pml size s (omega arith) (omega arith) es (AreLowEntries-phys es low)))

  -- The state after the set-up.
  pub record IsReady (pml' : PmemLayout) (s' : State) : Type 0 where
    pub size_read : pml'.guest_image_size ≡ size
    pub image : HasImage pml' s'.mem
    pub pages : s'.nalloc.max_page ≡ get_max_pfn es
    pub free_pages :
        (p : ℕ)
        → p < get_max_pfn es
        → allocated_in_map s'.nalloc s'.mem p ≡ false
        → (in_ram es p ≡ true) × IsSpare pml' p
    pub image_below : pml'.guest_image_start + pml'.guest_image_size < 2 ^ 30
    pub few_pages : s'.nalloc.max_page ≤ 2 ^ 18
    pub mapped : IsMapped s'.nalloc no_tables s'
    pub idle :
        IsIdle s'.nalloc no_tables s'
          (virt pml'.guest_image_start)
          (virt pml'.guest_image_start + pml'.guest_image_size)

  Started-Ends :
      {end_symbol : ℕ} {pml1 : PmemLayout} {s1 : State} {r : Run PmemLayout}
      → Started end_symbol es pml1 s1 r
      → Ends (IsBooted end_symbol es pml1) r
  Started-Ends (no_heap full) = tt
  Started-Ends (started b) = b

  stashed-IsReady :
      (end_symbol : ℕ) (pml pml1 pml' : PmemLayout) (s1 s' : State)
      → pml.max_page ≡ get_max_pfn es
      → get_max_pfn es ≤ 2 ^ 18
      → phys end_symbol < 2 ^ 46
      → pml.vmm_heap_end ≤ 2 ^ 31
      → IsStashed pml pml1 s1
      → IsBooted end_symbol es pml1 pml' s'
      → ((x : ℕ) → pml1.vmm_heap_end + vmm_offset ≤ x → s'.mem x ≡ s1.mem x)
      → IsReady pml' s'
  stashed-IsReady end_symbol pml pml1 pml' s1 s' max few kernel heap st b kept =
      let start_same : pml'.guest_image_start ≡ pml1.guest_image_start =
        ap (λ l. l.guest_image_start) b.layout in
      let size_same : pml'.guest_image_size ≡ pml1.guest_image_size =
        ap (λ l. l.guest_image_size) b.layout in
      let end_same : pml'.vmm_heap_end ≡ pml1.vmm_heap_end = ap (λ l. l.vmm_heap_end) b.layout in
      record {
        size_read = size_same ∙ st.size_read;
        image = λ i lt.
            ap (λ a. byte s'.mem (virt a + i)) start_same
            ∙ ap (λ v. v % 256)
                (kept (virt pml1.guest_image_start + i)
                  (omega (arith, st.behind, st.low, st.heap_end)))
            ∙ st.image i (omega (arith, size_same));
        pages = b.pages ∙ st.max_page ∙ max;
        free_pages = λ p lt free.
            let (whole, spare) = b.free_pages p (omega (arith, st.max_page, max)) free in
            (whole, rw (end_same, start_same, size_same) spare);
        image_below = omega (arith, start_same, size_same, st.low);
        few_pages = omega (arith, b.pages, st.max_page, max, few);
        mapped =
            IsBooted-IsMapped end_symbol es pml1 pml' s' (omega (arith, st.heap_end, st.low))
              (omega arith) (omega (arith, st.max_page, max))
              (omega (arith, b.pages, st.max_page, max, few)) b;
        idle =
            rw (start_same, size_same)
              (IsBooted-IsIdle end_symbol es pml1 pml' s' (omega arith)
                (omega (arith, st.max_page, max)) b (omega (arith, st.heap_end, st.behind))
                (omega (arith, st.low)));
      }

  start-IsReady :
      (end_symbol : ℕ) (pml pml1 : PmemLayout) (s1 : State)
      → pml.max_page ≡ get_max_pfn es
      → IsStashed pml pml1 s1
      → AreLowEntries es
      → phys end_symbol < 2 ^ 46
      → pml.vmm_heap_end ≤ 2 ^ 31
      → Ends IsReady (naive_allocator_init end_symbol es pml1 s1)
  start-IsReady end_symbol pml pml1 s1 max st low kernel heap =
      let phys_es = AreLowEntries-phys es low in
      let pages : pml1.max_page ≡ get_max_pfn es = st.max_page ∙ max in
      let small = get_max_pfn-le es phys_es in
      let phys_layout : IsPhysLayout pml1 = omega (arith, st.heap_end, st.low) in
      let bounds = (get_max_pfn_lem es phys_es).0 in
      let run = naive_allocator_init end_symbol es pml1 s1 in
      let kept =
        naive_allocator_init-Kept end_symbol es pml1 s1 phys_layout phys_es kernel
          (omega (arith, pages, small)) (λ p whole. omega (arith, pages, bounds p whole)) in
      Ends-map
        (λ pml' s'.
          IsBooted end_symbol es pml1 pml' s'
          × ((x : ℕ) → pml1.vmm_heap_end + vmm_offset ≤ x → s'.mem x ≡ s1.mem x))
        IsReady run
        (both-Ends (IsBooted end_symbol es pml1) _ run
          (Started-Ends (
            naive_allocator_init-Started end_symbol es pml1 s1 phys_layout phys_es
              (omega (arith, pages, small))))
          kept)
        (λ pml' s' (b, same).
          stashed-IsReady end_symbol pml pml1 pml' s1 s' max (get_max_pfn-low es low) kernel heap st
            b same)

  -- If the boot loader gives a map of less than 2^32 bytes in the Multiboot format, whose entries
  -- all end below 1 GB, the map, the module records and the first module lie below 1 GB, which is
  -- what boot.S maps, and the kernel ends at the heap's end or before, and the heap at 1 GB or
  -- before: the set-up of the memory ends. It stops, or the bytes of the guest's image, as many as
  -- the boot loader says, are behind the heap where the layout says, and every free page below the
  -- allocator's `max_page`, which is that of the map and 2^18 or less, lies whole in RAM, above the
  -- heap and outside the image. The image lies behind the bitmap and in no free frame, and there
  -- are no page tables yet.
  pub setup_arch_memory-IsReady :
      (end_symbol : ℕ) (opt : CmdlineOption) (pml : PmemLayout)
      → mbi.mmap_length < 2 ^ 32
      → Layout s.mem mbi.mmap_addr mbi.mmap_length es
      → AreLowEntries es
      → IsLowInput end_symbol opt.vmm_heap_size mbi s.mem
      → opt.vmm_heap_size ≤ 2 ^ 30
      → Ends IsReady (setup_arch_memory end_symbol mbi opt pml s)
  unfolding setup_arch_memory
  setup_arch_memory-IsReady end_symbol opt pml word layout low input heap =
      let given : PmemLayout = record pml {
        total_pages = get_nr_pages es;
        max_page = get_max_pfn es;
        vmm_heap_end = opt.vmm_heap_size;
      } in
      rw (setup_memory_region_lem mbi s word es layout)
        (elim (Bool-cases (bit_and mbi.flags mbi_memmap == 0)) [
          | inl missing ↦ rw missing tt
          | inr has ↦ rw has (elim (Bool-cases (leb (length es) max_entries)) [
            | inr over ↦ rw over tt
            | inl fits ↦ rw fits (
                and_then-Ends (IsStashed given) IsReady (copy_guest_image mbi es given s) _
                  (copy_guest_image-IsStashed given low (omega arith))
                  (λ pml1 s1 st.
                    start-IsReady end_symbol given pml1 s1 refl st low
                      (omega (arith, input.kernel, heap)) (omega arith)))
          ])
        ])
