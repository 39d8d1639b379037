-- ===== src/Setup/Room.antt =====
-- The memory's set-up returns on a machine with enough RAM behind the heap, and leaves free pages
-- behind the guest's image.
use tvmm.Base.{
  ℕ, ◌+◌, ◌-◌, ◌*◌, ◌/◌, ◌^◌, ◌≤◌, ◌<◌, ◌≡◌, ◌≢◌, ◌⊎◌, inl, inr, refl, sym, ap, ◌∙◌, arith, true,
  false, not, Bool-cases, leb, ltb, ◌==◌, ◌!=◌, ◌&&◌, ◌||◌, bit_and, length, [], ◌∷◌,
}
use tvmm.Base.Word.{w64, w32}
use tvmm.CString.{memmove}
use tvmm.Page.{virt, phys, page_up}
use tvmm.Kernel.{State, Run, done}
use tvmm.Kernel.Success.{Succeeds}
use tvmm.Multiboot.{MultibootInfo, Module, read_module, mbi_memmap}
use tvmm.E820.{E820Map, E820Entry, ram, max_entries, get_max_pfn, get_nr_pages}
use tvmm.E820.Setup.{Layout, setup_memory_region_lem}
use tvmm.E820.MaxPfn.{get_max_pfn_lem, get_max_pfn-le}
use tvmm.Alloc.{PmemLayout, usable_start}
use tvmm.Alloc.Init.{usable, usable-IsSpare, IsPhysLayout}
use tvmm.Alloc.Boot.{
  IsBooted, Started, no_heap, started, bitmap_bytes, naive_allocator_init-Started,
}
use tvmm.Alloc.Supply.{HasFree}
use tvmm.Setup.{
  CmdlineOption, find_memory_region_for_saving_guest_image, copy_guest_image, has_guest_image,
  setup_arch_memory,
}
use tvmm.Setup.LowMap.{AreLowEntries, AreLowEntries-phys}
use tvmm.Setup.Stash.{through_int-small}

-- The first RAM that reaches behind `heap` begins before it, has room there for `len` bytes, and
-- reaches to `end`.
pub data HasRoom (heap len end : ℕ) : E820Map → Type 0 where
  main :
      {e : E820Entry} {rest : E820Map}
      → e.type ≡ ram
      → e.addr < heap
      → heap + len < e.addr + e.size
      → end ≤ e.addr + e.size
      → HasRoom heap len end (e ∷ rest)
  before :
      {e : E820Entry} {rest : E820Map}
      → (e.type ≢ ram) ⊎ ((e.addr < heap) × (e.addr + e.size ≤ heap))
      → HasRoom heap len end rest
      → HasRoom heap len end (e ∷ rest)

HasRoom-low :
    (heap len end : ℕ) (es : E820Map)
    → AreLowEntries es
    → HasRoom heap len end es
    → heap + len < 2 ^ 30
HasRoom-low heap len end [] low room = elim room [ ]
HasRoom-low heap len end (e ∷ rest) low (main is_ram below room to) = omega (arith, low.0, room)
HasRoom-low heap len end (e ∷ rest) low (before passed later) =
    HasRoom-low heap len end rest low.1 later

module _ (pml : PmemLayout) (len end : ℕ) (s : State)
    (short : pml.vmm_heap_end + len < 2 ^ 30) where
  find_lem :
      (es : E820Map)
      → AreLowEntries es
      → HasRoom pml.vmm_heap_end len end es
      → find_memory_region_for_saving_guest_image es pml len s ≡ done pml.vmm_heap_end s
  unfolding find_memory_region_for_saving_guest_image
  find_lem [] low room = elim room [ ]
  find_lem (e ∷ rest) low (main is_ram below room to) =
      let fits : (e.type != ram || ltb e.size len) ≡ false = ground arith in
      let small = through_int-small pml.vmm_heap_end (omega (arith, short)) in
      let here : (ltb e.addr pml.vmm_heap_end
            && ltb (w64 (pml.vmm_heap_end + len)) (w64 (e.addr + e.size)))
          ≡ true =
        ground (arith, low.0) in
      rw (fits, here, small) refl
  find_lem (e ∷ rest) low (before passed later) =
      let next = find_lem rest low.1 later in
      elim (Bool-cases (e.type != ram || ltb e.size len)) [
        | inl skipped ↦ rw skipped next
        | inr candidate ↦
            let here : (ltb e.addr pml.vmm_heap_end
                  && ltb (w64 (pml.vmm_heap_end + len)) (w64 (e.addr + e.size)))
                ≡ false =
              ground (arith, passed, candidate, low.0, short) in
            let above : leb pml.vmm_heap_end e.addr ≡ false = ground (arith, passed, candidate) in
            rw (candidate, here, above) next
      ]

-- The pages behind the image are handed to the allocator.
behind-usable :
    (pml : PmemLayout) (end : ℕ) (es : E820Map) (p : ℕ)
    → AreLowEntries es
    → pml.guest_image_start ≡ pml.vmm_heap_end
    → HasRoom pml.vmm_heap_end pml.guest_image_size end es
    → pml.vmm_heap_end + pml.guest_image_size ≤ p * 4096
    → p * 4096 + 4096 ≤ end
    → usable pml es p ≡ true
unfolding usable_start
behind-usable pml end [] p low at room lo hi = elim room [ ]
behind-usable pml end (e ∷ rest) p low at (main is_ram below room to) lo hi = ground (arith, low.0)
behind-usable pml end (e ∷ rest) p low at (before passed later) lo hi =
    let next = behind-usable pml end rest p low.1 at later lo hi in ground (arith, next)

module _ (mbi : MultibootInfo) (es : E820Map) (s : State) where
  abbrev modl : Module
  modl = read_module s.mem (virt mbi.mods_addr)

  abbrev size : ℕ
  size = w32 (modl.mod_end + 2 ^ 32 - modl.mod_start)

  -- The first page behind an image that lies behind the heap.
  abbrev pub image_end : ℕ → ℕ
  image_end heap = (heap + size + 4095) / 4096

  abbrev pub IsSupplied : ℕ → ℕ → State → Type 0
  IsSupplied heap end s' =
      HasFree s'.nalloc (image_end heap) (end / 4096) s' × (end / 4096 ≤ s'.nalloc.max_page)

  booted-IsSupplied :
      (end_symbol end : ℕ) (pml pml' : PmemLayout) (s' : State)
      → AreLowEntries es
      → pml.max_page ≡ get_max_pfn es
      → pml.guest_image_start ≡ pml.vmm_heap_end
      → pml.guest_image_size ≡ size
      → pml.vmm_heap_end + size < 2 ^ 30
      → HasRoom pml.vmm_heap_end size end es
      → image_end pml.vmm_heap_end < end / 4096
      → IsBooted end_symbol es pml pml' s'
      → IsSupplied pml.vmm_heap_end end s'
  booted-IsSupplied end_symbol end pml pml' s' low max at same below room some b =
      let heap_same : pml'.vmm_heap_end ≡ pml.vmm_heap_end = ap (λ l. l.vmm_heap_end) b.layout in
      let start_same : pml'.guest_image_start ≡ pml.guest_image_start =
        ap (λ l. l.guest_image_start) b.layout in
      let size_same : pml'.guest_image_size ≡ size = ap (λ l. l.guest_image_size) b.layout ∙ same in
      let phys_es = AreLowEntries-phys es low in
      let phys_layout : IsPhysLayout pml' = omega (arith, heap_same, start_same, size_same, at) in
      let room' : HasRoom pml'.vmm_heap_end pml'.guest_image_size end es =
        rw (heap_same, size_same) room in
      let free_page : (p : ℕ)
          → image_end pml.vmm_heap_end ≤ p
          → p < end / 4096
          → usable pml' es p ≡ true =
        λ p lo hi.
          behind-usable pml' end es p low (start_same ∙ at ∙ sym heap_same) room'
            (omega (arith, heap_same, size_same)) (omega arith) in
      let under : (p : ℕ) → image_end pml.vmm_heap_end ≤ p → p < end / 4096 → p < pml.max_page =
        λ p lo hi.
          let whole = (usable-IsSpare pml' es p phys_layout phys_es (free_page p lo hi)).0 in
          omega (arith, max, (get_max_pfn_lem es phys_es).0 p whole) in
      (
        λ p lo hi. b.marks p (under p lo hi) ∙ ap not (free_page p lo hi),
        omega (arith, b.pages, under (end / 4096 - 1) (omega arith) (omega arith)),
      )

  Started-Supplied :
      (end_symbol end : ℕ) (pml : PmemLayout) (s1 : State) (r : Run PmemLayout)
      → AreLowEntries es
      → pml.max_page ≡ get_max_pfn es
      → pml.guest_image_start ≡ pml.vmm_heap_end
      → pml.guest_image_size ≡ size
      → pml.vmm_heap_end + size < 2 ^ 30
      → HasRoom pml.vmm_heap_end size end es
      → image_end pml.vmm_heap_end < end / 4096
      → w64 (page_up (phys end_symbol) + bitmap_bytes pml.max_page) < pml.vmm_heap_end
      → Started end_symbol es pml s1 r
      → Succeeds (λ pml' s'. IsSupplied pml.vmm_heap_end end s') r
  Started-Supplied end_symbol end pml s1 r low max at same below room some fits (no_heap full) =
      absurd (omega arith)
  Started-Supplied end_symbol end pml s1 r low max at same below room some fits (started b) =
      booted-IsSupplied end_symbol end pml _ _ low max at same below room some b

  pub setup_arch_memory-IsSupplied :
      (end_symbol end : ℕ) (opt : CmdlineOption) (pml : PmemLayout)
      → mbi.mmap_length < 2 ^ 32
      → Layout s.mem mbi.mmap_addr mbi.mmap_length es
      → AreLowEntries es
      → (bit_and mbi.flags mbi_memmap == 0) ≡ false
      → length es ≤ max_entries
      → has_guest_image mbi ≡ true
      → HasRoom opt.vmm_heap_size size end es
      → image_end opt.vmm_heap_size < end / 4096
      → w64 (page_up (phys end_symbol) + bitmap_bytes (get_max_pfn es)) < opt.vmm_heap_size
      → Succeeds
          (λ pml' s'. IsSupplied opt.vmm_heap_size end s')
          (setup_arch_memory end_symbol mbi opt pml s)
  unfolding setup_arch_memory copy_guest_image
  setup_arch_memory-IsSupplied end_symbol end opt pml word layout low has few image room some fits =
      let given : PmemLayout = record pml {
        total_pages = get_nr_pages es;
        max_page = get_max_pfn es;
        vmm_heap_end = opt.vmm_heap_size;
      } in
      let stashed : PmemLayout = record given {
        guest_image_start = opt.vmm_heap_size;
        guest_image_size = size;
      } in
      let s1 : State = record s {
        mem = memmove s.mem (virt opt.vmm_heap_size) (virt modl.mod_start) size;
      } in
      let short : leb (length es) max_entries ≡ true = ground (arith, few) in
      let below = HasRoom-low opt.vmm_heap_size size end es low room in
      let phys_es = AreLowEntries-phys es low in
      rw
        (
          setup_memory_region_lem mbi s word es layout,
          has,
          short,
          image,
          find_lem given size end s below es low room,
        )
        (Started-Supplied end_symbol end stashed s1 _ low refl refl refl below room some fits (
          naive_allocator_init-Started end_symbol es stashed s1 (omega arith) phys_es
            (get_max_pfn-le es phys_es)))
