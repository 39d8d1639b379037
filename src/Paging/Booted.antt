-- ===== src/Paging/Booted.antt =====
-- The state in which `naive_allocator_init` leaves the kernel: there are no tables yet.
use tvmm.Base.{Bool-cases, inl, inr, ℕ, ◌+◌, ◌*◌, ◌/◌, ◌^◌, ◌≤◌, ◌<◌, ◌≡◌, refl, ap, arith}
use tvmm.Base.Word.{w64}
use tvmm.Page.{page_up, phys, virt}
use tvmm.Page.Laws.{page_up_lem}
use tvmm.Kernel.{NaiveAllocator, State}
use tvmm.E820.{E820Map}
use tvmm.Alloc.{PmemLayout}
use tvmm.Alloc.Init.{IsPhysLayout}
use tvmm.Alloc.Boot.{IsBooted, bitmap_bytes, bitmap_fits}
use tvmm.Page.{vmm_offset}
use tvmm.Alloc.{allocated_in_map}
use tvmm.Paging.Tables.{IsMapped, IsAddressable, bitmap_end}
use tvmm.Paging.Aside.{IsIdle, frame_of}

abbrev pub no_tables : ℕ → ℕ
no_tables f = 0

-- What lies behind the bitmap's physical pages lies behind the bitmap.
bitmap_below :
    (kernel_end max_page : ℕ) (n : NaiveAllocator) (a : ℕ)
    → kernel_end < 2 ^ 52
    → max_page ≤ 2 ^ 40
    → n.max_page ≡ max_page
    → n.alloc_bitmap ≡ virt (page_up kernel_end)
    → w64 (page_up kernel_end + bitmap_bytes max_page) ≤ a
    → a < 2 ^ 47
    → bitmap_end n ≤ a + vmm_offset
bitmap_below kernel_end max_page n a low small pages bitmap behind near =
    let bytes : bitmap_bytes max_page ≤ 2 ^ 41 =
      omega (arith, page_up_lem (w64 (max_page / 8 + 8)) (omega arith)) in
    omega (arith, page_up_lem kernel_end (omega arith), bitmap_fits max_page small)

-- With physical addresses below 2^52 and at most 2^40 pages, all of which have a virtual address,
-- the booted state is one of well-formed page tables: there is no table yet, and every free frame
-- lies behind the allocation bitmap.
pub IsBooted-IsMapped :
    (end_symbol : ℕ) (e820 : E820Map) (pml pml' : PmemLayout) (s : State)
    → IsPhysLayout pml
    → phys end_symbol < 2 ^ 52
    → pml.max_page ≤ 2 ^ 40
    → IsAddressable s.nalloc
    → IsBooted end_symbol e820 pml pml' s
    → IsMapped s.nalloc no_tables s
IsBooted-IsMapped end_symbol e820 pml pml' s phys_layout kernel small fits b = record {
  same = refl;
  tables = λ f some. absurd (omega arith);
  tables_above = λ f some. absurd (omega arith);
  free_above = λ f below free.
      let start : pml'.vmm_heap_start
          ≡ w64 (page_up (phys end_symbol) + bitmap_bytes pml.max_page) =
        ap (λ l. l.vmm_heap_start) b.layout in
      let heap_end : pml'.vmm_heap_end ≡ pml.vmm_heap_end = ap (λ l. l.vmm_heap_end) b.layout in
      let spare = (b.free_pages f (omega (arith, b.pages)) free).1 in
      bitmap_below (phys end_symbol) pml.max_page s.nalloc (f * 4096) kernel small b.pages b.bitmap
        (omega (arith, start, heap_end, b.heap, spare.0)) (omega (arith, fits, below));
  entries = λ f i high lt present. absurd (omega arith);
  parents = λ f i f' i' b leads. absurd (omega (arith, leads.0));
}

-- The guest's image, which lies behind the heap, is behind the bitmap and in no free frame.
pub IsBooted-IsIdle :
    (end_symbol : ℕ) (e820 : E820Map) (pml pml' : PmemLayout) (s : State)
    → phys end_symbol < 2 ^ 52
    → pml.max_page ≤ 2 ^ 40
    → IsBooted end_symbol e820 pml pml' s
    → pml.vmm_heap_end ≤ pml.guest_image_start
    → pml.guest_image_start + pml.guest_image_size < 2 ^ 31
    → IsIdle s.nalloc no_tables s
        (virt pml.guest_image_start)
        (virt pml.guest_image_start + pml.guest_image_size)
IsBooted-IsIdle end_symbol e820 pml pml' s kernel small b behind low x lo hi =
    let start : pml'.vmm_heap_start ≡ w64 (page_up (phys end_symbol) + bitmap_bytes pml.max_page) =
      ap (λ l. l.vmm_heap_start) b.layout in
    let heap_end : pml'.vmm_heap_end ≡ pml.vmm_heap_end = ap (λ l. l.vmm_heap_end) b.layout in
    let bitmap =
      bitmap_below (phys end_symbol) pml.max_page s.nalloc pml.guest_image_start kernel small
        b.pages b.bitmap (omega (arith, start, heap_end, b.heap, behind)) (omega arith) in
    (
      omega arith,
      omega (arith, bitmap),
      (
        refl,
        λ below. elim (Bool-cases (allocated_in_map s.nalloc s.mem (frame_of x))) [
          | inl marked ↦ marked
          | inr free ↦
              let spare = (b.free_pages (frame_of x) (omega (arith, b.pages, below)) free).1 in
              absurd (omega (arith, spare.1))
        ],
      ),
    )
