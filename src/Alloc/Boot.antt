-- ===== src/Alloc/Boot.antt =====
-- `naive_allocator_init`: the state in which the allocator starts.
use tvmm.Base.{
  ℕ, ◌+◌, ◌-◌, ◌*◌, ◌/◌, ◌%◌, ◌^◌, ◌≤◌, ◌<◌, ◌≡◌, refl, sym, ap, ◌∙◌, arith, Bool, true, false,
  ◌&&◌, not, leb, Bool-cases, inl, inr,
}
use tvmm.Base.Word.{w64}
use tvmm.Base.Bits.{testbit-ones}
use tvmm.Memory.{Mem, load64}
use tvmm.Memory.Laws.{load_bytes-ones}
use tvmm.CString.{memset}
use tvmm.CString.Laws.{memset_lem}
use tvmm.Kernel.{NaiveAllocator, State, Run, done, fatal}
use tvmm.Failure.{no_heap_space}
use tvmm.E820.{E820Map}
use tvmm.Page.{page_up, phys, virt}
use tvmm.Page.Laws.{page_up_lem}
use tvmm.Alloc.{PmemLayout, word, allocated_in_map, init_alloc_bitmap, naive_allocator_init}
use tvmm.Alloc.Bitmap.{allocated-testbit}
use tvmm.E820.Region.{ArePhysEntries, in_ram}
use tvmm.Alloc.Init.{IsPhysLayout, usable, init_alloc_bitmap_lem, IsSpare, usable-IsSpare}

-- After the memset every page of the bitmap is marked allocated.
all_allocated :
    (nalloc : NaiveAllocator) (m : Mem) (size p : ℕ)
    → 8 * (p / 64) + 8 ≤ size
    → allocated_in_map nalloc (memset m nalloc.alloc_bitmap (2 ^ 32 - 1) size) p ≡ true
unfolding word load64
all_allocated nalloc m size p h =
    let tbl = nalloc.alloc_bitmap in
    let m' = memset m tbl (2 ^ 32 - 1) size in
    let ones : load64 m' (tbl + 8 * (p / 64)) ≡ 2 ^ 64 - 1 = omega (
      arith,
      load_bytes-ones 8 m' (tbl + 8 * (p / 64))
          (λ x lo hi. ground (arith, memset_lem size m tbl (2 ^ 32 - 1) x)),
    ) in
    rw (allocated-testbit nalloc m' p, ones) (testbit-ones 64 (p % 64) ∙ ground arith)

-- The bitmap's size in bytes.
abbrev pub bitmap_bytes : ℕ → ℕ
bitmap_bytes max_page = page_up (w64 (max_page / 8 + 8))

pub bitmap_covers :
    (max_page p : ℕ) → max_page ≤ 2 ^ 40 → p < max_page → 8 * (p / 64) + 8 ≤ bitmap_bytes max_page
bitmap_covers max_page p h lt =
    let small : w64 (max_page / 8 + 8) ≡ max_page / 8 + 8 = omega arith in
    rw small (omega (arith, page_up_lem (max_page / 8 + 8) (omega arith)))

-- The bitmap's words lie in its bytes, which are not many.
pub bitmap_fits :
    (max_page : ℕ)
    → max_page ≤ 2 ^ 40
    → (8 * (max_page / 64 + 1) ≤ bitmap_bytes max_page) × (bitmap_bytes max_page ≤ 2 ^ 41)
bitmap_fits max_page le = omega (arith, page_up_lem (w64 (max_page / 8 + 8)) (omega arith))

-- The state in which `naive_allocator_init` leaves the allocator. The bitmap lies right behind the
-- kernel, and the heap behind the bitmap. A page below `max_page` is free exactly when it is a
-- usable page of RAM, so a free page is RAM, above the heap's end and outside the guest image.
pub record IsBooted (end_symbol : ℕ) (e820 : E820Map) (pml pml' : PmemLayout) (s' : State)
    : Type 0 where
  pub layout :
      pml'
      ≡ record pml { vmm_heap_start = w64 (page_up (phys end_symbol) + bitmap_bytes pml.max_page) }
  pub heap : pml'.vmm_heap_start < pml'.vmm_heap_end
  pub pages : s'.nalloc.max_page ≡ pml.max_page
  pub bitmap : s'.nalloc.alloc_bitmap ≡ virt (page_up (phys end_symbol))
  pub marks :
      (p : ℕ) → p < pml.max_page → allocated_in_map s'.nalloc s'.mem p ≡ not (usable pml' e820 p)
  pub free_pages :
      (p : ℕ)
      → p < pml.max_page
      → allocated_in_map s'.nalloc s'.mem p ≡ false
      → (in_ram e820 p ≡ true) × IsSpare pml p

not-false : (b : Bool) → not b ≡ false → b ≡ true
not-false true h = refl
not-false false h = cc

module _ (end_symbol : ℕ) (e820 : E820Map) (pml : PmemLayout) (s : State) where
  pub data Started : Run PmemLayout → Type 0 where
    no_heap :
        pml.vmm_heap_end ≤ w64 (page_up (phys end_symbol) + bitmap_bytes pml.max_page)
        → Started (fatal no_heap_space)
    started :
        {pml' : PmemLayout} {s' : State}
        → IsBooted end_symbol e820 pml pml' s'
        → Started (done pml' s')

  -- With physical addresses below 2^52 and at most 2^40 pages, `naive_allocator_init` either stops
  -- because the bitmap would reach the heap's end, or leaves the allocator booted.
  pub naive_allocator_init-Started :
      IsPhysLayout pml
      → ArePhysEntries e820
      → pml.max_page ≤ 2 ^ 40
      → Started (naive_allocator_init end_symbol e820 pml s)
  unfolding naive_allocator_init
  naive_allocator_init-Started h k small =
      let start = page_up (phys end_symbol) in
      let size = bitmap_bytes pml.max_page in
      let pml' : PmemLayout = record pml { vmm_heap_start = w64 (start + size) } in
      let nalloc : NaiveAllocator = record { alloc_bitmap = virt start; max_page = pml.max_page } in
      let m = memset s.mem (virt start) (2 ^ 32 - 1) size in
      let marks : (p : ℕ)
          → p < pml.max_page
          → allocated_in_map nalloc (init_alloc_bitmap nalloc pml' e820 m) p
            ≡ not (usable pml' e820 p) =
        λ p lt.
          init_alloc_bitmap_lem nalloc pml' e820 m p h k
          ∙ ap (λ (b : Bool). b && not (usable pml' e820 p))
              (all_allocated nalloc s.mem size p (bitmap_covers pml.max_page p small lt)) in
      elim (Bool-cases (leb pml.vmm_heap_end (w64 (start + size)))) [
        | inl full ↦ rw full (no_heap (ground arith))
        | inr fits ↦ rw fits (
            started (record {
              layout = refl;
              heap = ground arith;
              pages = refl;
              bitmap = refl;
              marks = marks;
              free_pages = λ p lt free.
                  usable-IsSpare pml' e820 p h k (not-false _ (sym (marks p lt) ∙ free));
            }))
      ]
