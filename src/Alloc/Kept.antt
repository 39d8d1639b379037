-- ===== src/Alloc/Kept.antt =====
-- What `naive_allocator_init` leaves alone: the kernel and the memory behind its heap.
use tvmm.Base.{
  ℕ, ◌+◌, ◌-◌, ◌*◌, ◌/◌, ◌^◌, ◌≤◌, ◌<◌, ◌≡◌, ◌⊎◌, refl, ◌∙◌, arith, true, false, leb, ◌==◌, ◌!=◌,
  Bool-cases, inl, inr, or-true, [], ◌∷◌,
}
use native.Mathlib.Nat.{mod-eq_of_lt}
use tvmm.Base.Word.{w64, sub64}
use tvmm.Memory.{Mem}
use tvmm.CString.{memset}
use tvmm.CString.Laws.{memset_lem}
use tvmm.Kernel.{NaiveAllocator, State}
use tvmm.Kernel.Laws.{Ends, Ends-map}
use tvmm.Page.{page_up, phys, virt, vmm_offset}
use tvmm.Page.Laws.{page_up_lem, page_down_lem}
use tvmm.E820.{E820Map, ram}
use tvmm.E820.Region.{ArePhysEntries, in_ram, within_addrs, phys_limit}
use tvmm.Alloc.{PmemLayout, init_region, usable_start, init_alloc_bitmap, naive_allocator_init}
use tvmm.Alloc.MapFree.{map_free_outside}
use tvmm.Alloc.Init.{IsPhysLayout, usable_start-le, usable_entry}
use tvmm.Alloc.Boot.{bitmap_bytes, bitmap_fits}

-- Each byte that has changed lies from `lo` on and before `hi`.
abbrev pub ChangesWithin : ℕ → ℕ → Mem → Mem → Type 0
ChangesWithin lo hi m m' = (x : ℕ) → (x < lo) ⊎ (hi ≤ x) → m' x ≡ m x

-- Each byte that has changed does so, and the bitmap lies there.
pub record IsConfined (lo hi : ℕ) (s s' : State) : Type 0 where
  pub changes : ChangesWithin lo hi s.mem s'.mem
  pub bitmap_from : lo ≤ s'.nalloc.alloc_bitmap
  pub bitmap_to : s'.nalloc.alloc_bitmap + 8 * (s'.nalloc.max_page / 64 + 1) ≤ hi

-- Outside the words of the bitmap for `n` pages.
abbrev IsOutside : NaiveAllocator → ℕ → ℕ → Type 0
IsOutside nalloc n x = (x < nalloc.alloc_bitmap) ⊎ (nalloc.alloc_bitmap + 8 * (n / 64) + 8 ≤ x)

init_region_outside :
    (nalloc : NaiveAllocator) (s e : ℕ) (m : Mem) (n x : ℕ)
    → s ≤ phys_limit
    → e ≤ phys_limit
    → ((p : ℕ) → within_addrs s e p ≡ true → p < n)
    → IsOutside nalloc n x
    → init_region nalloc s e m x ≡ m x
unfolding init_region
init_region_outside nalloc s e m n x hs he below out =
    let up = (s + 4095) / 4096 in
    let dn = e / 4096 in
    rw (page_up_lem s (omega arith), page_down_lem e (omega arith))
      (elim (Bool-cases (leb (dn * 4096) (up * 4096))) [
        | inl empty ↦ rw empty refl
        | inr some_pages ↦
            let first : up * 4096 / 4096 ≡ up = omega arith in
            let count : sub64 (dn * 4096) (up * 4096) / 4096 ≡ dn - up = ground arith in
            let more : up < dn = ground arith in
            let last = below (dn - 1) (ground arith) in
            rw (some_pages, first, count)
              (map_free_outside nalloc up (dn - up) m (omega arith) x (omega arith))
      ])

init_alloc_bitmap_outside :
    (nalloc : NaiveAllocator) (pml : PmemLayout) (e820 : E820Map) (m : Mem) (n x : ℕ)
    → IsPhysLayout pml
    → ArePhysEntries e820
    → ((p : ℕ) → in_ram e820 p ≡ true → p < n)
    → IsOutside nalloc n x
    → init_alloc_bitmap nalloc pml e820 m x ≡ m x
unfolding init_alloc_bitmap
init_alloc_bitmap_outside nalloc pml [] m n x h k below out = refl
init_alloc_bitmap_outside nalloc pml (e ∷ rest) m n x h k below out =
    elim (Bool-cases (e.type == ram)) [
      | inl is_ram ↦
          let here : (e.type != ram) ≡ false = ground arith in
          let s = usable_start pml e in
          let freed = init_region nalloc s (e.addr + e.size) m in
          rw (here, mod-eq_of_lt {n = e.addr + e.size} {m = 2 ^ 64} (omega arith))
            (init_alloc_bitmap_outside nalloc pml rest freed n x h k.1
                (λ p r. below p (rw r (or-true _))) out
              ∙ init_region_outside nalloc s (e.addr + e.size) m n x (usable_start-le pml e h k.0)
                  k.0 (λ p w. below p (rw (is_ram, (usable_entry pml e p h k.0 w).0) refl)) out)
      | inr other ↦
          let here : (e.type != ram) ≡ true = ground arith in
          rw here (
            init_alloc_bitmap_outside nalloc pml rest m n x h k.1
              (λ p r. below p (rw r (or-true _))) out)
    ]

-- With physical addresses below 2^52 and a `max_page` above every whole page of RAM: what
-- `naive_allocator_init` changes lies between the kernel's end and the heap's end, as does the
-- bitmap.
pub naive_allocator_init-Confines :
    (end_symbol : ℕ) (e820 : E820Map) (pml : PmemLayout) (s : State)
    → IsPhysLayout pml
    → ArePhysEntries e820
    → phys end_symbol < 2 ^ 46
    → pml.max_page ≤ 2 ^ 40
    → ((p : ℕ) → in_ram e820 p ≡ true → p < pml.max_page)
    → Ends
        (λ pml' s'. IsConfined (virt (phys end_symbol)) (pml.vmm_heap_end + vmm_offset) s s')
        (naive_allocator_init end_symbol e820 pml s)
unfolding naive_allocator_init
naive_allocator_init-Confines end_symbol e820 pml s h k kernel small below =
    let start = page_up (phys end_symbol) in
    let size = bitmap_bytes pml.max_page in
    let pml' : PmemLayout = record pml { vmm_heap_start = w64 (start + size) } in
    let nalloc : NaiveAllocator = record { alloc_bitmap = virt start; max_page = pml.max_page } in
    let fit = bitmap_fits pml.max_page small in
    let up = page_up_lem (phys end_symbol) (omega arith) in
    let filled = memset s.mem (virt start) (2 ^ 32 - 1) size in
    elim (Bool-cases (leb pml.vmm_heap_end (w64 (start + size)))) [
      | inl full ↦ rw full tt
      | inr fits ↦
          let end : start + size < pml.vmm_heap_end = ground (arith, up, fit) in
          rw fits (record {
            changes = λ x out.
                init_alloc_bitmap_outside nalloc pml' e820 filled pml.max_page x h k below
                  (omega (arith, up, fit))
                ∙ memset_lem size s.mem (virt start) (2 ^ 32 - 1) x
                ∙ ground (arith, up, fit);
            bitmap_from = omega (arith, up);
            bitmap_to = omega (arith, up, fit);
          })
    ]

-- So what lies behind the heap is as before.
pub naive_allocator_init-Kept :
    (end_symbol : ℕ) (e820 : E820Map) (pml : PmemLayout) (s : State)
    → IsPhysLayout pml
    → ArePhysEntries e820
    → phys end_symbol < 2 ^ 46
    → pml.max_page ≤ 2 ^ 40
    → ((p : ℕ) → in_ram e820 p ≡ true → p < pml.max_page)
    → Ends
        (λ pml' s'. (x : ℕ) → pml.vmm_heap_end + vmm_offset ≤ x → s'.mem x ≡ s.mem x)
        (naive_allocator_init end_symbol e820 pml s)
naive_allocator_init-Kept end_symbol e820 pml s h k kernel small below =
    Ends-map (λ pml' s'. IsConfined (virt (phys end_symbol)) (pml.vmm_heap_end + vmm_offset) s s')
      (λ pml' s'. (x : ℕ) → pml.vmm_heap_end + vmm_offset ≤ x → s'.mem x ≡ s.mem x)
      (naive_allocator_init end_symbol e820 pml s)
      (naive_allocator_init-Confines end_symbol e820 pml s h k kernel small below)
      (λ pml' s' within x behind. within.changes x (inr behind))
