-- ===== src/Alloc.antt =====
-- kernel/alloc.c: the page allocator. One bit of a bitmap in memory stands for each page frame.
-- `nalloc->alloc_bitmap [ i ]` is the word at `alloc_bitmap + 8 * i`.
pub mod Bitmap
pub mod Digit
pub mod MapAlloc
pub mod MapFree
pub mod FirstFit
pub mod Supply
pub mod Init
pub mod Boot
pub mod Kept
pub mod History
mod Tests
use tvmm.Base.{
  ℕ, zero, suc, ◌+◌, ◌-◌, ◌*◌, ◌/◌, ◌^◌, bit_and, bit_or, Bool, true, false, List, [], ◌∷◌, ltb,
  leb, ◌==◌, ◌!=◌, ◌&&◌, not, if◌then◌else◌,
}
use tvmm.Base.Word.{w64, sub64, neg64, shl64, shr}
use tvmm.Page.{page_shift, page_up, page_down, virt, phys}
use tvmm.Memory.{Mem, load64, store64}
use tvmm.CString.{memset}
use tvmm.E820.{E820Map, E820Entry, ram}
use tvmm.Failure.{no_heap_space, out_of_pages}
use tvmm.Kernel.{
  NaiveAllocator, State, Kernel, done, pure, fail, out_of_fuel, update_mem, ◌>>=◌, ◌>>◌,
}

abbrev pub bitmap_shift : ℕ
bitmap_shift = 6

-- `struct pmem_layout` of include/pmem_layout.h.
pub record PmemLayout : Type 0 where
  pub max_page : ℕ
  pub total_pages : ℕ
  pub vmm_heap_start : ℕ
  pub vmm_heap_end : ℕ
  pub guest_image_start : ℕ
  pub guest_image_size : ℕ

unfoldable pub get_alloc_bitmap_idx : ℕ → ℕ
get_alloc_bitmap_idx pfn = shr pfn bitmap_shift

unfoldable pub get_alloc_bitmap_offset : ℕ → ℕ
get_alloc_bitmap_offset pfn = bit_and pfn (2 ^ bitmap_shift - 1)

-- `tbl [ idx ]` as a value, and an assignment to it.
unfoldable pub word : ℕ → Mem → ℕ → ℕ
word tbl m idx = load64 m (tbl + 8 * idx)

unfoldable pub set_word : ℕ → ℕ → ℕ → Mem → Mem
set_word tbl idx v m = store64 m (tbl + 8 * idx) v

unfoldable pub allocated_in_map : NaiveAllocator → Mem → ℕ → Bool
allocated_in_map nalloc m pfn =
    let idx = get_alloc_bitmap_idx pfn in
    let offset = get_alloc_bitmap_offset pfn in
    bit_and (word nalloc.alloc_bitmap m idx) (shl64 1 offset) != 0

-- `for ( ; curr_idx < end_idx; curr_idx++ ) tbl [ curr_idx ] = v`, with the rounds left.
unfoldable pub fill_words : ℕ → ℕ → ℕ → ℕ → Mem → Mem
fill_words tbl v zero idx m = m
fill_words tbl v (suc left) idx m = fill_words tbl v left (idx + 1) (set_word tbl idx v m)

unfoldable pub map_alloc : NaiveAllocator → ℕ → ℕ → Mem → Mem
map_alloc nalloc first_page nr_pages m =
    let tbl = nalloc.alloc_bitmap in
    let curr_idx = get_alloc_bitmap_idx first_page in
    let start_off = get_alloc_bitmap_offset first_page in
    let end_idx = get_alloc_bitmap_idx (w64 (first_page + nr_pages)) in
    let end_off = get_alloc_bitmap_offset (w64 (first_page + nr_pages)) in
    let below_end = sub64 (shl64 1 end_off) 1 in
    let from_start = neg64 (shl64 1 start_off) in
    if curr_idx == end_idx
    then set_word tbl curr_idx (bit_or (word tbl m curr_idx) (bit_and below_end from_start)) m
    else (let m1 = set_word tbl curr_idx (bit_or (word tbl m curr_idx) from_start) m in
        let rounds = end_idx - (curr_idx + 1) in
        let m2 = fill_words tbl (2 ^ 64 - 1) rounds (curr_idx + 1) m1 in
        let last_idx = curr_idx + 1 + rounds in
        set_word tbl last_idx (bit_or (word tbl m2 last_idx) below_end) m2)

unfoldable pub map_free : NaiveAllocator → ℕ → ℕ → Mem → Mem
map_free nalloc first_page nr_pages m =
    let tbl = nalloc.alloc_bitmap in
    let curr_idx = get_alloc_bitmap_idx first_page in
    let start_off = get_alloc_bitmap_offset first_page in
    let end_idx = get_alloc_bitmap_idx (w64 (first_page + nr_pages)) in
    let end_off = get_alloc_bitmap_offset (w64 (first_page + nr_pages)) in
    let from_end = neg64 (shl64 1 end_off) in
    let below_start = sub64 (shl64 1 start_off) 1 in
    if curr_idx == end_idx
    then set_word tbl curr_idx (bit_and (word tbl m curr_idx) (bit_or from_end below_start)) m
    else (let m1 = set_word tbl curr_idx (bit_and (word tbl m curr_idx) below_start) m in
        let rounds = end_idx - (curr_idx + 1) in
        let m2 = fill_words tbl 0 rounds (curr_idx + 1) m1 in
        let last_idx = curr_idx + 1 + rounds in
        set_word tbl last_idx (bit_and (word tbl m2 last_idx) from_end) m2)

unfoldable pub init_region : NaiveAllocator → ℕ → ℕ → Mem → Mem
init_region nalloc start_addr end_addr m =
    let start = page_up start_addr in
    let end = page_down end_addr in
    if leb end start
    then m
    else map_free nalloc (shr start page_shift) (shr (sub64 end start) page_shift) m

-- Where the part of a RAM entry begins that the allocator may hand out.
unfoldable pub usable_start : PmemLayout → E820Entry → ℕ
usable_start pml p =
    let e = w64 (p.addr + p.size) in
    let s = if ltb p.addr pml.vmm_heap_end then pml.vmm_heap_end else p.addr in
    let guest_image_end = w64 (pml.guest_image_start + pml.guest_image_size) in
    if ltb s guest_image_end && ltb pml.guest_image_start e then guest_image_end else s

unfoldable pub init_alloc_bitmap : NaiveAllocator → PmemLayout → E820Map → Mem → Mem
init_alloc_bitmap nalloc pml [] m = m
init_alloc_bitmap nalloc pml (p ∷ rest) m =
    init_alloc_bitmap nalloc pml rest (
      if p.type != ram
      then m
      else init_region nalloc (usable_start pml p) (w64 (p.addr + p.size)) m)

-- `end_symbol` is the address of the linker's `_end`.
unfoldable pub naive_allocator_init : ℕ → E820Map → PmemLayout → Kernel PmemLayout
naive_allocator_init end_symbol e820 pml s =
    let alloc_bitmap_start = page_up (phys end_symbol) in
    let bitmap_size = page_up (w64 (pml.max_page / 8 + 8)) in
    let pml' = record pml { vmm_heap_start = w64 (alloc_bitmap_start + bitmap_size) } in
    let nalloc : NaiveAllocator = record {
      alloc_bitmap = virt alloc_bitmap_start;
      max_page = pml.max_page;
    } in
    let all_allocated = memset s.mem nalloc.alloc_bitmap (2 ^ 32 - 1) bitmap_size in
    if leb pml'.vmm_heap_end pml'.vmm_heap_start
    then fail no_heap_space s
    else done pml'
        (record { mem = init_alloc_bitmap nalloc pml' e820 all_allocated; nalloc = nalloc })

-- The loop at index `i`, with the rounds left.
unfoldable pub free_loop : NaiveAllocator → Mem → ℕ → ℕ → ℕ → Bool
free_loop nalloc m pfn zero i = true
free_loop nalloc m pfn (suc left) i =
    not (allocated_in_map nalloc m (w64 (pfn + i))) && free_loop nalloc m pfn left (i + 1)

unfoldable pub is_free_contiguous_region : NaiveAllocator → Mem → ℕ → ℕ → Bool
unfolding free_loop
is_free_contiguous_region nalloc m pfn nr_pfns = free_loop nalloc m pfn nr_pfns 0

unfoldable pub alloc_loop : ℕ → ℕ → ℕ → ℕ → Kernel ℕ
alloc_loop zero nr_pfns pfn_align i = λ _. out_of_fuel
alloc_loop (suc fuel) nr_pfns pfn_align i = λ s.
    let next = alloc_loop fuel nr_pfns pfn_align (w64 (i + pfn_align)) s in
    if ltb (w64 (i + nr_pfns)) s.nalloc.max_page
    then (if is_free_contiguous_region s.nalloc s.mem i nr_pfns
        then done i (record s { mem = map_alloc s.nalloc i nr_pfns s.mem })
        else next)
    else fail out_of_pages s

-- At most `max_page + 1` rounds are made when `pfn_align` is positive.
unfoldable pub alloc_boot_pages : ℕ → ℕ → Kernel ℕ
unfolding alloc_loop
alloc_boot_pages nr_pfns pfn_align s = alloc_loop (s.nalloc.max_page + 1) nr_pfns pfn_align 0 s

unfoldable pub alloc_pages : ℕ → ℕ → Kernel ℕ
unfolding alloc_boot_pages
alloc_pages nr_pfns pfn_align = alloc_boot_pages nr_pfns pfn_align
