-- ===== src/Alloc/Tests.antt =====
-- A machine of eight pages, the allocator on it, and the theorems at that machine.
use tvmm.Base.{ℕ, ◌+◌, ◌-◌, ◌^◌, ◌≡◌, refl, arith, true, false, not, ◌||◌, ◌&&◌, [], ◌∷◌}
use tvmm.Memory.{Mem, load_bytes, store_bytes, store8, load64, store64}
use tvmm.CString.{memset}
use tvmm.Kernel.{NaiveAllocator, State, done, fatal}
use tvmm.Failure.{no_heap_space}
use tvmm.Page.{vmm_offset, page_up, page_down}
use tvmm.E820.{E820Map}
use tvmm.Alloc.{
  PmemLayout, word, set_word, get_alloc_bitmap_idx, get_alloc_bitmap_offset, fill_words,
  init_region, usable_start, free_loop, is_free_contiguous_region, allocated_in_map, map_alloc,
  map_free, alloc_pages, naive_allocator_init, init_alloc_bitmap,
}
use tvmm.Alloc.Digit.{in_range}
use tvmm.Alloc.MapAlloc.{map_alloc_lem}
use tvmm.Alloc.MapFree.{map_free_lem}
use tvmm.Alloc.FirstFit.{Outcome, alloc_pages-Outcome}
use tvmm.Alloc.Boot.{IsBooted, Started, naive_allocator_init-Started}
use tvmm.Alloc.History.{IsSound, boot, call, History-IsSound, Started-done}

abbrev zeros : Mem
zeros a = 0

-- What a run by evaluation opens.
open_code : Unit {0}
unfolding load_bytes store_bytes store8 load64 store64 word set_word get_alloc_bitmap_idx
    get_alloc_bitmap_offset fill_words allocated_in_map map_alloc map_free page_up page_down memset
    init_region usable_start init_alloc_bitmap naive_allocator_init alloc_pages free_loop
    is_free_contiguous_region
open_code = tt

-- Two words of bitmap at address 64.
abbrev small : NaiveAllocator
small = record { alloc_bitmap = 64; max_page = 128 }

abbrev small_state : State
small_state = record { mem = zeros; nalloc = small }

map_alloc_lem_example :
    allocated_in_map small (map_alloc small 60 10 zeros) 66
    ≡ (allocated_in_map small zeros 66 || in_range 60 10 66)
map_alloc_lem_example = map_alloc_lem small 60 10 zeros (omega arith) 66

map_free_lem_example :
    allocated_in_map small (map_free small 60 10 (map_alloc small 50 70 zeros)) 66
    ≡ (allocated_in_map small (map_alloc small 50 70 zeros) 66 && not (in_range 60 10 66))
map_free_lem_example = map_free_lem small 60 10 (map_alloc small 50 70 zeros) (omega arith) 66

spans_two_words :
    (allocated_in_map small (map_alloc small 60 10 zeros) 59 ≡ false)
    × (allocated_in_map small (map_alloc small 60 10 zeros) 60 ≡ true)
    × (allocated_in_map small (map_alloc small 60 10 zeros) 69 ≡ true)
    × (allocated_in_map small (map_alloc small 60 10 zeros) 70 ≡ false)
unfolding open_code
spans_two_words = (refl, refl, refl, refl)

alloc_pages-Outcome_example : Outcome small_state 3 4 (alloc_pages 3 4 small_state)
alloc_pages-Outcome_example = alloc_pages-Outcome small_state 3 4 (omega arith) (omega arith)

-- The kernel ends at 0x1000, its bitmap takes one page, and the guest image the page at 0x4000.
abbrev layout : PmemLayout
layout = record {
  max_page = 8;
  total_pages = 8;
  vmm_heap_start = 0;
  vmm_heap_end = 0x3000;
  guest_image_start = 0x4000;
  guest_image_size = 0x1000;
}

abbrev ram_map : E820Map
ram_map =
    record { addr = 0; size = 0x4000; type = 1 }
    ∷ record { addr = 0x4000; size = 0x4000; type = 1 }
    ∷ []

abbrev end_symbol : ℕ
end_symbol = vmm_offset + 0x1000

naive_allocator_init-Started_example :
    Started end_symbol ram_map layout small_state
      (naive_allocator_init end_symbol ram_map layout small_state)
naive_allocator_init-Started_example =
    naive_allocator_init-Started end_symbol ram_map layout small_state (omega arith) (omega arith)
      (omega arith)

-- With a heap that ends behind the bitmap's first page there is no heap.
abbrev tight : PmemLayout
tight = record layout { vmm_heap_end = 0x2000 }

no_heap_left : naive_allocator_init end_symbol ram_map tight small_state ≡ fatal no_heap_space
unfolding open_code
no_heap_left = refl

-- The state after the start: the page at 0x3000 and those from 0x5000 on are free.
abbrev booted_layout : PmemLayout
booted_layout = record layout { vmm_heap_start = 0x2000 }

abbrev booted_allocator : NaiveAllocator
booted_allocator = record { alloc_bitmap = vmm_offset + 0x1000; max_page = 8 }

abbrev booted : State
booted = record {
  mem =
      init_alloc_bitmap booted_allocator booted_layout ram_map
        (memset zeros (vmm_offset + 0x1000) (2 ^ 32 - 1) 0x1000);
  nalloc = booted_allocator;
}

starts : naive_allocator_init end_symbol ram_map layout small_state ≡ done booted_layout booted
unfolding page_up naive_allocator_init
starts = refl

booted-IsBooted : IsBooted end_symbol ram_map layout booted_layout booted
booted-IsBooted = Started-done naive_allocator_init-Started_example starts

-- Two calls of `alloc_pages`.
abbrev after_one : State
after_one = record booted { mem = map_alloc booted_allocator 3 1 booted.mem }

abbrev after_two : State
after_two = record booted { mem = map_alloc booted_allocator 5 2 after_one.mem }

first_call : alloc_pages 1 1 booted ≡ done 3 after_one
unfolding open_code
first_call = refl

second_call : alloc_pages 2 1 after_one ≡ done 5 after_two
unfolding open_code
second_call = refl

History-IsSound_example : IsSound ram_map layout after_two ((5, 2) ∷ (3, 1) ∷ [])
History-IsSound_example = History-IsSound end_symbol ram_map layout booted_layout (
    call 2 1 (call 1 1 (boot booted-IsBooted) (omega arith) (omega arith) first_call) (omega arith)
      (omega arith) second_call)
