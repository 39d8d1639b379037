-- ===== src/Paging/Tests.antt =====
-- A root table in frame 5 of 64 frames, with the bitmap in frame 0.
use tvmm.Base.{
  ℕ, ◌+◌, ◌*◌, ◌/◌, ◌%◌, ◌^◌, ◌<◌, ◌≡◌, ◌≢◌, refl, sym, ap, ◌∙◌, arith, true, false, ◌==◌,
  Bool-cases, inl, inr, if◌then◌else◌,
}
use tvmm.Base.Word.{w64}
use tvmm.Memory.{Mem, load64, load_bytes}
use tvmm.Page.{vmm_offset}
use tvmm.Kernel.{NaiveAllocator, State}
use tvmm.Failure.{out_of_pages}
use tvmm.Kernel.Laws.{EndsOr}
use tvmm.Alloc.{allocated_in_map, word, get_alloc_bitmap_idx, get_alloc_bitmap_offset}
use tvmm.Paging.{mmap, entry_is_present, term_entry, page_paddr}
use tvmm.Paging.Fields.{present-lem, page_paddr_above_2gb}
use tvmm.Paging.Tables.{IsMapped, page_addr, slot, entry, load_bytes-zeros}
use tvmm.Paging.Translate.{IsMmapped, mmap-IsMmapped}

abbrev frames : NaiveAllocator
frames = record { alloc_bitmap = vmm_offset; max_page = 64 }

-- The digits 0 and 5 of the first word.
abbrev marked : Mem
marked a = if a == vmm_offset then 33 else 0

abbrev state : State
state = record { mem = marked; nalloc = frames }

abbrev role : ℕ → ℕ
role f = if f == 5 then 4 else 0

root_marked : allocated_in_map frames marked 5 ≡ true
unfolding allocated_in_map word get_alloc_bitmap_idx get_alloc_bitmap_offset load64 load_bytes
root_marked = refl

bitmap_marked : allocated_in_map frames marked 0 ≡ true
unfolding allocated_in_map word get_alloc_bitmap_idx get_alloc_bitmap_offset load64 load_bytes
bitmap_marked = refl

root_absent : (i : ℕ) → entry_is_present (entry marked 5 i) ≡ false
unfolding load64
root_absent i =
    let zeros : load64 marked (slot 5 i) ≡ 0 =
      load_bytes-zeros 8 marked (slot 5 i) (λ x lo hi. ground arith) in
    ap entry_is_present zeros ∙ present-lem 0

root : (f : ℕ) → 0 < role f → f ≡ 5
root f some = ground arith

state-IsMapped : IsMapped frames role state
state-IsMapped = record {
  same = refl;
  tables = λ f some. rw (root f some) (omega arith, root_marked);
  tables_above = λ f some. rw (root f some) (omega arith);
  free_above = λ f below free. elim (Bool-cases (f == 0)) [
    | inl first ↦
        let zero_frame : f ≡ 0 = ground arith in
        let both : true ≡ false =
          sym bitmap_marked ∙ ap (allocated_in_map frames marked) (sym zero_frame) ∙ free in
        cc
    | inr other ↦ ground arith
  ];
  entries = λ f i high lt present.
      let at_root : f ≡ 5 = root f (omega arith) in
      let both : false ≡ true =
        sym (root_absent i)
        ∙ ap (λ t. entry_is_present (entry marked t i)) (sym at_root)
        ∙ present in
      cc;
  parents = λ f i f' i' b (high, lt, present, base) second.
      let at_root : f ≡ 5 = root f (omega arith) in
      let both : false ≡ true =
        sym (root_absent i)
        ∙ ap (λ t. entry_is_present (entry marked t i)) (sym at_root)
        ∙ present in
      cc;
}

mmap-IsMmapped_example :
    EndsOr out_of_pages
      (λ u s'. IsMmapped frames 0x4000_1234 0x60_0000 5 role state s')
      (mmap (page_addr 5) 0x4000_1234 0x60_0000 true state)
mmap-IsMmapped_example =
    mmap-IsMmapped frames (omega arith) (omega arith) 0x4000_1234 0x60_0000 true (omega arith) role
      state 5 state-IsMapped refl

page_paddr_above_2gb_example :
    page_paddr (w64 (term_entry 0xC000_0000 true 0)) 0x1234
    ≢ 0xC000_0000 / 2 ^ 21 * 2 ^ 21 + 0x1234 % 2 ^ 21
page_paddr_above_2gb_example =
    page_paddr_above_2gb 0xC000_0000 0x1234 true 0 (omega arith) (omega arith)
