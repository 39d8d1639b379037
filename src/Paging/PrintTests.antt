-- ===== src/Paging/PrintTests.antt =====
-- A root table in frame 5, whose first entry leads to an empty table in frame 6.
use tvmm.Base.{
  ℕ, ◌+◌, ◌*◌, ◌<◌, ◌≡◌, refl, sym, ap, ◌∙◌, arith, true, false, ◌==◌, ◌&&◌, ltb, Bool-cases, inl,
  inr, if◌then◌else◌, List, [], ◌∷◌,
}
use tvmm.Memory.{Mem, byte, load64, load_bytes}
use tvmm.CString.Strings.{HoldsString-ext}
use tvmm.Page.{vmm_offset}
use tvmm.Kernel.{NaiveAllocator, State}
use tvmm.Alloc.{allocated_in_map, word, get_alloc_bitmap_idx, get_alloc_bitmap_offset}
use tvmm.Console.{Console, cols, video_mem}
use tvmm.Console.Printer.{HoldsLiterals, Leaves}
use tvmm.Console.Sample.{IsNumbered, place, literal_mem, literal_mem-HoldsLiterals, place-Placed}
use tvmm.Console.Terminal.{Terminal, type_text}
use tvmm.Console.Screen.{Shows}
use tvmm.Paging.{get_field, entry_is_present, non_term_base}
use tvmm.Paging.Fields.{present-lem}
use tvmm.Paging.Tables.{IsMapped, page_addr, slot, entry, load_bytes-zeros}
use tvmm.Paging.Print.{TableLiteral, rule, entry_line, table_literal, print_pg_table}
use tvmm.Paging.Printed.{tree_text, print_pg_table-Leaves}

abbrev texts : List TableLiteral
texts = rule ∷ entry_line ∷ []

abbrev number : TableLiteral → ℕ
number rule = 0
number entry_line = 1

number-IsNumbered : IsNumbered table_literal texts number
unfolding table_literal
number-IsNumbered rule = (refl, refl)
number-IsNumbered entry_line = (refl, refl)

abbrev low : Mem
low = literal_mem table_literal texts number

-- The digits 0, 5 and 6 of the bitmap's first word, and the entry.
abbrev memory : Mem
memory a =
    if ltb a vmm_offset
    then low a
    else (if a == vmm_offset
        then 97
        else (if a == vmm_offset + 0x5000
            then 7
            else (if a == vmm_offset + 0x5001 then 0x60 else 0)))

abbrev frames : NaiveAllocator
frames = record { alloc_bitmap = vmm_offset; max_page = 64 }

abbrev state : State
state = record { mem = memory; nalloc = frames }

abbrev role : ℕ → ℕ
role f = if f == 5 then 4 else (if f == 6 then 3 else 0)

marks :
    (allocated_in_map frames memory 0 ≡ true)
    × ((allocated_in_map frames memory 5 ≡ true) × (allocated_in_map frames memory 6 ≡ true))
unfolding allocated_in_map word get_alloc_bitmap_idx get_alloc_bitmap_offset load64 load_bytes
marks = (refl, (refl, refl))

leads_on : non_term_base (entry memory 5 0) ≡ 6
unfolding get_field load64 load_bytes
leads_on = refl

others_absent :
    (f i : ℕ)
    → 1 < role f
    → i < 512
    → entry_is_present (entry memory f i) ≡ true
    → (f ≡ 5) × (i ≡ 0)
unfolding load64
others_absent f i high lt present = elim (Bool-cases (f == 5 && i == 0)) [
  | inl first ↦ (ground (arith, first), ground (arith, first))
  | inr other ↦
      let zeros : load64 memory (slot f i) ≡ 0 =
        load_bytes-zeros 8 memory (slot f i) (λ x lo hi. ground (arith, other, high)) in
      let both : false ≡ true = sym (ap entry_is_present zeros ∙ present-lem 0) ∙ present in cc
]

state-IsMapped : IsMapped frames role state
state-IsMapped = record {
  same = refl;
  tables = λ f some. elim (Bool-cases (f == 5)) [
    | inl root ↦ let is : f ≡ 5 = ground (arith, root) in rw is (omega arith, marks.1.0)
    | inr other ↦ let is : f ≡ 6 = ground (arith, other, some) in rw is (omega arith, marks.1.1)
  ];
  tables_above = λ f some. ground (arith, some);
  free_above = λ f below free. elim (Bool-cases (f == 0)) [
    | inl first ↦
        let is : f ≡ 0 = ground (arith, first) in
        let both : true ≡ false =
          sym marks.0 ∙ ap (allocated_in_map frames memory) (sym is) ∙ free in
        cc
    | inr other ↦ ground (arith, other)
  ];
  entries = λ f i high lt present.
      let (root, first) = others_absent f i (omega arith) lt present in
      rw (root, first, leads_on) refl;
  parents = λ f i f' i' b (high, lt, present, base) (high', lt', present', base').
      let (root, first) = others_absent f i (omega arith) lt present in
      let (root', first') = others_absent f' i' (omega arith) lt' present' in
      (omega (arith, root, root'), omega (arith, first, first'));
}

abbrev console : Console
console = record { mem = memory; orig_x = 0; orig_y = 0 }

abbrev screen : Terminal
screen = record { cell = λ y x. byte memory (video_mem + (x + cols * y) * 2); x = 0; y = 0 }

console-Shows : Shows memory console screen
console-Shows = record {
  at_x = refl;
  at_y = refl;
  on_screen = (omega arith, omega arith);
  cells = λ y x below left. refl;
  outside = λ x out. refl;
}

abbrev at : TableLiteral → ℕ
at = place table_literal texts number

memory-HoldsLiterals : HoldsLiterals table_literal at 2048 0x2000 memory
memory-HoldsLiterals l =
    HoldsString-ext low memory (at l) (table_literal l)
      (λ x lo hi.
        let near : ltb x vmm_offset ≡ true = ground (arith, hi, (number-IsNumbered l).1) in
        rw near refl)
      (literal_mem-HoldsLiterals table_literal texts number number-IsNumbered l)

print_pg_table-Leaves_example :
    Leaves table_literal at 2048 0x2000 memory
      (type_text (tree_text memory 5) screen)
      (print_pg_table at 2048 0x2000 (page_addr 5) console)
print_pg_table-Leaves_example =
    print_pg_table-Leaves at 2048 0x2000 (place-Placed table_literal texts number) (omega arith)
      frames (omega arith) role state state-IsMapped (λ f high. inr (omega arith)) 5 console screen
      refl refl memory-HoldsLiterals console-Shows
