-- ===== src/Paging/Printed.antt =====
-- What `print_pg_table` prints.
use tvmm.Base.{
  ℕ, zero, suc, ◌+◌, ◌*◌, ◌≤◌, ◌<◌, ◌≡◌, ◌⊎◌, refl, subst, ap, ◌∙◌, arith, true, not, ◌==◌,
  if◌then◌else◌, Bool-cases, inl, inr, List, [], ◌∷◌, ◌++◌,
}
use tvmm.Base.Word.{w64}
use tvmm.Memory.{Mem, byte, load64}
use tvmm.Memory.Laws.{load64-bytes_ext}
use tvmm.Kernel.{NaiveAllocator, State}
use tvmm.Console.{Console, Printed, nth, printf}
use tvmm.Console.Hex.{hex}
use tvmm.Console.Render.{is_literal}
use tvmm.Console.Printer.{Placed, HoldsLiterals, Leaves, IsKept, printf-Leaves, and_next-Leaves}
use tvmm.Console.Terminal.{Terminal, type_text}
use tvmm.Console.Screen.{Shows}
use tvmm.Paging.{entry_is_present, term_base, term_flags, non_term_base, next_table}
use tvmm.Paging.Tables.{page_addr, slot, entry, IsAddressable, IsMapped}
use tvmm.Paging.Step.{next_table-lem}
use tvmm.VmExit.{codes}
use tvmm.Paging.Print.{
  TableLiteral, rule, entry_line, table_literal, non_term_flags, print_entry, print_entries,
  print_pg_table_at, print_pg_table,
}

abbrev entry_text : ℕ → ℕ → ℕ → ℕ → List ℕ
entry_text level i base flags =
    codes "level="
    ++ (hex level
        ++ (codes ", index="
            ++ (hex i
                ++ (codes ", base="
                    ++ (hex base ++ (codes ", flags=" ++ (hex flags ++ codes "\n")))))))

-- The present ones of `left` entries of the table in frame `f`, from the `i`th on. In the page
-- directory, at level 2, they are pages; above it each is followed by the table it leads to.
abbrev entries_text : Mem → (ℕ → List ℕ) → ℕ → ℕ → ℕ → ℕ → List ℕ
entries_text m lower level f zero i = []
entries_text m lower level f (suc left) i =
    let x = entry m f i in
    let rest = entries_text m lower level f left (i + 1) in
    if not (entry_is_present x)
    then rest
    else (if level == 2
        then entry_text level i (term_base x) (term_flags x) ++ rest
        else entry_text level i (non_term_base x) (non_term_flags x)
          ++ (lower (non_term_base x) ++ rest))

abbrev table_text : Mem → ℕ → ℕ → List ℕ
table_text m zero f = []
table_text m (suc below) f = entries_text m (table_text m below) (suc below) f 512 0

-- The tree of the tables under frame `f`, of level 4, between two rules.
abbrev pub tree_text : Mem → ℕ → List ℕ
tree_text m f =
    codes "-----------------------------------------\n"
    ++ (table_text m 4 f ++ codes "-----------------------------------------\n")

table_literal-formats : (l : TableLiteral) → is_literal (table_literal l) ≡ true
unfolding table_literal
table_literal-formats rule = refl
table_literal-formats entry_line = refl

module _ (at : TableLiteral → ℕ) (fuel buf : ℕ) (placed : Placed table_literal at fuel buf)
    (enough : 2048 ≤ fuel) where
  print_entry-Leaves :
      (level i base flags : ℕ) (c : Console) (screen : Terminal)
      → HoldsLiterals table_literal at fuel buf c.mem
      → Shows c.mem c screen
      → Leaves table_literal at fuel buf c.mem
          (type_text (entry_text level i base flags) screen)
          (print_entry at fuel buf level i base flags c)
  unfolding print_entry table_literal nth
  print_entry-Leaves level i base flags c screen holds shows =
      printf-Leaves table_literal at fuel buf placed enough entry_line
        (level ∷ i ∷ base ∷ flags ∷ []) c screen (table_literal-formats entry_line) holds shows

  rule-Leaves :
      (c : Console) (screen : Terminal)
      → HoldsLiterals table_literal at fuel buf c.mem
      → Shows c.mem c screen
      → Leaves table_literal at fuel buf c.mem
          (type_text (codes "-----------------------------------------\n") screen)
          (printf fuel buf (at rule) (nth []) c)
  unfolding table_literal
  rule-Leaves c screen =
      printf-Leaves table_literal at fuel buf placed enough rule [] c screen
        (table_literal-formats rule)

  module _ (n : NaiveAllocator) (fits : IsAddressable n) (role : ℕ → ℕ) (s : State)
      (mapped : IsMapped n role s)
      (apart : (f : ℕ) → 1 < role f → (page_addr f + 4096 ≤ buf) ⊎ (buf + 1024 ≤ page_addr f)) where
    abbrev Kept : Console → Type 0
    Kept c = IsKept table_literal at fuel buf s.mem c.mem

    -- What a printer of tables of a level leaves.
    abbrev Prints : (ℕ → Console → Printed Console) → (ℕ → List ℕ) → ℕ → Type 0
    Prints print text level =
        (f : ℕ) (c : Console) (screen : Terminal)
        → role f ≡ level
        → Kept c
        → HoldsLiterals table_literal at fuel buf c.mem
        → Shows c.mem c screen
        → Leaves table_literal at fuel buf c.mem (type_text (text f) screen) (print (page_addr f) c)

    entry-Kept :
        (f i : ℕ) (c : Console)
        → 1 < role f
        → i < 512
        → Kept c
        → load64 c.mem (slot f i) ≡ entry s.mem f i
    entry-Kept f i c high lt kept =
        load64-bytes_ext s.mem c.mem (slot f i)
          (λ x lo hi. kept x (omega (arith, apart f high)) (inr (omega arith)))

    entry_addr : (f i : ℕ) → 1 < role f → i < 512 → w64 (page_addr f + i * 8) ≡ slot f i
    entry_addr f i high lt = let (below, marked) = mapped.tables f (omega arith) in omega arith

    child_addr :
        (f i : ℕ) (c : Console)
        → 2 < role f
        → i < 512
        → Kept c
        → entry_is_present (entry s.mem f i) ≡ true
        → next_table c.mem (slot f i) ≡ page_addr (non_term_base (entry s.mem f i))
    child_addr f i c high lt kept present =
        let same = ap non_term_base (entry-Kept f i c (omega arith) lt kept) in
        let child = mapped.entries f i high lt present in
        let (below, marked) = mapped.tables (non_term_base (entry s.mem f i)) (omega arith) in
        next_table-lem n fits c.mem f i (omega (arith, same, below)) ∙ ap page_addr same

    module _ (lower : ℕ → Console → Printed Console) (lower_text : ℕ → List ℕ) (level f : ℕ)
        (table : 1 < level) (is : role f ≡ level)
        (prints : 2 < level → (l : ℕ) → l + 1 ≡ level → Prints lower lower_text l) where
      entries-Leaves :
          (left i : ℕ) (c : Console) (screen : Terminal)
          → i + left ≤ 512
          → Kept c
          → HoldsLiterals table_literal at fuel buf c.mem
          → Shows c.mem c screen
          → Leaves table_literal at fuel buf c.mem
              (type_text (entries_text s.mem lower_text level f left i) screen)
              (print_entries at fuel buf lower level (page_addr f) left i c)
      unfolding print_entries
      entries-Leaves zero i c screen within kept holds shows = (holds, (shows, λ x off out. refl))
      entries-Leaves (suc left) i c screen within kept holds shows =
          let x = entry s.mem f i in
          let high : 1 < role f = omega (arith, is) in
          let rest : List ℕ = entries_text s.mem lower_text level f left (i + 1) in
          let again : (c1 : Console) → IsKept table_literal at fuel buf c.mem c1.mem → Kept c1 =
            λ c1 kept1 x off out. kept1 x off out ∙ kept x off out in
          rw (entry_addr f i high (omega arith)) (
            rw (entry-Kept f i c high (omega arith) kept) (elim (Bool-cases (entry_is_present x)) [
              | inr absent ↦
                  rw absent (entries-Leaves left (i + 1) c screen (omega arith) kept holds shows)
              | inl present ↦ rw present (elim (Bool-cases (level == 2)) [
                | inl page ↦ rw page (
                    and_next-Leaves table_literal at fuel buf placed enough c.mem screen
                      (entry_text level i (term_base x) (term_flags x)) rest _ _
                      (print_entry-Leaves level i (term_base x) (term_flags x) c screen holds shows)
                      (λ c1 holds1 shows1 kept1.
                        entries-Leaves left (i + 1) c1 _ (omega arith) (again c1 kept1) holds1
                          shows1))
                | inr above ↦ rw above (
                    and_next-Leaves table_literal at fuel buf placed enough c.mem screen
                      (entry_text level i (non_term_base x) (non_term_flags x))
                      (lower_text (non_term_base x) ++ rest) _ _
                      (print_entry-Leaves level i (non_term_base x) (non_term_flags x) c screen
                        holds shows)
                      (λ c1 holds1 shows1 kept1.
                        let deep : 2 < level = ground (arith, above) in
                        let child : role (non_term_base x) + 1 ≡ role f =
                          mapped.entries f i (omega (arith, is)) (omega arith) present in
                        rw
                          (child_addr f i c1 (omega (arith, is)) (omega arith) (again c1 kept1)
                            present)
                          (and_next-Leaves table_literal at fuel buf placed enough c1.mem _
                            (lower_text (non_term_base x)) rest _ _
                            (prints deep (role (non_term_base x)) (child ∙ is) (non_term_base x) c1
                              _ refl (again c1 kept1) holds1 shows1)
                            (λ c2 holds2 shows2 kept2.
                              entries-Leaves left (i + 1) c2 _ (omega arith)
                                (λ x off out. kept2 x off out ∙ again c1 kept1 x off out) holds2
                                shows2))))
              ])
            ]))

    print_pg_table_at-Leaves :
        (k : ℕ)
        → Prints
            (print_pg_table_at at fuel buf (suc (suc k)))
            (table_text s.mem (suc (suc k)))
            (suc (suc k))
    unfolding print_pg_table_at
    print_pg_table_at-Leaves zero f c screen is =
        entries-Leaves (print_pg_table_at at fuel buf 1) (table_text s.mem 1) 2 f (omega arith) is
          (λ deep l e. absurd (omega arith)) 512 0 c screen (omega arith)
    print_pg_table_at-Leaves (suc k) f c screen is =
        entries-Leaves (print_pg_table_at at fuel buf (suc (suc k)))
          (table_text s.mem (suc (suc k))) (suc (suc (suc k))) f (omega arith) is
          (λ deep l e.
            subst
              (Prints (print_pg_table_at at fuel buf (suc (suc k)))
                (table_text s.mem (suc (suc k))))
              (omega (arith, e)) (print_pg_table_at-Leaves k))
          512 0 c screen (omega arith)

    -- If the page tables are well formed, every frame has a virtual address, frame `f` holds a
    -- table of level 4, and no table overlaps the buffer of `printf`; the screen shows a terminal
    -- with the cursor on it, memory holds the literals of the function at places outside the video
    -- memory and the buffer, these two lie apart, and the fuel is 2048 or more: `print_pg_table`
    -- returns. The screen shows the terminal on which the tree was typed: a line for each present
    -- entry of the table in its order, with its level, index, base and flags, each followed by the
    -- table it leads to, down to the pages. No other byte has changed.
    pub print_pg_table-Leaves :
        (f : ℕ) (c : Console) (screen : Terminal)
        → role f ≡ 4
        → c.mem ≡ s.mem
        → HoldsLiterals table_literal at fuel buf c.mem
        → Shows c.mem c screen
        → Leaves table_literal at fuel buf c.mem
            (type_text (tree_text s.mem f) screen)
            (print_pg_table at fuel buf (page_addr f) c)
    unfolding print_pg_table
    print_pg_table-Leaves f c screen is same holds shows =
        let dashes = codes "-----------------------------------------\n" in
        let before : Kept c = λ x off out. ap (λ m. byte m x) same in
        and_next-Leaves table_literal at fuel buf placed enough c.mem screen dashes
          (table_text s.mem 4 f ++ dashes) _ _ (rule-Leaves c screen holds shows)
          (λ c1 holds1 shows1 kept1.
            and_next-Leaves table_literal at fuel buf placed enough c1.mem (type_text dashes screen)
              (table_text s.mem 4 f) dashes _ _
              (print_pg_table_at-Leaves 2 f c1 _ is
                (λ x off out. kept1 x off out ∙ before x off out) holds1 shows1)
              (λ c2 holds2 shows2 kept2. rule-Leaves c2 _ holds2 shows2))
