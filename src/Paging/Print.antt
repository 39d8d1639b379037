-- ===== src/Paging/Print.antt =====
-- kernel/page.c: `print_pg_table`.
use tvmm.Base.{ℕ, zero, suc, ◌+◌, ◌*◌, not, ◌==◌, if◌then◌else◌, List, [], ◌∷◌}
use tvmm.Base.Word.{w64}
use tvmm.Memory.{load64}
use tvmm.Console.{Console, Printed, ok, and_next, nth, printf}
use tvmm.Paging.{
  pgt_level_pml4, pgt_level_pd, get_field, entry_is_present, term_base, term_flags, non_term_base,
  next_table,
}
use tvmm.VmExit.{codes}

pub data TableLiteral : Type 0 where
  rule entry_line : TableLiteral

unfoldable pub table_literal : TableLiteral → List ℕ
table_literal rule = codes "-----------------------------------------\n"
table_literal entry_line = codes "level=%x, index=%x, base=%x, flags=%x\n"

abbrev pub non_term_flags : ℕ → ℕ
non_term_flags e = get_field 0 12 e

-- `at` says where the literals lie; `buf` is the buffer of `printf`.
module _ (at : TableLiteral → ℕ) (fuel buf : ℕ) where
  unfoldable pub print_entry : ℕ → ℕ → ℕ → ℕ → Console → Printed Console
  print_entry level i base flags =
      printf fuel buf (at entry_line) (nth (level ∷ i ∷ base ∷ flags ∷ []))

  -- The rounds of the loop from index `i` on; `lower` prints a table one level below. The entry is
  -- read again after the call of `printf`.
  unfoldable pub print_entries :
      (ℕ → Console → Printed Console) → ℕ → ℕ → ℕ → ℕ → Console → Printed Console
  print_entries lower level table zero i c = ok c
  print_entries lower level table (suc left) i c =
      let e = w64 (table + i * 8) in
      let x = load64 c.mem e in
      let rest : Console → Printed Console = print_entries lower level table left (i + 1) in
      if not (entry_is_present x)
      then rest c
      else (if level == pgt_level_pd
          then and_next (print_entry level i (term_base x) (term_flags x) c) rest
          else and_next (print_entry level i (non_term_base x) (non_term_flags x) c)
              (λ c1. and_next (lower (next_table c1.mem e) c1) rest))

  -- `__print_pg_table`; there are no levels below that of the page directory.
  unfoldable pub print_pg_table_at : ℕ → ℕ → Console → Printed Console
  print_pg_table_at zero table = ok
  print_pg_table_at (suc below) table =
      print_entries (print_pg_table_at below) (suc below) table 512 0

  unfoldable pub print_pg_table : ℕ → Console → Printed Console
  print_pg_table pml4_table_base_vaddr c = and_next (printf fuel buf (at rule) (nth []) c) (λ c1.
      and_next (print_pg_table_at pgt_level_pml4 pml4_table_base_vaddr c1)
        (printf fuel buf (at rule) (nth [])))
