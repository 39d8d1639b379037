-- ===== src/Paging.antt =====
-- kernel/page.c: page tables of three levels that map 2-Mbyte pages. A table is a page in memory,
-- at the kernel's virtual address of its frame, and an entry is a word of 64 bits.
pub mod Bounds
pub mod Fields
pub mod Tables
pub mod Same
pub mod Protect
pub mod Grow
pub mod Step
pub mod Translate
pub mod Frame
pub mod Aside
pub mod Given
pub mod Root
pub mod Booted
pub mod Supply
pub mod Print
pub mod Printed
mod PrintTests
mod Tests
use tvmm.Base.{
  ℕ, zero, suc, ◌+◌, ◌-◌, ◌*◌, ◌/◌, ◌%◌, ◌^◌, Bool, true, false, not, ◌==◌, ◌!=◌, bit_and, bit_or,
  if◌then◌else◌,
}
use tvmm.Base.Word.{w64, w32, shl64, shr, sign_extend}
use tvmm.Memory.{Mem, load64, store64}
use tvmm.CString.{memset}
use tvmm.Page.{
  page_shift, page_size, page_shift_2mb, present_flag, rw_flag, us_flag, page_size_flag, virt,
}
use tvmm.Failure.{wrong_level, not_present, not_2mb_page}
use tvmm.Kernel.{State, Kernel, done, fatal, pure, fail, update_mem, ◌>>=◌, ◌>>◌}
use tvmm.Alloc.{alloc_pages}

-- `enum pg_table_level`.
abbrev pub pgt_level_pml4 : ℕ
pgt_level_pml4 = 4

abbrev pub pgt_level_pdp : ℕ
pgt_level_pdp = 3

abbrev pub pgt_level_pd : ℕ
pgt_level_pd = 2

-- A bit field: its value, and an assignment to it, of `len` bits from bit `lo` on.
unfoldable pub get_field : ℕ → ℕ → ℕ → ℕ
get_field lo len e = e / 2 ^ lo % 2 ^ len

unfoldable pub set_field : ℕ → ℕ → ℕ → ℕ → ℕ
set_field lo len v e = e / 2 ^ (lo + len) * 2 ^ (lo + len) + v % 2 ^ len * 2 ^ lo + e % 2 ^ lo

-- The fields of `union pgt_entry`.
abbrev pub non_term_base : ℕ → ℕ
non_term_base e = get_field 12 40 e

abbrev pub set_non_term_base : ℕ → ℕ → ℕ
set_non_term_base v e = set_field 12 40 v e

abbrev pub set_non_term_flags : ℕ → ℕ → ℕ
set_non_term_flags v e = set_field 0 12 v e

abbrev pub term_base : ℕ → ℕ
term_base e = get_field 21 31 e

abbrev pub set_term_base : ℕ → ℕ → ℕ
set_term_base v e = set_field 21 31 v e

abbrev pub term_flags : ℕ → ℕ
term_flags e = get_field 0 21 e

abbrev pub set_term_flags : ℕ → ℕ → ℕ
set_term_flags v e = set_field 0 21 v e

unfoldable pub pg_table_create : Kernel ℕ
pg_table_create = do
  pfn ← alloc_pages 1 1
  let paddr = shl64 pfn page_shift
  update_mem (λ m. memset m (virt paddr) 0 page_size)
  pure paddr

unfoldable pub pml4_table_create : Kernel ℕ
pml4_table_create = pg_table_create

unfoldable pub get_index : ℕ → ℕ → Kernel ℕ
get_index vaddr level =
    if level == pgt_level_pml4
    then pure (bit_and (shr vaddr 39) (2 ^ 9 - 1))
    else (if level == pgt_level_pdp
        then pure (bit_and (shr vaddr 30) (2 ^ 9 - 1))
        else (if level == pgt_level_pd
            then pure (bit_and (shr vaddr 21) (2 ^ 9 - 1))
            else fail wrong_level))

-- The address of the entry.
unfoldable pub get_entry : ℕ → ℕ → ℕ → Kernel ℕ
get_entry pg_table_base_vaddr vaddr level = do
  index ← get_index vaddr level
  pure (w64 (pg_table_base_vaddr + index * 8))

unfoldable pub entry_is_present : ℕ → Bool
entry_is_present x = bit_and (term_flags x) present_flag != 0

-- The stores of a page directory entry, in the order of the source.
unfoldable pub term_entry : ℕ → Bool → ℕ → ℕ
term_entry paddr is_user e =
    let e1 = set_term_base (shr paddr page_shift_2mb) e in
    let e2 = set_term_flags (present_flag + rw_flag + page_size_flag) e1 in
    if is_user then set_term_flags (bit_or (term_flags e2) us_flag) e2 else e2

unfoldable pub non_term_entry : ℕ → ℕ → ℕ
non_term_entry paddr e =
    set_non_term_flags (present_flag + rw_flag + us_flag)
      (set_non_term_base (shr paddr page_shift) e)

-- `if ( ! entry_is_present ( e ) )`: a new table below the entry.
unfoldable pub ensure_table : ℕ → Kernel (Unit {0})
ensure_table e s =
    if entry_is_present (load64 s.mem e)
    then done tt s
    else (pg_table_create >>= λ paddr.
          update_mem (λ m. store64 m e (non_term_entry paddr (load64 m e))))
        s

unfoldable pub next_table : Mem → ℕ → ℕ
next_table m e = virt (shl64 (non_term_base (load64 m e)) page_shift)

-- `__mmap`; the recursion is on the level.
unfoldable pub mmap_at : ℕ → ℕ → ℕ → Bool → ℕ → Kernel (Unit {0})
mmap_at zero vaddr paddr is_user pg_table_base_vaddr = fail wrong_level
mmap_at (suc below) vaddr paddr is_user pg_table_base_vaddr =
    get_entry pg_table_base_vaddr vaddr (suc below) >>= λ e.
    if suc below == pgt_level_pd
    then update_mem (λ m. store64 m e (term_entry paddr is_user (load64 m e)))
    else (ensure_table e >> λ s. mmap_at below vaddr paddr is_user (next_table s.mem e) s)

unfoldable pub mmap : ℕ → ℕ → ℕ → Bool → Kernel (Unit {0})
mmap pml4_table_base_vaddr vaddr paddr is_user =
    mmap_at pgt_level_pml4 vaddr paddr is_user pml4_table_base_vaddr

-- `term.base << PAGE_SHIFT_2MB`: a bit field of 31 bits is promoted to `int`, so the shift keeps
-- 32 bits, and the sum widens them with their sign.
unfoldable pub page_paddr : ℕ → ℕ → ℕ
page_paddr e vaddr =
    w64 (
      sign_extend (w32 (term_base e * 2 ^ page_shift_2mb)) + bit_and vaddr (2 ^ page_shift_2mb - 1))

-- `__vaddr_to_paddr`.
unfoldable pub vaddr_to_paddr_at : ℕ → ℕ → ℕ → Kernel ℕ
vaddr_to_paddr_at zero vaddr pg_table_base_vaddr = fail wrong_level
vaddr_to_paddr_at (suc below) vaddr pg_table_base_vaddr =
    get_entry pg_table_base_vaddr vaddr (suc below) >>= λ e s.
    let rest = vaddr_to_paddr_at below vaddr (next_table s.mem e) s in
    let entry = load64 s.mem e in
    if not (entry_is_present entry)
    then fail not_present s
    else (if suc below == pgt_level_pd
        then (if bit_and (term_flags entry) page_size_flag == 0
            then fail not_2mb_page s
            else done (page_paddr entry vaddr) s)
        else rest)

unfoldable pub vaddr_to_paddr : ℕ → ℕ → Kernel ℕ
vaddr_to_paddr pml4_table_base_vaddr vaddr =
    vaddr_to_paddr_at pgt_level_pml4 vaddr pml4_table_base_vaddr
