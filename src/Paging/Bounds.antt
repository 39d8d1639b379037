-- ===== src/Paging/Bounds.antt =====
-- Commands on page tables of the levels 2 to 4 end, keep the allocator's variables, and stop with no
-- failure but the allocator's, when no page is left.
use tvmm.Base.{
  ℕ, zero, suc, ◌+◌, ◌*◌, ◌^◌, ◌<◌, ◌≡◌, refl, ap, arith, Bool, Bool-cases, inl, inr, subst,
}
use tvmm.Base.Word.{w64}
use tvmm.Failure.{out_of_pages}
use tvmm.Kernel.{NaiveAllocator, State, Run, Kernel, done, and_then}
use tvmm.Kernel.Laws.{EndsOr, EndsOr-Ends, and_then-EndsOr, Keeps}
use tvmm.Memory.{load64}
use tvmm.Alloc.{alloc_pages}
use tvmm.Alloc.FirstFit.{Outcome, allocated, exhausted, alloc_pages-Outcome}
use tvmm.Paging.{
  pg_table_create, get_entry, entry_is_present, ensure_table, mmap_at, mmap, next_table,
}
use tvmm.Paging.Step.{index, get_index-lem, mmap_at-step, not_leaf}

-- The run returns with the allocator's variables as they are in `n`, or no page was left.
abbrev pub Allocates : NaiveAllocator → {A : Type 0} → Run A → Type 0
Allocates n r = EndsOr out_of_pages (λ a s. s.nalloc ≡ n) r

pub and_then-Allocates :
    (n : NaiveAllocator) {A B : Type 0} (r : Run A) (k : A → Kernel B)
    → Allocates n r
    → ((a : A) (s : State) → s.nalloc ≡ n → Allocates n (k a s))
    → Allocates n (and_then r k)
and_then-Allocates n r k first rest =
    and_then-EndsOr out_of_pages (λ a s. s.nalloc ≡ n) (λ b s. s.nalloc ≡ n) r k first rest

Outcome-Allocates :
    (s : State) (nr align : ℕ) {r : Run ℕ} → Outcome s nr align r → Allocates s.nalloc r
Outcome-Allocates s nr align (allocated fit) = fit.same_allocator
Outcome-Allocates s nr align (exhausted full) = refl

Allocates-Keeps : (n : NaiveAllocator) {A : Type 0} (r : Run A) → Allocates n r → Keeps n r
Allocates-Keeps n r h = EndsOr-Ends out_of_pages (λ a s. s.nalloc ≡ n) r h

-- An entry at a level from 2 to 4 is found, whatever the table.
get_entry_anywhere :
    (k v base : ℕ) (s : State)
    → k < 3
    → get_entry base v (suc (suc k)) s ≡ done (w64 (base + index v k * 8)) s
unfolding get_entry
get_entry_anywhere k v base s lt = rw (get_index-lem k v s lt) refl

module _ (n : NaiveAllocator) (small : n.max_page < 2 ^ 52) where
  alloc_pages-Allocates :
      (s : State) (nr align : ℕ)
      → s.nalloc ≡ n
      → 0 < align
      → align < 2 ^ 52
      → nr < 2 ^ 52
      → Allocates n (alloc_pages nr align s)
  alloc_pages-Allocates s nr align same pos few short =
      let bound : s.nalloc.max_page + align + nr < 2 ^ 64 =
        omega (arith, ap (λ x. x.max_page) same) in
      subst (λ t. Allocates t (alloc_pages nr align s)) same
        (Outcome-Allocates s nr align (alloc_pages-Outcome s nr align pos bound))

  pub pg_table_create-Allocates : (s : State) → s.nalloc ≡ n → Allocates n (pg_table_create s)
  unfolding pg_table_create
  pg_table_create-Allocates s same =
      and_then-Allocates n (alloc_pages 1 1 s) _
        (alloc_pages-Allocates s 1 1 same (omega arith) (omega arith) (omega arith))
        (λ pfn s1 same1. same1)

  ensure_table-Allocates : (e : ℕ) (s : State) → s.nalloc ≡ n → Allocates n (ensure_table e s)
  unfolding ensure_table
  ensure_table-Allocates e s same = elim (Bool-cases (entry_is_present (load64 s.mem e))) [
    | inl present ↦ rw present same
    | inr missing ↦ rw missing (
        and_then-Allocates n (pg_table_create s) _ (pg_table_create-Allocates s same)
          (λ p s1 same1. same1))
  ]

  mmap_at-Allocates :
      (k v p : ℕ) (user : Bool) (base : ℕ) (s : State)
      → k < 3
      → s.nalloc ≡ n
      → Allocates n (mmap_at (suc (suc k)) v p user base s)
  unfolding mmap_at
  mmap_at-Allocates zero v p user base s lt same = rw (get_entry_anywhere 0 v base s lt) same
  mmap_at-Allocates (suc k) v p user base s lt same =
      let e : ℕ = w64 (base + index v (suc k) * 8) in
      rw
        (mmap_at-step (suc (suc k)) v p user base s e (get_entry_anywhere (suc k) v base s lt)
          (not_leaf k))
        (and_then-Allocates n (ensure_table e s) _ (ensure_table-Allocates e s same)
          (λ u s1 same1. mmap_at-Allocates k v p user (next_table s1.mem e) s1 (omega arith) same1))

  pub mmap-Allocates :
      (root v p : ℕ) (user : Bool) (s : State) → s.nalloc ≡ n → Allocates n (mmap root v p user s)
  unfolding mmap
  mmap-Allocates root v p user s same = mmap_at-Allocates 2 v p user root s (omega arith) same

  pub alloc_pages-Keeps :
      (s : State) (nr align : ℕ)
      → s.nalloc ≡ n
      → 0 < align
      → align < 2 ^ 52
      → nr < 2 ^ 52
      → Keeps n (alloc_pages nr align s)
  alloc_pages-Keeps s nr align same pos few short =
      Allocates-Keeps n (alloc_pages nr align s)
        (alloc_pages-Allocates s nr align same pos few short)
