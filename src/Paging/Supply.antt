-- ===== src/Paging/Supply.antt =====
-- How many free pages the operations on page tables take.
use tvmm.Base.{
  ℕ, zero, suc, ◌+◌, ◌^◌, ◌≤◌, ◌<◌, ◌≡◌, subst, ap, ◌∙◌, arith, Bool, false, inl, inr, Bool-cases,
}
use tvmm.Base.Word.{shl64}
use tvmm.Memory.{load64, store64}
use tvmm.Memory.Laws.{store64_outside}
use tvmm.CString.{memset}
use tvmm.CString.Laws.{memset_lem}
use tvmm.Page.{virt}
use tvmm.Kernel.{NaiveAllocator, State}
use tvmm.Kernel.Success.{Succeeds, Succeeds-map, both-Succeeds, and_then-Succeeds}
use tvmm.Alloc.{allocated_in_map, alloc_pages}
use tvmm.Alloc.FirstFit.{IsFirstFit}
use tvmm.Alloc.Supply.{HasFree, HasFree-later, Supplied, alloc_pages-Supplied}
use tvmm.Paging.{
  entry_is_present, non_term_base, pg_table_create, ensure_table, mmap_at, mmap, term_entry,
}
use tvmm.Paging.Tables.{page_addr, slot, entry, bitmap_end, IsAddressable, IsMapped, allocated_ext}
use tvmm.Paging.Step.{
  index, get_entry-lem, next_table-lem, mmap_at-step, not_leaf, IsReady, ensure_table-IsReady,
}

module _ (n : NaiveAllocator) (fits : IsAddressable n) (e : ℕ) (inside : e < n.max_page) where
  -- A write behind the bitmap takes no page.
  pub HasFree-written :
      (b : ℕ) (s s' : State)
      → ((x : ℕ) → x < bitmap_end n → s'.mem x ≡ s.mem x)
      → HasFree n b e s
      → HasFree n b e s'
  HasFree-written b s s' same free p lo hi =
      allocated_ext n s'.mem s.mem p (omega arith) same ∙ free p lo hi

  module _ (role : ℕ → ℕ) (s : State) (ok : IsMapped n role s) where
    -- A free frame that was handed out is filled.
    pub filled-HasFree :
        (nr align pfn c k b : ℕ) (s1 : State)
        → 0 < nr
        → IsFirstFit s nr align pfn s1
        → HasFree n b e s1
        → HasFree n b e (record s1 { mem = memset s1.mem (virt (shl64 pfn 12)) c k })
    filled-HasFree nr align pfn c k b s1 some fit free =
        let max : s.nalloc.max_page ≡ n.max_page = ap (λ t. t.max_page) ok.same in
        let below : pfn < n.max_page = omega (arith, fit.within) in
        let at : virt (shl64 pfn 12) ≡ page_addr pfn = omega arith in
        let was : allocated_in_map n s.mem pfn ≡ false =
          subst (λ t. allocated_in_map t s.mem pfn ≡ false) ok.same
            (fit.was_free pfn (omega arith) (omega arith)) in
        let above = ok.free_above pfn below was in
        HasFree-written b s1 (record s1 { mem = memset s1.mem (virt (shl64 pfn 12)) c k })
          (λ x lt. memset_lem k s1.mem (virt (shl64 pfn 12)) c x ∙ ground (arith, above, at)) free

    pub pg_table_create-HasFree :
        (b : ℕ)
        → b + 1 ≤ e
        → HasFree n b e s
        → Succeeds (λ a s'. HasFree n (b + 1) e s') (pg_table_create s)
    unfolding pg_table_create
    pg_table_create-HasFree b le free =
        and_then-Succeeds
          (Supplied n e inside s ok.same b free 1 1 b (omega arith) (omega arith) le)
          (λ a s'. HasFree n (b + 1) e s') (alloc_pages 1 1 s) _
          (alloc_pages-Supplied n e inside s ok.same b free 1 1 b (omega arith) (omega arith) le
            (omega arith) (omega (arith, fits)))
          (λ pfn s1 (fit, left). filled-HasFree 1 1 pfn 0 4096 (b + 1) s1 (omega arith) fit left)

    -- An entry of a table is written.
    slot-HasFree :
        (f i w b : ℕ) (s1 : State)
        → 0 < role f
        → i < 512
        → HasFree n b e s1
        → HasFree n b e (record s1 { mem = store64 s1.mem (slot f i) w })
    slot-HasFree f i w b s1 some lt =
        let above = ok.tables_above f some in
        HasFree-written b s1 (record s1 { mem = store64 s1.mem (slot f i) w })
          (λ x hi. store64_outside s1.mem (slot f i) w x (inl (omega arith)))

    ensure_table-HasFree :
        (f i b : ℕ)
        → 0 < role f
        → i < 512
        → b + 1 ≤ e
        → HasFree n b e s
        → Succeeds (λ u s'. HasFree n (b + 1) e s') (ensure_table (slot f i) s)
    unfolding ensure_table
    ensure_table-HasFree f i b some lt le free =
        elim (Bool-cases (entry_is_present (entry s.mem f i))) [
          | inl present ↦ rw present (HasFree-later n e inside b (b + 1) s (omega arith) free)
          | inr missing ↦ rw missing (
              and_then-Succeeds (λ a s'. HasFree n (b + 1) e s') (λ u s'. HasFree n (b + 1) e s')
                (pg_table_create s) _ (pg_table_create-HasFree b le free)
                (λ paddr s1 left. slot-HasFree f i _ (b + 1) s1 some lt left))
        ]

  module _ (small : n.max_page < 2 ^ 40) (v p : ℕ) (user : Bool) where
    -- A page for each level above the last one.
    mmap_at-HasFree :
        (k : ℕ) (role : ℕ → ℕ) (s : State) (f b : ℕ)
        → k < 3
        → IsMapped n role s
        → role f ≡ k + 2
        → b + k ≤ e
        → HasFree n b e s
        → Succeeds (λ u s'. HasFree n (b + k) e s') (mmap_at (suc (suc k)) v p user (page_addr f) s)
    unfolding mmap_at
    mmap_at-HasFree zero role s f b lt ok level le free =
        rw (get_entry-lem n fits 0 v f s (omega arith) (ok.tables f (omega arith)).0) (
          HasFree-later n e inside b (b + 0)
            (record s {
              mem =
                  store64 s.mem (slot f (index v 0))
                    (term_entry p user (load64 s.mem (slot f (index v 0))));
            })
            (omega arith)
            (slot-HasFree role s ok f (index v 0) _ b s (omega arith) (omega arith) free))
    mmap_at-HasFree (suc k) role s f b lt ok level le free =
        let i = index v (suc k) in
        let found =
          get_entry-lem n fits (suc k) v f s (omega arith) (ok.tables f (omega arith)).0 in
        rw (mmap_at-step (suc (suc k)) v p user (page_addr f) s (slot f i) found (not_leaf k)) (
          and_then-Succeeds
            (λ u s1. IsReady n fits role s ok f i (suc (suc k)) s1 × HasFree n (b + 1) e s1)
            (λ u s'. HasFree n (b + suc k) e s') (ensure_table (slot f i) s) _
            (both-Succeeds (λ u s1. IsReady n fits role s ok f i (suc (suc k)) s1)
              (λ u s1. HasFree n (b + 1) e s1) (ensure_table (slot f i) s)
              (ensure_table-IsReady n fits role s ok f i (suc (suc k)) small (omega arith)
                (omega arith) (omega arith))
              (ensure_table-HasFree role s ok f i b (omega arith) (omega arith) (omega arith) free))
            (λ u s1 (ready, left).
              let g = non_term_base (entry s1.mem f i) in
              let below = (ready.grown.mapped.tables g (omega (arith, ready.next_level))).0 in
              rw (next_table-lem n fits s1.mem f i below) (
                Succeeds-map (λ u s'. HasFree n (b + 1 + k) e s')
                  (λ u s'. HasFree n (b + suc k) e s') _
                  (mmap_at-HasFree k ready.role' s1 g (b + 1) (omega arith) ready.grown.mapped
                    (omega (arith, ready.next_level)) (omega arith) left)
                  (λ u s' rest.
                    HasFree-later n e inside (b + 1 + k) (b + suc k) s' (omega arith) rest))))

    pub mmap-HasFree :
        (role : ℕ → ℕ) (s : State) (f b : ℕ)
        → IsMapped n role s
        → role f ≡ 4
        → b + 2 ≤ e
        → HasFree n b e s
        → Succeeds (λ u s'. HasFree n (b + 2) e s') (mmap (page_addr f) v p user s)
    unfolding mmap
    mmap-HasFree role s f b = mmap_at-HasFree 2 role s f b (omega arith)
