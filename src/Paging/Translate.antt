-- ===== src/Paging/Translate.antt =====
-- A page that `mmap` has mapped is translated to its target.
use tvmm.Base.{
  ◌≢◌, inl, inr, ℕ, zero, suc, ◌+◌, ◌*◌, ◌/◌, ◌%◌, ◌^◌, ◌<◌, ◌≡◌, sym, ap, ◌∙◌, subst, arith, Bool,
  true,
}
use tvmm.Memory.{load64}
use tvmm.Memory.Laws.{load64_ext, load64-store64_self}
use tvmm.Kernel.{NaiveAllocator, State, done}
use tvmm.Kernel.Laws.{Ends-map, Ends, EndsOr, Ends-EndsOr, and_then-Ends}
use tvmm.Paging.{
  entry_is_present, non_term_base, term_entry, ensure_table, get_entry, mmap_at, mmap,
  vaddr_to_paddr_at, vaddr_to_paddr,
}
use tvmm.Paging.Fields.{term_entry-present, term_entry-2mb, page_paddr-lem}
use tvmm.Paging.Tables.{page_addr, slot, entry, IsAddressable, IsMapped}
use tvmm.Paging.Protect.{Protects, Protects-trans}
use tvmm.Failure.{out_of_pages}
use tvmm.Paging.Bounds.{mmap-Allocates}
use tvmm.Paging.Frame.{others-Stays}
use tvmm.Paging.Grow.{IsGrown}
use tvmm.Paging.Step.{
  off_pair, OnPath, with_page-other, not_leaf, mmap_at-step, vaddr_to_paddr_at-step, index,
  index-page, get_entry-lem, next_table-lem, IsReady, ensure_table-IsReady, with_page,
  with_page-IsGrown,
}

-- What `mmap` leaves at the root `f`.
pub record IsMmapped (n : NaiveAllocator) (v p f : ℕ) (role : ℕ → ℕ) (s s' : State) : Type 0 where
  pub role' : ℕ → ℕ
  pub mapped : IsMapped n role' s'
  pub protects : Protects n role s role' s'
  pub root_level : role' f ≡ 4
  pub translates :
      (v' : ℕ)
      → v' / 2 ^ 21 ≡ v / 2 ^ 21
      → vaddr_to_paddr (page_addr f) v' s' ≡ done (p / 2 ^ 21 * 2 ^ 21 + v' % 2 ^ 21) s'
  pub others :
      (v' a : ℕ)
      → v' / 2 ^ 21 % 2 ^ 27 ≢ v / 2 ^ 21 % 2 ^ 27
      → vaddr_to_paddr (page_addr f) v' s ≡ done a s
      → vaddr_to_paddr (page_addr f) v' s' ≡ done a s'

module _ (n : NaiveAllocator) (fits : IsAddressable n) (small : n.max_page < 2 ^ 40) (v p : ℕ)
    (user : Bool) (low : p < 2 ^ 31) where
  -- Every address of the page of `v` is translated into the page of `p`.
  abbrev pub Translates : ℕ → ℕ → State → Type 0
  Translates level f s =
      (v' : ℕ)
      → v' / 2 ^ 21 ≡ v / 2 ^ 21
      → vaddr_to_paddr_at level v' (page_addr f) s ≡ done (p / 2 ^ 21 * 2 ^ 21 + v' % 2 ^ 21) s

  -- After `mmap` at a table of level `k + 2`.
  pub record IsWritten (role : ℕ → ℕ) (s : State) (k f : ℕ) (s' : State) : Type 0 where
    pub role' : ℕ → ℕ
    pub grown : IsGrown n (k + 3) role s role' s'
    pub translates : Translates (suc (suc k)) f s'
    pub spared :
        (h j : ℕ)
        → 0 < role h
        → j < 512
        → ¬ OnPath v s.mem k f h j
        → entry s'.mem h j ≡ entry s.mem h j

  page-Translates :
      (role : ℕ → ℕ) (s : State) (ok : IsMapped n role s) (f : ℕ)
      → role f ≡ 2
      → Translates 2 f (with_page n fits role s ok f (index v 0) p user)
  unfolding vaddr_to_paddr_at
  page-Translates role s ok f level v' same =
      let s' = with_page n fits role s ok f (index v 0) p user in
      let e0 = load64 s.mem (slot f (index v 0)) in
      let below = (ok.tables f (omega arith)).0 in
      let stored = load64-store64_self s.mem (slot f (index v 0)) (term_entry p user e0) in
      rw
        (
          get_entry-lem n fits 0 v' f s' (omega arith) below,
          index-page 0 v v' (omega arith) same,
          stored,
          term_entry-present p user e0,
          term_entry-2mb p user e0,
        )
        (ap (λ t. done t s') (page_paddr-lem p v' user e0 low))

  table-Translates :
      (role : ℕ → ℕ) (s : State) (k f : ℕ)
      → k < 2
      → f < n.max_page
      → entry_is_present (entry s.mem f (index v (suc k))) ≡ true
      → non_term_base (entry s.mem f (index v (suc k))) < n.max_page
      → Translates (suc (suc k)) (non_term_base (entry s.mem f (index v (suc k)))) s
      → Translates (suc (suc (suc k))) f s
  unfolding vaddr_to_paddr_at
  table-Translates role s k f lt below present next rest v' same =
      let i = index v (suc k) in
      let found : get_entry (page_addr f) v' (suc (suc (suc k))) s ≡ done (slot f i) s =
        get_entry-lem n fits (suc k) v' f s (omega arith) below
        ∙ ap (λ t. done (slot f t) s) (index-page (suc k) v v' (omega arith) same) in
      vaddr_to_paddr_at-step (suc (suc k)) v' (page_addr f) s (slot f i) found (not_leaf k) present
      ∙ ap (λ t. vaddr_to_paddr_at (suc (suc k)) v' t s) (next_table-lem n fits s.mem f i next)
      ∙ rest v' same

  below_table-IsWritten :
      (role : ℕ → ℕ) (s : State) (k f : ℕ)
      → k < 2
      → (ok : IsMapped n role s) → role f ≡ suc k + 2
      → (s1 : State) (ready : IsReady n fits role s ok f (index v (suc k)) (suc (suc k)) s1)
        (s' : State)
      → IsWritten ready.role' s1 k (non_term_base (entry s1.mem f (index v (suc k)))) s'
      → IsWritten role s (suc k) f s'
  below_table-IsWritten role s k f lt ok level s1 ready s' written =
      let i = index v (suc k) in
      let level1 : ready.role' f ≡ suc k + 2 = ready.grown.levels f (omega arith) ∙ level in
      let e-same : entry s'.mem f i ≡ entry s1.mem f i =
        load64_ext s'.mem s1.mem (slot f i)
          (λ x lo hi. written.grown.kept f x (omega arith) (omega arith) (omega arith)) in
      let g = non_term_base (entry s1.mem f i) in
      let below = (ready.grown.mapped.tables g (omega (arith, ready.next_level))).0 in
      let base : non_term_base (entry s'.mem f i) ≡ g = ap non_term_base e-same in
      record {
        role' = written.role';
        grown = record {
          protects = Protects-trans n role s ready.grown.protects written.grown.protects;
          mapped = written.grown.mapped;
          kept = λ h x high lo hi.
              let first = ready.grown.levels h (omega arith) in
              written.grown.kept h x (omega (arith, first)) lo hi
              ∙ ready.grown.kept h x (omega arith) lo hi;
        };
        spared = λ h j some below off.
            written.spared h j (omega (arith, ready.grown.levels h some)) below
              (λ on. off (inr (ready.ahead v k h j some on)))
            ∙ ready.untouched h j some below (λ at. off (inl at));
        translates =
            table-Translates written.role' s' k f lt (ok.tables f (omega arith)).0
              (ap entry_is_present e-same ∙ ready.present) (omega (arith, base))
              (subst (λ t. Translates (suc (suc k)) t s') (sym base) written.translates);
      }

  page-IsWritten :
      (role : ℕ → ℕ) (s : State) (f : ℕ)
      → IsMapped n role s
      → role f ≡ 2
      → Ends (λ u s'. IsWritten role s 0 f s') (mmap_at 2 v p user (page_addr f) s)
  unfolding mmap_at
  page-IsWritten role s f ok level =
      rw (get_entry-lem n fits 0 v f s (omega arith) (ok.tables f (omega arith)).0) (record {
        role' = role;
        grown = with_page-IsGrown n fits role s ok f (index v 0) p user (omega arith) level;
        translates = page-Translates role s ok f level;
        spared = λ h j some below off.
            with_page-other n fits role s ok f (index v 0) p user h j (omega arith) below
              (off_pair h f j (index v 0) off);
      })

  mmap_at-IsWritten :
      (k : ℕ) (role : ℕ → ℕ) (s : State) (f : ℕ)
      → k < 3
      → IsMapped n role s
      → role f ≡ k + 2
      → Ends (λ u s'. IsWritten role s k f s') (mmap_at (suc (suc k)) v p user (page_addr f) s)
  mmap_at-IsWritten zero role s f lt ok level = page-IsWritten role s f ok level
  mmap_at-IsWritten (suc k) role s f lt ok level =
      let i = index v (suc k) in
      let found = get_entry-lem n fits (suc k) v f s (omega arith) (ok.tables f (omega arith)).0 in
      rw (mmap_at-step (suc (suc k)) v p user (page_addr f) s (slot f i) found (not_leaf k)) (
        and_then-Ends (λ u s1. IsReady n fits role s ok f i (suc (suc k)) s1)
          (λ u s'. IsWritten role s (suc k) f s') (ensure_table (slot f i) s) _
          (ensure_table-IsReady n fits role s ok f i (suc (suc k)) small (omega arith) (omega arith)
            (omega arith))
          (λ u s1 ready.
            let g = non_term_base (entry s1.mem f i) in
            let below = (ready.grown.mapped.tables g (omega (arith, ready.next_level))).0 in
            rw (next_table-lem n fits s1.mem f i below) (
              Ends-map (λ u s'. IsWritten ready.role' s1 k g s')
                (λ u s'. IsWritten role s (suc k) f s')
                (mmap_at (suc (suc k)) v p user (page_addr g) s1)
                (mmap_at-IsWritten k ready.role' s1 g (omega arith) ready.grown.mapped
                  (omega (arith, ready.next_level)))
                (λ u s' written.
                  below_table-IsWritten role s k f (omega arith) ok level s1 ready s' written))))

  pub mmap_lem :
      (role : ℕ → ℕ) (s : State) (f : ℕ)
      → IsMapped n role s
      → role f ≡ 4
      → Ends (λ u s'. IsMmapped n v p f role s s') (mmap (page_addr f) v p user s)
  unfolding mmap vaddr_to_paddr
  mmap_lem role s f ok level =
      Ends-map (λ u s'. IsWritten role s 2 f s') (λ u s'. IsMmapped n v p f role s s')
        (mmap_at 4 v p user (page_addr f) s) (mmap_at-IsWritten 2 role s f (omega arith) ok level)
        (λ u s' written. record {
          role' = written.role';
          mapped = written.grown.mapped;
          protects = written.grown.protects;
          root_level = written.grown.levels f (omega arith) ∙ level;
          translates = written.translates;
          others = λ v' a ne e. others-Stays n fits role s s' ok v' v f level ne written.spared a e;
        })

  -- In a state whose page tables are well-formed, with addressable frames, less than 2^40 of
  -- them, and a target below 2 GB: `mmap` stops with the allocator's failure `alloc_boot_pages`,
  -- with no other, or it returns. Then the tables are well-formed again, `vaddr_to_paddr`
  -- translates each address of the 2-Mbyte page of `v` to the same offset in the 2-Mbyte page of
  -- `p`, and what it translated outside that page (in the digits 21 to 47 of the address) it
  -- translates as before.
  pub mmap-IsMmapped :
      (role : ℕ → ℕ) (s : State) (f : ℕ)
      → IsMapped n role s
      → role f ≡ 4
      → EndsOr out_of_pages (λ u s'. IsMmapped n v p f role s s') (mmap (page_addr f) v p user s)
  mmap-IsMmapped role s f ok level =
      Ends-EndsOr out_of_pages (λ u s'. IsMmapped n v p f role s s') (λ u s'. s'.nalloc ≡ n)
        (mmap (page_addr f) v p user s) (mmap_lem role s f ok level)
        (mmap-Allocates n (omega (arith, small)) (page_addr f) v p user s ok.same)
