-- ===== src/Alloc/History.antt =====
-- Any sequence of calls of `alloc_pages` from the booted state.
use tvmm.Base.{
  ℕ, ◌+◌, ◌^◌, ◌≤◌, ◌<◌, ◌≡◌, refl, sym, ap, ◌∙◌, subst, arith, Bool, true, false, ◌||◌, Bool-cases,
  or-true, or-none, inl, inr, List, [], ◌∷◌,
}
use tvmm.Kernel.{State, Run, done}
use tvmm.E820.{E820Map}
use tvmm.E820.Region.{in_ram}
use tvmm.Alloc.{PmemLayout, allocated_in_map, alloc_pages}
use tvmm.Alloc.Digit.{in_range}
use tvmm.Alloc.FirstFit.{IsFirstFit, Outcome, allocated, exhausted, alloc_pages-Outcome}
use tvmm.Alloc.Init.{IsSpare}
use tvmm.Alloc.Boot.{IsBooted, Started, no_heap, started}

-- A successful call has the promised result.
pub Outcome-done :
    {s : State} {nr align pfn : ℕ} {s' : State} {r : Run ℕ}
    → Outcome s nr align r
    → r ≡ done pfn s'
    → IsFirstFit s nr align pfn s'
Outcome-done {s} {nr} {align} {pfn} {s'} (allocated {pfn = p0} {s' = s0} fit) e =
    let same_pfn : p0 ≡ pfn = cc in
    let same_state : s0 ≡ s' = cc in
    subst (λ t. IsFirstFit s nr align pfn t) same_state
      (subst (λ t. IsFirstFit s nr align t s0) same_pfn fit)
Outcome-done (exhausted blocked) e = cc

-- A successful start leaves the booted state.
pub Started-done :
    {end_symbol : ℕ} {e820 : E820Map} {pml pml' : PmemLayout} {s s' : State} {r : Run PmemLayout}
    → Started end_symbol e820 pml s r
    → r ≡ done pml' s'
    → IsBooted end_symbol e820 pml pml' s'
Started-done (no_heap full) e = cc
Started-done {end_symbol} {e820} {pml} {pml'} {s'} (started {pml' = l0} {s' = s0} b) e =
    let same_layout : l0 ≡ pml' = cc in
    let same_state : s0 ≡ s' = cc in
    subst (λ t. IsBooted end_symbol e820 pml pml' t) same_state
      (subst (λ t. IsBooted end_symbol e820 pml t s0) same_layout b)

-- The runs handed out so far, the latest first: frame number and length.
abbrev pub Runs : Type 0
Runs = List (ℕ × ℕ)

module _ (end_symbol : ℕ) (e820 : E820Map) (pml pml' : PmemLayout) where
  -- `other` is whatever the kernel does between two calls that leaves the allocator's variables
  -- and the pages' marks alone.
  pub data History : State → Runs → Type 0 where
    boot : {s : State} → IsBooted end_symbol e820 pml pml' s → History s []
    call :
        {s s' : State} {runs : Runs} {pfn : ℕ} (nr align : ℕ)
        → History s runs
        → 0 < align
        → s.nalloc.max_page + align + nr < 2 ^ 64
        → alloc_pages nr align s ≡ done pfn s'
        → History s' ((pfn, nr) ∷ runs)
    other :
        {s s' : State} {runs : Runs}
        → History s runs
        → s'.nalloc ≡ s.nalloc
        → ((p : ℕ)
            → p < s.nalloc.max_page
            → allocated_in_map s'.nalloc s'.mem p ≡ allocated_in_map s.nalloc s.mem p)
        → History s' runs

-- Whether a page lies in some run.
abbrev pub in_runs : Runs → ℕ → Bool
in_runs [] p = false
in_runs ((pfn, nr) ∷ runs) p = in_range pfn nr p || in_runs runs p

-- No page lies in two runs.
abbrev pub AreDisjoint : Runs → Type 0
AreDisjoint [] = Unit {0}
AreDisjoint ((pfn, nr) ∷ runs) =
    ((p : ℕ) → in_range pfn nr p ≡ true → in_runs runs p ≡ false) × AreDisjoint runs

module _ (e820 : E820Map) (pml : PmemLayout) where
  -- A page that may be handed out: RAM, above the VMM's heap and outside the guest image.
  abbrev pub IsGood : ℕ → Type 0
  IsGood p = (p < pml.max_page) × (in_ram e820 p ≡ true) × IsSpare pml p

  pub record IsSound (s : State) (runs : Runs) : Type 0 where
    pub pages : s.nalloc.max_page ≡ pml.max_page
    pub free_pages :
        (p : ℕ) → p < pml.max_page → allocated_in_map s.nalloc s.mem p ≡ false → IsGood p
    pub runs_marked :
        (p : ℕ) → in_runs runs p ≡ true → (allocated_in_map s.nalloc s.mem p ≡ true) × IsGood p
    pub disjoint : AreDisjoint runs

  module _ {s s' : State} {runs : Runs} {pfn nr align : ℕ} (ok : IsSound s runs)
      (fit : IsFirstFit s nr align pfn s') where
    marks_after :
        (p : ℕ)
        → allocated_in_map s'.nalloc s'.mem p
          ≡ (allocated_in_map s.nalloc s.mem p || in_range pfn nr p)
    marks_after p = rw fit.same_allocator (fit.marks p)

    in_new_run :
        (p : ℕ) → in_range pfn nr p ≡ true → (allocated_in_map s.nalloc s.mem p ≡ false) × IsGood p
    in_new_run p h =
        let lo : pfn ≤ p = ground arith in
        let hi : p < pfn + nr = ground arith in
        let free = fit.was_free p lo hi in
        (free, ok.free_pages p (omega (arith, ok.pages, fit.within)) free)

    after_marked :
        (p : ℕ)
        → in_runs ((pfn, nr) ∷ runs) p ≡ true
        → (allocated_in_map s'.nalloc s'.mem p ≡ true) × IsGood p
    after_marked p h = elim (Bool-cases (in_range pfn nr p)) [
      | inl new ↦ (marks_after p ∙ rw new (or-true _), (in_new_run p new).1)
      | inr old ↦
          let (marked, good) = ok.runs_marked p (rw old at h) in
          (marks_after p ∙ rw marked refl, good)
    ]

    not_in_old : (p : ℕ) → in_range pfn nr p ≡ true → in_runs runs p ≡ false
    not_in_old p h = elim (Bool-cases (in_runs runs p)) [
      | inl old ↦ let both : true ≡ false = sym (ok.runs_marked p old).0 ∙ (in_new_run p h).0 in cc
      | inr fresh ↦ fresh
    ]

    call-IsSound : IsSound s' ((pfn, nr) ∷ runs)
    call-IsSound = record {
      pages = ap (λ n. n.max_page) fit.same_allocator ∙ ok.pages;
      free_pages = λ p lt free. ok.free_pages p lt (or-none _ _ (sym (marks_after p) ∙ free));
      runs_marked = after_marked;
      disjoint = (not_in_old, ok.disjoint);
    }

  other-IsSound :
      {s s' : State} {runs : Runs}
      → IsSound s runs
      → s'.nalloc ≡ s.nalloc
      → ((p : ℕ)
          → p < s.nalloc.max_page
          → allocated_in_map s'.nalloc s'.mem p ≡ allocated_in_map s.nalloc s.mem p)
      → IsSound s' runs
  other-IsSound ok same marks = record {
    pages = ap (λ n. n.max_page) same ∙ ok.pages;
    free_pages = λ p lt free. ok.free_pages p lt (sym (marks p (omega (arith, ok.pages))) ∙ free);
    runs_marked = λ p h.
        let (marked, good) = ok.runs_marked p h in
        (marks p (omega (arith, ok.pages, good.0)) ∙ marked, good);
    disjoint = ok.disjoint;
  }

-- Whatever calls are made from the booted state, and whatever else happens between them that
-- leaves the marks alone: no page is handed out twice, and every page handed out is below
-- `max_page`, whole in one RAM entry, above the VMM's heap and outside the guest image. Every free
-- page is such a page too, and the pages handed out are marked.
pub History-IsSound :
    (end_symbol : ℕ) (e820 : E820Map) (pml pml' : PmemLayout) {s : State} {runs : Runs}
    → History end_symbol e820 pml pml' s runs
    → IsSound e820 pml s runs
History-IsSound end_symbol e820 pml pml' (boot b) = record {
  pages = b.pages;
  free_pages = λ p lt free. let (whole, spare) = b.free_pages p lt free in (lt, whole, spare);
  runs_marked = λ p h. cc;
  disjoint = tt;
}
History-IsSound end_symbol e820 pml pml' (call {s} nr align h pos small e) =
    call-IsSound e820 pml (History-IsSound end_symbol e820 pml pml' h)
      (Outcome-done (alloc_pages-Outcome s nr align pos small) e)
History-IsSound end_symbol e820 pml pml' (other h same marks) =
    other-IsSound e820 pml (History-IsSound end_symbol e820 pml pml' h) same marks
