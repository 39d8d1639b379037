-- ===== src/Alloc/Supply.antt =====
-- `alloc_pages` returns while a run of free pages is long enough, and takes no more from it than it
-- hands out.
use tvmm.Base.{
  ℕ, ◌+◌, ◌^◌, ◌%◌, ◌≤◌, ◌<◌, ◌≡◌, sym, subst, ap, ◌∙◌, arith, true, false, ◌||◌, ltb, Bool-cases,
  inl, inr,
}
use tvmm.Kernel.{NaiveAllocator, State, Run}
use tvmm.Kernel.Success.{Succeeds}
use tvmm.Alloc.{allocated_in_map, alloc_pages}
use tvmm.Alloc.Digit.{in_range}
use tvmm.Alloc.FirstFit.{IsFirstFit, IsBlocked, Outcome, allocated, exhausted, alloc_pages-Outcome}

-- The pages from `b` to `e` are free.
abbrev pub HasFree : NaiveAllocator → ℕ → ℕ → State → Type 0
HasFree n b e s = (p : ℕ) → b ≤ p → p < e → allocated_in_map n s.mem p ≡ false

module _ (n : NaiveAllocator) (e : ℕ) (inside : e < n.max_page) where
  pub HasFree-later : (b b' : ℕ) (s : State) → b ≤ b' → HasFree n b e s → HasFree n b' e s
  HasFree-later b b' s le free p lo hi = free p (omega arith) hi

  module _ (s : State) (same : s.nalloc ≡ n) (b : ℕ) (free : HasFree n b e s) (nr align c : ℕ)
      (aligned : c % align ≡ 0) (from : b ≤ c) (to : c + nr ≤ e) where
    not_blocked : IsBlocked s.nalloc s.mem c nr → ⊥
    not_blocked (p, lo, hi, marked) =
        let here : allocated_in_map s.nalloc s.mem p ≡ false =
          subst (λ t. allocated_in_map t s.mem p ≡ false) (sym same)
            (free p (omega arith) (omega arith)) in
        let both : true ≡ false = sym marked ∙ here in cc

    abbrev pub Supplied : ℕ → State → Type 0
    Supplied pfn s' = IsFirstFit s nr align pfn s' × HasFree n (c + nr) e s'

    fit-Supplied : (pfn : ℕ) (s' : State) → IsFirstFit s nr align pfn s' → Supplied pfn s'
    fit-Supplied pfn s' fit =
        let low : pfn ≤ c = elim (Bool-cases (ltb c pfn)) [
          | inl above ↦ absurd (not_blocked (fit.lowest c aligned (ground (arith, above))))
          | inr at ↦ ground (arith, at)
        ] in
        (
          fit,
          λ p lo hi.
              let before = free p (omega arith) hi in
              let marks =
                subst
                  (λ t.
                    allocated_in_map t s'.mem p ≡ (allocated_in_map t s.mem p || in_range pfn nr p))
                  same (fit.marks p) in
              marks ∙ rw before (ground (arith, low)),
        )

    pub Outcome-Supplied : (r : Run ℕ) → Outcome s nr align r → Succeeds Supplied r
    Outcome-Supplied r (allocated {pfn} {s'} fit) = fit-Supplied pfn s' fit
    Outcome-Supplied r (exhausted full) =
        let max : s.nalloc.max_page ≡ n.max_page = ap (λ t. t.max_page) same in
        not_blocked (full c aligned (omega (arith, max)))

    -- The run of free pages holds one of `nr` pages at the multiple `c` of the alignment.
    pub alloc_pages-Supplied :
        0 < align → n.max_page + align + nr < 2 ^ 64 → Succeeds Supplied (alloc_pages nr align s)
    alloc_pages-Supplied pos bound =
        Outcome-Supplied (alloc_pages nr align s)
          (alloc_pages-Outcome s nr align pos (omega (arith, bound, ap (λ t. t.max_page) same)))
