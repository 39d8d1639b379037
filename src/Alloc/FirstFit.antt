-- ===== src/Alloc/FirstFit.antt =====
-- `alloc_pages` hands out the lowest aligned run of free pages, or stops when there is none.
use tvmm.Base.{
  ℕ, zero, suc, ◌+◌, ◌-◌, ◌*◌, ◌/◌, ◌%◌, ◌^◌, ◌≤◌, ◌<◌, ◌≡◌, refl, sym, ap, ◌∙◌, arith, true, false,
  ◌||◌, ltb, ◌==◌, Bool-cases, ltb→lt, subst, inl, inr, ◌⊎◌,
}
use native.Mathlib.Nat.{mod-eq_of_lt, add-mod_right, mod-add-mod, zero-mod}
use tvmm.Base.Word.{w64}
use tvmm.Memory.{Mem}
use tvmm.Kernel.{NaiveAllocator, State, Run, done, fatal}
use tvmm.Failure.{out_of_pages}
use tvmm.Alloc.{allocated_in_map, free_loop, is_free_contiguous_region, alloc_loop, alloc_pages}
use tvmm.Alloc.Digit.{in_range}
use tvmm.Alloc.MapAlloc.{map_alloc_lem, map_alloc_outside}

-- No page of the run of `nr` pages from `pfn` is marked allocated.
abbrev pub AllFree : NaiveAllocator → Mem → ℕ → ℕ → Type 0
AllFree nalloc m pfn nr = (p : ℕ) → pfn ≤ p → p < pfn + nr → allocated_in_map nalloc m p ≡ false

-- Some page of the run is.
abbrev pub IsBlocked : NaiveAllocator → Mem → ℕ → ℕ → Type 0
IsBlocked nalloc m pfn nr =
    (p : ℕ) × (pfn ≤ p) × (p < pfn + nr) × (allocated_in_map nalloc m p ≡ true)

module _ (nalloc : NaiveAllocator) (m : Mem) (pfn : ℕ) where
  free_loop-true :
      (left i : ℕ)
      → pfn + i + left < 2 ^ 64
      → free_loop nalloc m pfn left i ≡ true
      → AllFree nalloc m (pfn + i) left
  unfolding free_loop
  free_loop-true zero i h e p lo hi = absurd (omega arith)
  free_loop-true (suc left) i h e p lo hi =
      let here : w64 (pfn + i) ≡ pfn + i = omega arith in
      elim (Bool-cases (pfn + i == p)) [
        | inl same ↦ ground (arith, here)
        | inr other ↦
            free_loop-true left (i + 1) (omega arith) (ground arith) p (ground arith) (omega arith)
      ]

  free_loop-false :
      (left i : ℕ)
      → pfn + i + left < 2 ^ 64
      → free_loop nalloc m pfn left i ≡ false
      → IsBlocked nalloc m (pfn + i) left
  unfolding free_loop
  free_loop-false zero i h e = cc
  free_loop-false (suc left) i h e =
      let here : w64 (pfn + i) ≡ pfn + i = omega arith in
      elim (Bool-cases (allocated_in_map nalloc m (pfn + i))) [
        | inl marked ↦ (pfn + i, omega arith, omega arith, marked)
        | inr free ↦
            let (p, lo, hi, marked) =
              free_loop-false left (i + 1) (omega arith) (ground (arith, here)) in
            (p, omega arith, omega arith, marked)
      ]

  region-true :
      (nr : ℕ)
      → pfn + nr < 2 ^ 64
      → is_free_contiguous_region nalloc m pfn nr ≡ true
      → AllFree nalloc m pfn nr
  unfolding is_free_contiguous_region
  region-true nr h e p lo hi = free_loop-true nr 0 (omega arith) e p (omega arith) (omega arith)

  region-false :
      (nr : ℕ)
      → pfn + nr < 2 ^ 64
      → is_free_contiguous_region nalloc m pfn nr ≡ false
      → IsBlocked nalloc m pfn nr
  unfolding is_free_contiguous_region
  region-false nr h e =
      let (p, lo, hi, marked) = free_loop-false nr 0 (omega arith) e in
      (p, omega arith, omega arith, marked)

-- What a successful call promises.
pub record IsFirstFit (s : State) (nr align pfn : ℕ) (s' : State) : Type 0 where
  pub aligned : pfn % align ≡ 0
  pub within : pfn + nr < s.nalloc.max_page
  pub was_free : AllFree s.nalloc s.mem pfn nr
  pub marks :
      (p : ℕ)
      → allocated_in_map s.nalloc s'.mem p
        ≡ (allocated_in_map s.nalloc s.mem p || in_range pfn nr p)
  pub same_allocator : s'.nalloc ≡ s.nalloc
  pub frame :
      (x : ℕ)
      → (x < s.nalloc.alloc_bitmap) ⊎ (s.nalloc.alloc_bitmap + 8 * (s.nalloc.max_page / 64 + 1) ≤ x)
      → s'.mem x ≡ s.mem x
  pub lowest : (c : ℕ) → c % align ≡ 0 → c < pfn → IsBlocked s.nalloc s.mem c nr

-- The two ways in which a call ends.
pub data Outcome (s : State) (nr align : ℕ) : Run ℕ → Type 0 where
  allocated :
      {pfn : ℕ} {s' : State} → IsFirstFit s nr align pfn s' → Outcome s nr align (done pfn s')
  exhausted :
      ((c : ℕ) → c % align ≡ 0 → c + nr < s.nalloc.max_page → IsBlocked s.nalloc s.mem c nr)
      → Outcome s nr align (fatal out_of_pages)

-- Two multiples of `a` less than `a` apart are one.
same_multiple : (a c i : ℕ) → c % a ≡ 0 → i % a ≡ 0 → i ≤ c → c < i + a → c ≡ i
same_multiple a c i p q lo hi =
    let k = c - i in
    let apart : k % a ≡ 0 =
      ap (λ (t : ℕ). t % a) (let t : k ≡ i % a + k = omega arith in t)
      ∙ mod-add-mod i a k
      ∙ ap (λ (t : ℕ). t % a) (omega arith)
      ∙ p in
    omega (arith, mod-eq_of_lt {n = k} {m = a} (omega arith))

module _ (s : State) (nr align : ℕ) (pos : 0 < align)
    (small : s.nalloc.max_page + align + nr < 2 ^ 64) where
  IsBlocked-below :
      (i : ℕ)
      → i % align ≡ 0
      → ((c : ℕ) → c % align ≡ 0 → c < i → IsBlocked s.nalloc s.mem c nr)
      → IsBlocked s.nalloc s.mem i nr
      → (c : ℕ) → c % align ≡ 0
      → c < i + align
      → IsBlocked s.nalloc s.mem c nr
  IsBlocked-below i multiple earlier here c mul lt = elim (Bool-cases (ltb c i)) [
    | inl before ↦ earlier c mul (ltb→lt c i before)
    | inr now ↦
        subst (λ t. IsBlocked s.nalloc s.mem t nr)
          (sym (same_multiple align c i mul multiple (ground arith) lt)) here
  ]

  alloc_loop-Outcome :
      (fuel i : ℕ)
      → 0 < fuel
      → s.nalloc.max_page < i + fuel
      → i < s.nalloc.max_page + align
      → i % align ≡ 0
      → ((c : ℕ) → c % align ≡ 0 → c < i → IsBlocked s.nalloc s.mem c nr)
      → Outcome s nr align (alloc_loop fuel nr align i s)
  unfolding alloc_loop
  alloc_loop-Outcome zero i some_fuel enough below multiple earlier = absurd (omega arith)
  alloc_loop-Outcome (suc fuel) i some_fuel enough below multiple earlier =
      let sum : w64 (i + nr) ≡ i + nr = omega arith in
      elim (Bool-cases (ltb (i + nr) s.nalloc.max_page)) [
        | inr stop ↦ rw (sum, stop) (exhausted (λ c mul lt. earlier c mul (ground arith)))
        | inl go ↦ elim (Bool-cases (is_free_contiguous_region s.nalloc s.mem i nr)) [
          | inl free ↦
              rw (sum, go, free)
                (allocated (record {
                  aligned = multiple;
                  within = ltb→lt (i + nr) _ go;
                  was_free = region-true s.nalloc s.mem i nr (omega arith) free;
                  marks = map_alloc_lem s.nalloc i nr s.mem (omega arith);
                  same_allocator = refl;
                  frame = λ x out.
                      map_alloc_outside s.nalloc i nr s.mem (omega arith) x
                        (omega (arith, ltb→lt (i + nr) s.nalloc.max_page go));
                  lowest = earlier;
                }))
          | inr blocked ↦
              let inside = ltb→lt (i + nr) s.nalloc.max_page go in
              let step : w64 (i + align) ≡ i + align = omega arith in
              rw (sum, go, blocked, step)
                (alloc_loop-Outcome fuel (i + align) (omega arith) (omega arith) (omega arith)
                  (add-mod_right i align ∙ multiple)
                  (IsBlocked-below i multiple earlier
                    (region-false s.nalloc s.mem i nr (omega arith) blocked)))
        ]
      ]

  -- With a positive alignment and sizes that do not wrap, `alloc_pages` ends. If it returns, the
  -- run of `nr` pages that it returns is aligned, ends before the last page below `max_page`, was
  -- free and is now marked, with no other mark and no memory outside the bitmap changed, and
  -- every lower aligned run had an allocated page. If it stops, with `alloc_boot_pages`, every
  -- aligned run at a page `c` with `c + nr < max_page` has an allocated page: a run that ends with
  -- the last page below `max_page` is not looked at, and may be free.
  pub alloc_pages-Outcome : Outcome s nr align (alloc_pages nr align s)
  unfolding alloc_pages
  alloc_pages-Outcome =
      alloc_loop-Outcome (s.nalloc.max_page + 1) 0 (omega arith) (omega arith) (omega arith)
        (zero-mod align) (λ c mul lt. absurd (omega arith))
