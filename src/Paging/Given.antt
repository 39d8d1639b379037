-- ===== src/Paging/Given.antt =====
-- Frames that `alloc_pages` hands out for data get the role 1 beside the page tables.
use tvmm.Base.{
  ℕ, ◌+◌, ◌^◌, ◌%◌, ◌≤◌, ◌<◌, ◌≡◌, refl, sym, subst, ap, ◌∙◌, arith, true, false, ◌||◌, inr,
  or-none, ltb, if◌then◌else◌, Bool-cases, inl,
}
use tvmm.Memory.Laws.{load64_ext}
use tvmm.Kernel.{NaiveAllocator, State}
use tvmm.Kernel.Laws.{Ends, Ends-map}
use tvmm.Alloc.{allocated_in_map, alloc_pages}
use tvmm.Alloc.Digit.{in_range}
use tvmm.Alloc.FirstFit.{IsFirstFit, alloc_pages-Outcome}
use tvmm.Paging.{entry_is_present, non_term_base}
use tvmm.Paging.Tables.{slot, entry, IsOffBitmap, IsMapped, Leads, Outcome-Ends}
use tvmm.Paging.Protect.{Protects}

-- The role of each frame with `nr` new frames of data.
abbrev pub with_data : (ℕ → ℕ) → ℕ → ℕ → ℕ → ℕ
with_data role pfn nr f = if in_range pfn nr f then 1 else role f

-- After `alloc_pages`: the frames were given to data.
pub record IsGiven (n : NaiveAllocator) (role : ℕ → ℕ) (s : State) (nr align pfn : ℕ) (s' : State)
    : Type 0 where
  pub role' : ℕ → ℕ
  pub mapped : IsMapped n role' s'
  pub protects : Protects n role s role' s'
  pub aligned : pfn % align ≡ 0
  pub within : pfn + nr < n.max_page
  pub given : (f : ℕ) → pfn ≤ f → f < pfn + nr → role' f ≡ 1

module _ (n : NaiveAllocator) (role : ℕ → ℕ) (s : State) (ok : IsMapped n role s) where
  module _ (nr align pfn : ℕ) (s1 : State) (fit : IsFirstFit s nr align pfn s1) where
    abbrev given_role : ℕ → ℕ
    given_role = with_data role pfn nr

    within_max : pfn + nr < n.max_page
    within_max = omega (arith, fit.within, ap (λ x. x.max_page) ok.same)

    was_free : (f : ℕ) → in_range pfn nr f ≡ true → allocated_in_map n s.mem f ≡ false
    was_free f inside =
        subst (λ t. allocated_in_map t s.mem f ≡ false) ok.same
          (fit.was_free f (ground (arith, inside)) (ground (arith, inside)))

    -- A frame that is allocated is another one.
    marked_out : (f : ℕ) → allocated_in_map n s.mem f ≡ true → in_range pfn nr f ≡ false
    marked_out f marked = elim (Bool-cases (in_range pfn nr f)) [
      | inr out ↦ out
      | inl inside ↦ let free = was_free f inside in cc
    ]

    unused_out :
        (f : ℕ) → (f < n.max_page → allocated_in_map n s.mem f ≡ true) → in_range pfn nr f ≡ false
    unused_out f marked = elim (Bool-cases (ltb f n.max_page)) [
      | inl below ↦ marked_out f (marked (ground (arith, below)))
      | inr above ↦ ground (arith, above, within_max)
    ]

    marks_after :
        (p : ℕ) → allocated_in_map n s1.mem p ≡ (allocated_in_map n s.mem p || in_range pfn nr p)
    marks_after p =
        subst (λ t. allocated_in_map t s1.mem p ≡ (allocated_in_map t s.mem p || in_range pfn nr p))
          ok.same (fit.marks p)

    off_bitmap : (x : ℕ) → IsOffBitmap n x → s1.mem x ≡ s.mem x
    off_bitmap x off = fit.frame x (subst (λ t. IsOffBitmap t x) (sym ok.same) off)

    out_role : (f : ℕ) → in_range pfn nr f ≡ false → given_role f ≡ role f
    out_role f out = rw out refl

    used_role : (f : ℕ) → 0 < role f → given_role f ≡ role f
    used_role f some = out_role f (marked_out f (ok.tables f some).1)

    high_role : (f : ℕ) → 1 < given_role f → 1 < role f
    high_role f high = elim (Bool-cases (in_range pfn nr f)) [
      | inl inside ↦ absurd (ground (arith, high, inside))
      | inr out ↦ omega (arith, high, out_role f out)
    ]

    entry_same : (f i : ℕ) → 1 < role f → i < 512 → entry s1.mem f i ≡ entry s.mem f i
    entry_same f i high lt =
        let above = ok.tables_above f (omega arith) in
        load64_ext s1.mem s.mem (slot f i) (λ x lo hi. off_bitmap x (omega arith))

    Leads-before : (f i b : ℕ) → Leads given_role s1.mem f i b → Leads role s.mem f i b
    Leads-before f i b (high, lt, present, base) =
        let used = high_role f (omega arith) in
        let level : given_role f ≡ role f = used_role f (omega arith) in
        let same = entry_same f i used lt in
        (
          omega (arith, level),
          lt,
          sym (ap entry_is_present same) ∙ present,
          sym (ap non_term_base same) ∙ base,
        )

    given_entries : (f i b : ℕ) → Leads given_role s1.mem f i b → given_role b + 1 ≡ given_role f
    given_entries f i b leads =
        let (high, lt, present, base) = Leads-before f i b leads in
        let level : role b + 1 ≡ role f =
          ap (λ t. role t + 1) (sym base) ∙ ok.entries f i high lt present in
        ap (λ t. t + 1) (used_role b (omega arith)) ∙ level ∙ sym (used_role f (omega arith))

    given_tables :
        (f : ℕ) → 0 < given_role f → (f < n.max_page) × (allocated_in_map n s1.mem f ≡ true)
    given_tables f some = elim (Bool-cases (in_range pfn nr f)) [
      | inl inside ↦ (ground (arith, within_max, inside), marks_after f ∙ ground (arith, inside))
      | inr out ↦
          let (below, marked) = ok.tables f (omega (arith, out_role f out)) in
          (below, marks_after f ∙ rw marked refl)
    ]

    given-IsMapped : IsMapped n given_role s1
    given-IsMapped = record {
      same = fit.same_allocator ∙ ok.same;
      tables = given_tables;
      tables_above = λ f some. elim (Bool-cases (in_range pfn nr f)) [
        | inl inside ↦ ok.free_above f (ground (arith, within_max, inside)) (was_free f inside)
        | inr out ↦ ok.tables_above f (omega (arith, out_role f out))
      ];
      free_above = λ f below free. ok.free_above f below (or-none _ _ (sym (marks_after f) ∙ free));
      entries = λ f i high lt present.
          given_entries f i (non_term_base (entry s1.mem f i)) (high, lt, present, refl);
      parents = λ f i f' i' b first second.
          ok.parents f i f' i' b (Leads-before f i b first) (Leads-before f' i' b second);
    }

    fit-IsGiven : IsGiven n role s nr align pfn s1
    fit-IsGiven = record {
      role' = given_role;
      mapped = given-IsMapped;
      protects = record {
        levels = used_role;
        idle = λ f (bare, marked). (
          out_role f (unused_out f marked) ∙ bare,
          λ below. marks_after f ∙ rw (marked below) refl,
        );
        bytes = λ f x unused above lo hi. ap (λ v. v % 256) (off_bitmap x (inr above));
        far = λ x off. ap (λ v. v % 256) (off_bitmap x (omega (arith, off)));
      };
      aligned = fit.aligned;
      within = within_max;
      given = λ f lo hi. let inside : in_range pfn nr f ≡ true = ground arith in rw inside refl;
    }

  pub alloc_pages-IsGiven :
      (nr align : ℕ)
      → 0 < align
      → n.max_page + align + nr < 2 ^ 64
      → Ends (IsGiven n role s nr align) (alloc_pages nr align s)
  alloc_pages-IsGiven nr align pos bound =
      Ends-map (IsFirstFit s nr align) (IsGiven n role s nr align) (alloc_pages nr align s)
        (Outcome-Ends
          (alloc_pages-Outcome s nr align pos (omega (arith, bound, ap (λ x. x.max_page) ok.same))))
        (λ pfn s1 fit. fit-IsGiven nr align pfn s1 fit)
