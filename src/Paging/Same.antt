-- ===== src/Paging/Same.antt =====
-- Page tables stay well formed when the marks and the entries above the last level do.
use tvmm.Base.{ℕ, ◌+◌, ◌<◌, ◌≡◌, refl, sym, ap, ◌∙◌}
use tvmm.Kernel.{NaiveAllocator, State}
use tvmm.Alloc.{allocated_in_map}
use tvmm.Paging.{entry_is_present, non_term_base}
use tvmm.Paging.Tables.{entry, IsMapped, Leads}

module _ (n : NaiveAllocator) (role : ℕ → ℕ) (s s' : State) (ok : IsMapped n role s)
    (same_allocator : s'.nalloc ≡ n)
    (marks : (p : ℕ) → p < n.max_page → allocated_in_map n s'.mem p ≡ allocated_in_map n s.mem p)
    (same : (f i : ℕ) → 2 < role f → i < 512 → entry s'.mem f i ≡ entry s.mem f i) where
  Leads-same : (f i b : ℕ) → Leads role s'.mem f i b → Leads role s.mem f i b
  Leads-same f i b (high, lt, present, base) =
      let one = same f i high lt in
      (high, lt, sym (ap entry_is_present one) ∙ present, sym (ap non_term_base one) ∙ base)

  pub IsMapped-same : IsMapped n role s'
  IsMapped-same = record {
    same = same_allocator;
    tables = λ f some. let (below, marked) = ok.tables f some in (below, marks f below ∙ marked);
    tables_above = ok.tables_above;
    free_above = λ f below free. ok.free_above f below (sym (marks f below) ∙ free);
    entries = λ f i high lt present.
        let (high', lt', present', base) =
          Leads-same f i (non_term_base (entry s'.mem f i)) (high, lt, present, refl) in
        ap (λ b. role b + 1) (sym base) ∙ ok.entries f i high lt present';
    parents = λ f i f' i' b first second.
        ok.parents f i f' i' b (Leads-same f i b first) (Leads-same f' i' b second);
  }
