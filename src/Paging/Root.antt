-- ===== src/Paging/Root.antt =====
-- `pml4_table_create`: the root of a new tree, which maps nothing yet.
use tvmm.Base.{
  ℕ, ◌+◌, ◌*◌, ◌%◌, ◌^◌, ◌<◌, ◌≡◌, ◌≢◌, refl, sym, ap, ◌∙◌, arith, true, false, or-none, ◌==◌,
  Bool-cases, inl, inr,
}
use tvmm.Kernel.{NaiveAllocator, State}
use tvmm.Kernel.Laws.{Ends, Ends-map}
use tvmm.Paging.{entry_is_present, non_term_base, pg_table_create, pml4_table_create}
use tvmm.Paging.Tables.{
  Leads, entry, IsAddressable, IsMapped, IsFresh, fresh_ne, idle_ne, entry-fresh,
  pg_table_create-IsFresh,
}
use tvmm.Paging.Protect.{Protects}
use tvmm.Paging.Grow.{zero_absent, with_table}

module _ (n : NaiveAllocator) (role : ℕ → ℕ) (s : State) (ok : IsMapped n role s) where
  module _ {paddr : ℕ} {s1 : State} (new : IsFresh n s paddr s1) where
    abbrev rooted : ℕ → ℕ
    rooted = with_table role new.frame 4

    rooted_ne : (h : ℕ) → h ≢ new.frame → rooted h ≡ role h
    rooted_ne h ne = ground arith

    -- What a present entry of the new forest leads to, it led to before.
    Leads-before :
        (h j b : ℕ) → Leads rooted s1.mem h j b → Leads role s.mem h j b × (h ≢ new.frame)
    Leads-before h j b (high, below, present, base) = elim (Bool-cases (h == new.frame)) [
      | inl fresh ↦
          let same : h ≡ new.frame = ground arith in
          let both : false ≡ true =
            sym zero_absent
            ∙ ap entry_is_present (sym (new.zeros j below))
            ∙ ap (λ t. entry_is_present (entry s1.mem t j)) (sym same)
            ∙ present in
          cc
      | inr old ↦
          let ne : h ≢ new.frame = ground arith in
          let high' : 2 < role h = omega (arith, rooted_ne h ne) in
          let same = entry-fresh ok new h j (omega arith) below in
          (
            (
              high',
              below,
              sym (ap entry_is_present same) ∙ present,
              sym (ap non_term_base same) ∙ base,
            ),
            ne,
          )
    ]

    rooted_entries : (h j b : ℕ) → Leads rooted s1.mem h j b → rooted b + 1 ≡ rooted h
    rooted_entries h j b leads =
        let ((high, below, present, base), ne) = Leads-before h j b leads in
        let level : role b + 1 ≡ role h =
          ap (λ t. role t + 1) (sym base) ∙ ok.entries h j high below present in
        let ne' = fresh_ne ok new b (omega arith) in
        ap (λ t. t + 1) (rooted_ne b ne') ∙ level ∙ sym (rooted_ne h ne)

    rooted-IsMapped : IsMapped n rooted s1
    rooted-IsMapped = record {
      same = new.same_allocator;
      tables = λ h some. elim (Bool-cases (h == new.frame)) [
        | inl fresh ↦
            let same : h ≡ new.frame = ground arith in
            rw same (new.below, new.marks new.frame new.below ∙ ground arith)
        | inr old ↦
            let (below, marked) = ok.tables h (omega (arith, rooted_ne h (ground arith))) in
            (below, new.marks h below ∙ rw marked refl)
      ];
      tables_above = λ h some. elim (Bool-cases (h == new.frame)) [
        | inl fresh ↦
            let same : h ≡ new.frame = ground arith in
            rw same (ok.free_above new.frame new.below new.was_free)
        | inr old ↦ ok.tables_above h (omega (arith, rooted_ne h (ground arith)))
      ];
      free_above =
          λ h below free. ok.free_above h below (or-none _ _ (sym (new.marks h below) ∙ free));
      entries = λ h j high below present.
          rooted_entries h j (non_term_base (entry s1.mem h j)) (high, below, present, refl);
      parents = λ h j h' j' b first second.
          ok.parents h j h' j' b (Leads-before h j b first).0 (Leads-before h' j' b second).0;
    }

    rooted-Protects : Protects n role s rooted s1
    rooted-Protects = record {
      levels = λ h some. rooted_ne h (fresh_ne ok new h some);
      idle = λ h (bare, marked). (
        rooted_ne h (idle_ne new h marked) ∙ bare,
        λ below. new.marks h below ∙ rw (marked below) refl,
      );
      bytes = λ h x (bare, marked) above lo hi.
          let ne = idle_ne new h marked in
          ap (λ v. v % 256) (new.outside x (inr above) (ground arith));
      far = λ x off.
          let above = ok.free_above new.frame new.below new.was_free in
          ap (λ v. v % 256)
            (new.outside x (omega (arith, off)) (omega (arith, off, above, new.below)));
    }

  -- After `pml4_table_create`: the address of a root of a well-formed forest.
  pub record IsRooted (cr3 : ℕ) (s' : State) : Type 0 where
    pub root : ℕ
    pub role' : ℕ → ℕ
    pub address : cr3 ≡ root * 2 ^ 12
    pub below : root < n.max_page
    pub root_level : role' root ≡ 4
    pub mapped : IsMapped n role' s'
    pub protects : Protects n role s role' s'

  pub pml4_table_create-IsRooted :
      IsAddressable n → n.max_page < 2 ^ 40 → Ends IsRooted (pml4_table_create s)
  unfolding pml4_table_create
  pml4_table_create-IsRooted fits small =
      Ends-map (IsFresh n s) IsRooted (pg_table_create s)
        (pg_table_create-IsFresh n fits role s (omega arith) ok)
        (λ paddr s1 new. record {
          root = new.frame;
          role' = rooted new;
          address = new.address;
          below = new.below;
          root_level = ground arith;
          mapped = rooted-IsMapped new;
          protects = rooted-Protects new;
        })
