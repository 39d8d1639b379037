-- ===== src/Paging/Grow.antt =====
-- Adding a table below an entry keeps the forest of tables.
use tvmm.Base.{
  ℕ, ◌+◌, ◌*◌, ◌%◌, ◌^◌, ◌≤◌, ◌<◌, ◌≡◌, ◌≢◌, refl, sym, ap, ◌∙◌, arith, true, false, ◌||◌, ◌&&◌,
  ◌⊎◌, inl, inr, or-none, ◌==◌, Bool-cases, if◌then◌else◌,
}
use tvmm.Base.Word.{w64}
use tvmm.Memory.{load64, store64}
use tvmm.Memory.Laws.{load64_ext, load64-store64_self, load64-store64_ne, store64_outside}
use tvmm.Kernel.{NaiveAllocator, State}
use tvmm.Alloc.{allocated_in_map}
use tvmm.Alloc.Digit.{in_range}
use tvmm.Paging.{entry_is_present, non_term_base, non_term_entry}
use tvmm.Paging.Fields.{present-lem, non_term_entry-present, non_term_entry-base}
use tvmm.Paging.Protect.{Protects}
use tvmm.Paging.Tables.{
  fresh_ne, idle_ne, Leads, page_addr, slot, entry, IsOffBitmap, IsAddressable, IsMapped, IsFresh,
  allocated_ext,
}

-- A forest that has grown: tables keep their levels, and those of level `l` or more their bytes.
pub record IsGrown (n : NaiveAllocator) (l : ℕ) (role : ℕ → ℕ) (s : State) (role' : ℕ → ℕ)
    (s' : State) : Type 0 where
  pub protects : Protects n role s role' s'
  pub open protects use *
  pub mapped : IsMapped n role' s'
  pub kept : (f x : ℕ) → l ≤ role f → page_addr f ≤ x → x < page_addr f + 4096 → s'.mem x ≡ s.mem x

pub zero_absent : entry_is_present 0 ≡ false
zero_absent = present-lem 0 ∙ refl

-- The level of each frame with a new table.
abbrev pub with_table : (ℕ → ℕ) → ℕ → ℕ → ℕ → ℕ
with_table role g l f = if f == g then l else role f

module _ (n : NaiveAllocator) (fits : IsAddressable n) (small : n.max_page < 2 ^ 40) (role : ℕ → ℕ)
    (s : State) (ok : IsMapped n role s) where
  module _ {paddr : ℕ} {s1 : State} (new : IsFresh n s paddr s1) (f i l : ℕ) (lt : i < 512)
      (pos : 2 ≤ l) (level : role f ≡ l + 1) where
    pub table_ne : (h : ℕ) → 0 < role h → h ≢ new.frame
    table_ne = fresh_ne ok new

    abbrev linked : State
    linked = record s1 {
      mem = store64 s1.mem (slot f i) (non_term_entry paddr (load64 s1.mem (slot f i)));
    }

    marks_after :
        (p : ℕ)
        → p < n.max_page
        → allocated_in_map n linked.mem p ≡ (allocated_in_map n s.mem p || in_range new.frame 1 p)
    marks_after p below =
        allocated_ext n linked.mem s1.mem p below (λ x hi.
          store64_outside s1.mem (slot f i) _ x
            (inl (omega (arith, ok.tables_above f (omega arith)))))
        ∙ new.marks p below

    byte_after :
        (x : ℕ)
        → IsOffBitmap n x
        → (x < page_addr new.frame) ⊎ (page_addr new.frame + 4096 ≤ x)
        → (x < slot f i) ⊎ (slot f i + 8 ≤ x)
        → linked.mem x ≡ s.mem x
    byte_after x above out other =
        store64_outside s1.mem (slot f i) _ x other ∙ new.outside x above out

    pub entry_after :
        (h j : ℕ)
        → j < 512
        → 0 < role h
        → (h ≢ f) ⊎ (j ≢ i)
        → entry linked.mem h j ≡ entry s.mem h j
    entry_after h j below some other =
        let ne = table_ne h some in
        let above = ok.tables_above h some in
        load64_ext linked.mem s.mem (slot h j)
          (λ x lo hi. byte_after x (omega arith) (ground arith) (ground arith))

    linked_entry :
        entry linked.mem f i ≡ w64 (non_term_entry (new.frame * 2 ^ 12) (load64 s1.mem (slot f i)))
    linked_entry = load64-store64_self s1.mem (slot f i) _ ∙ rw new.address refl

    pub zero_entry : (j : ℕ) → j < 512 → entry linked.mem new.frame j ≡ 0
    zero_entry j below =
        let ne = table_ne f (omega arith) in
        load64-store64_ne s1.mem (slot f i) _ (slot new.frame j) (ground arith) ∙ new.zeros j below

    pub linked_present : entry_is_present (entry linked.mem f i) ≡ true
    linked_present = ap entry_is_present linked_entry ∙ non_term_entry-present _ _

    pub linked_base : non_term_base (entry linked.mem f i) ≡ new.frame
    linked_base =
        ap non_term_base linked_entry ∙ non_term_entry-base new.frame _ (omega (arith, new.below))

    pub level_self : with_table role new.frame l new.frame ≡ l
    level_self = ground arith

    level_ne : (h : ℕ) → h ≢ new.frame → with_table role new.frame l h ≡ role h
    level_ne h ne = ground arith

    linked_entries :
        (h j : ℕ)
        → 2 < with_table role new.frame l h
        → j < 512
        → entry_is_present (entry linked.mem h j) ≡ true
        → with_table role new.frame l (non_term_base (entry linked.mem h j)) + 1
          ≡ with_table role new.frame l h
    linked_entries h j high below present = elim (Bool-cases (h == new.frame)) [
      | inl fresh ↦
          let same : h ≡ new.frame = ground arith in
          let zero_here : entry linked.mem h j ≡ 0 = rw same (zero_entry j below) in
          let both : false ≡ true = sym (ap entry_is_present zero_here ∙ zero_absent) ∙ present in
          cc
      | inr old ↦
          let ne : h ≢ new.frame = ground arith in
          let high' : 2 < role h = omega (arith, level_ne h ne) in
          elim (Bool-cases (h == f && j == i)) [
            | inl here ↦
                let same_f : h ≡ f = ground arith in
                let same_i : j ≡ i = ground arith in
                rw (same_f, same_i, linked_base, level_self)
                  (sym level ∙ sym (level_ne f (table_ne f (omega arith))))
            | inr elsewhere ↦
                let same = entry_after h j below (omega arith) (ground arith) in
                let base = non_term_base (entry s.mem h j) in
                let kept = ok.entries h j high' below (sym (ap entry_is_present same) ∙ present) in
                rw same (
                  ap (λ t. t + 1) (level_ne base (table_ne base (omega arith)))
                  ∙ kept
                  ∙ sym (level_ne h ne))
          ]
    ]

    Leads-before :
        (h j b : ℕ)
        → Leads (with_table role new.frame l) linked.mem h j b
        → ((h ≡ f) × (j ≡ i) × (b ≡ new.frame)) ⊎ Leads role s.mem h j b
    Leads-before h j b (high, below, present, base) = elim (Bool-cases (h == new.frame)) [
      | inl fresh ↦
          let same : h ≡ new.frame = ground arith in
          let zero_here : entry linked.mem h j ≡ 0 = rw same (zero_entry j below) in
          let both : false ≡ true = sym (ap entry_is_present zero_here ∙ zero_absent) ∙ present in
          cc
      | inr old ↦
          let ne : h ≢ new.frame = ground arith in
          let high' : 2 < role h = omega (arith, level_ne h ne) in
          elim (Bool-cases (h == f && j == i)) [
            | inl here ↦
                let same_f : h ≡ f = ground arith in
                let same_i : j ≡ i = ground arith in
                inl (same_f, same_i, sym base ∙ rw (same_f, same_i) linked_base)
            | inr elsewhere ↦
                let same = entry_after h j below (omega arith) (ground arith) in
                inr (
                  high',
                  below,
                  sym (ap entry_is_present same) ∙ present,
                  sym (ap non_term_base same) ∙ base,
                )
          ]
    ]

    old_ne : (h j b : ℕ) → Leads role s.mem h j b → b ≢ new.frame
    old_ne h j b (high, below, present, base) =
        table_ne b (omega (arith, ok.entries h j high below present, ap role base))

    linked_parents :
        (h j h' j' b : ℕ)
        → Leads (with_table role new.frame l) linked.mem h j b
        → Leads (with_table role new.frame l) linked.mem h' j' b
        → (h ≡ h') × (j ≡ j')
    linked_parents h j h' j' b first second = elim (Leads-before h j b first) [
      | inl (a, c, d) ↦ elim (Leads-before h' j' b second) [
        | inl (a', c', d') ↦ (a ∙ sym a', c ∙ sym c')
        | inr old ↦ absurd (old_ne h' j' b old d)
      ]
      | inr old ↦ elim (Leads-before h' j' b second) [
        | inl (a', c', d') ↦ absurd (old_ne h j b old d')
        | inr old' ↦ ok.parents h j h' j' b old old'
      ]
    ]

    linked_tables :
        (h : ℕ)
        → 0 < with_table role new.frame l h
        → (h < n.max_page) × (allocated_in_map n linked.mem h ≡ true)
    linked_tables h some = elim (Bool-cases (h == new.frame)) [
      | inl fresh ↦
          let same : h ≡ new.frame = ground arith in
          rw same (new.below, marks_after new.frame new.below ∙ ground arith)
      | inr old ↦
          let (below, marked) = ok.tables h (omega (arith, level_ne h (ground arith))) in
          (below, marks_after h below ∙ rw marked refl)
    ]

    linked-IsMapped : IsMapped n (with_table role new.frame l) linked
    linked-IsMapped = record {
      same = new.same_allocator;
      tables = linked_tables;
      tables_above = λ h some. elim (Bool-cases (h == new.frame)) [
        | inl fresh ↦
            let same : h ≡ new.frame = ground arith in
            rw same (ok.free_above new.frame new.below new.was_free)
        | inr old ↦ ok.tables_above h (omega (arith, level_ne h (ground arith)))
      ];
      free_above =
          λ h below free. ok.free_above h below (or-none _ _ (sym (marks_after h below) ∙ free));
      entries = linked_entries;
      parents = linked_parents;
    }

    pub linked-IsGrown : IsGrown n (l + 2) role s (with_table role new.frame l) linked
    linked-IsGrown = record {
      protects = record {
        levels = λ h some. level_ne h (table_ne h some);
        idle = λ h (bare, marked).
            let ne = idle_ne new h marked in
            (level_ne h ne ∙ bare, λ below. marks_after h below ∙ rw (marked below) refl);
        bytes = λ h x (bare, marked) above lo hi.
            let ne = idle_ne new h marked in
            let other : h ≢ f = λ same. omega (arith, ap role same) in
            ap (λ v. v % 256) (byte_after x (inr above) (ground arith) (ground arith));
        far = λ x off.
            let above = ok.tables_above f (omega arith) in
            let below = (ok.tables f (omega arith)).0 in
            let above1 = ok.free_above new.frame new.below new.was_free in
            ap (λ v. v % 256)
              (byte_after x (omega (arith, off)) (omega (arith, off, above1, new.below))
                (omega (arith, off, above, below)));
      };
      mapped = linked-IsMapped;
      kept = λ h x high lo hi.
          let some : 0 < role h = omega arith in
          let ne = table_ne h some in
          let other : h ≢ f = λ same. omega (arith, ap role same) in
          byte_after x (omega (arith, ok.tables_above h some)) (ground arith) (ground arith);
    }
