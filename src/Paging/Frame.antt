-- ===== src/Paging/Frame.antt =====
-- A call of `mmap` leaves the translations of the other pages.
use tvmm.Base.{
  ℕ, zero, suc, ◌+◌, ◌/◌, ◌%◌, ◌^◌, ◌≤◌, ◌<◌, ◌≡◌, ◌≢◌, refl, sym, ap, ◌∙◌, arith, true, false,
  ◌==◌, Bool-cases, inl, inr, ◌⊎◌, bit_and,
}
use tvmm.Page.{page_size_flag}
use tvmm.Kernel.{NaiveAllocator, State, done, fatal}
use tvmm.Failure.{not_present}
use tvmm.Paging.{
  entry_is_present, non_term_base, term_flags, page_paddr, get_entry, vaddr_to_paddr_at,
}
use tvmm.Paging.Tables.{page_addr, slot, entry, IsAddressable, IsMapped}
use tvmm.Paging.Step.{
  index, OnPath, get_entry-lem, next_table-lem, not_leaf, vaddr_to_paddr_at-step,
}

absent_stops :
    (k v f i : ℕ) (s : State)
    → get_entry (page_addr f) v (suc k) s ≡ done (slot f i) s
    → entry_is_present (entry s.mem f i) ≡ false
    → vaddr_to_paddr_at (suc k) v (page_addr f) s ≡ fatal not_present
unfolding vaddr_to_paddr_at
absent_stops k v f i s found absent = rw (found, absent) refl

module _ (n : NaiveAllocator) (fits : IsAddressable n) (role : ℕ → ℕ) (s s' : State)
    (ok : IsMapped n role s) (v' : ℕ) where
  -- A translation that succeeds in `s` has the same result in `s'`.
  abbrev pub Stays : ℕ → ℕ → Type 0
  Stays level f =
      (a : ℕ)
      → vaddr_to_paddr_at level v' (page_addr f) s ≡ done a s
      → vaddr_to_paddr_at level v' (page_addr f) s' ≡ done a s'

  leaf-Stays :
      (f : ℕ)
      → f < n.max_page
      → entry s'.mem f (index v' 0) ≡ entry s.mem f (index v' 0)
      → Stays 2 f
  unfolding vaddr_to_paddr_at
  leaf-Stays f below same a e =
      let found = get_entry-lem n fits 0 v' f s (omega arith) below in
      let found' = get_entry-lem n fits 0 v' f s' (omega arith) below in
      let now = entry s.mem f (index v' 0) in
      elim (Bool-cases (entry_is_present now)) [
        | inr absent ↦ let stop = rw (found, absent) at e in cc
        | inl present ↦ elim (Bool-cases (bit_and (term_flags now) page_size_flag == 0)) [
          | inl small ↦ let stop = rw (found, present, small) at e in cc
          | inr large ↦
              let result = rw (found, present, large) at e in
              let value : page_paddr now v' ≡ a = cc in
              rw (found', same, present, large) (ap (λ t. done t s') value)
        ]
      ]

  table-Stays :
      (k f : ℕ)
      → k < 2
      → role f ≡ k + 3
      → (entry_is_present (entry s.mem f (index v' (suc k))) ≡ true
          → entry s'.mem f (index v' (suc k)) ≡ entry s.mem f (index v' (suc k)))
      → (entry_is_present (entry s.mem f (index v' (suc k))) ≡ true
          → Stays (suc (suc k)) (non_term_base (entry s.mem f (index v' (suc k)))))
      → Stays (suc (suc (suc k))) f
  table-Stays k f lt level kept rest a e =
      let i = index v' (suc k) in
      let below = (ok.tables f (omega arith)).0 in
      let found = get_entry-lem n fits (suc k) v' f s (omega arith) below in
      let found' = get_entry-lem n fits (suc k) v' f s' (omega arith) below in
      elim (Bool-cases (entry_is_present (entry s.mem f i))) [
        | inr absent ↦ let stop = sym (absent_stops (suc (suc k)) v' f i s found absent) ∙ e in cc
        | inl present ↦
            let same = kept present in
            let g = non_term_base (entry s.mem f i) in
            let in_tables =
              (ok.tables g (omega (arith, ok.entries f i (omega arith) (omega arith) present))).0 in
            let base' : non_term_base (entry s'.mem f i) ≡ g = ap non_term_base same in
            let here =
              vaddr_to_paddr_at-step (suc (suc k)) v' (page_addr f) s (slot f i) found (not_leaf k)
                present
              ∙ ap (λ t. vaddr_to_paddr_at (suc (suc k)) v' t s)
                  (next_table-lem n fits s.mem f i in_tables) in
            let there =
              vaddr_to_paddr_at-step (suc (suc k)) v' (page_addr f) s' (slot f i) found'
                (not_leaf k) (ap entry_is_present same ∙ present)
              ∙ ap (λ t. vaddr_to_paddr_at (suc (suc k)) v' t s')
                  (next_table-lem n fits s'.mem f i (omega (arith, base')) ∙ ap page_addr base') in
            there ∙ rest present a (sym here ∙ e)
      ]

  -- With the entries of the lower tables as they were, every translation stays.
  pub same-Stays :
      (k f : ℕ)
      → k < 3
      → role f ≡ k + 2
      → ((h j : ℕ) → 1 < role h → role h ≤ k + 2 → j < 512 → entry s'.mem h j ≡ entry s.mem h j)
      → Stays (suc (suc k)) f
  same-Stays zero f lt level same =
      leaf-Stays f (ok.tables f (omega arith)).0
        (same f (index v' 0) (omega arith) (omega arith) (omega arith))
  same-Stays (suc k) f lt level same =
      let i = index v' (suc k) in
      table-Stays k f (omega arith) (omega arith)
        (λ present. same f i (omega arith) (omega arith) (omega arith))
        (λ present.
          let next = ok.entries f i (omega arith) (omega arith) present in
          same-Stays k (non_term_base (entry s.mem f i)) (omega arith) (omega (arith, next))
            (λ h j some low below. same h j some (omega arith) below))

  module _ (v : ℕ) where
    -- Where the way of `v` ends is no table above its first.
    OnPath-role : (k f h j : ℕ) → role f ≡ k + 2 → OnPath v s.mem k f h j → role h ≤ k + 2
    OnPath-role zero f h j level (at, same) = omega (arith, ap role at)
    OnPath-role (suc k) f h j level (inl (at, same, absent)) = omega (arith, ap role at)
    OnPath-role (suc k) f h j level (inr (present, rest)) =
        let next = ok.entries f (index v (suc k)) (omega arith) (omega arith) present in
        let deep =
          OnPath-role k (non_term_base (entry s.mem f (index v (suc k)))) h j (omega (arith, next))
            rest in
        omega (arith, deep)

    -- The two addresses part at level `k + 2` or below.
    abbrev pub Part : ℕ → Type 0
    Part zero = index v' 0 ≢ index v 0
    Part (suc k) = (index v' (suc k) ≢ index v (suc k)) ⊎ Part k

    abbrev Spared : ℕ → ℕ → Type 0
    Spared k f =
        (h j : ℕ)
        → 0 < role h
        → role h ≤ k + 2
        → j < 512
        → ¬ OnPath v s.mem k f h j
        → entry s'.mem h j ≡ entry s.mem h j

    -- Below a table that is not passed.
    below-Spared :
        (k f : ℕ)
        → role f ≡ k + 3
        → entry_is_present (entry s.mem f (index v (suc k))) ≡ true
        → Spared (suc k) f
        → Spared k (non_term_base (entry s.mem f (index v (suc k))))
    below-Spared k f level present spared h j some low below off =
        spared h j some (omega arith) below (λ on. elim on [
          | inl (at, same, absent) ↦ omega (arith, ap role at)
          | inr (there, rest) ↦ off rest
        ])

    Part-Stays :
        (k f f' : ℕ)
        → k < 3
        → role f ≡ k + 2
        → role f' ≡ k + 2
        → (f' ≢ f) ⊎ Part k
        → Spared k f
        → Stays (suc (suc k)) f'
    Part-Stays zero f f' lt level level' apart spared =
        leaf-Stays f' (ok.tables f' (omega arith)).0 (
          spared f' (index v' 0) (omega arith) (omega arith) (omega arith)
            (λ (at, same). elim apart [ inl ne ↦ ne at | inr ne ↦ ne same ]))
    Part-Stays (suc k) f f' lt level level' apart spared =
        let i = index v (suc k) in
        let i' = index v' (suc k) in
        let role_below : entry_is_present (entry s.mem f i) ≡ true
            → role (non_term_base (entry s.mem f i)) ≡ k + 2 =
          λ there. omega (arith, ok.entries f i (omega arith) (omega arith) there) in
        table-Stays k f' (omega arith) (omega arith)
          (λ present. spared f' i' (omega arith) (omega arith) (omega arith) (λ on. elim on [
            | inl (at, same, absent) ↦
                let both : true ≡ false =
                  sym present
                  ∙ ap (λ t. entry_is_present (entry s.mem t i')) at
                  ∙ ap (λ t. entry_is_present (entry s.mem f t)) same
                  ∙ absent in
                cc
            | inr (there, rest) ↦ omega (
              arith,
              OnPath-role k (non_term_base (entry s.mem f i)) f' i' (role_below there) rest,
            )
          ]))
          (λ present.
            let g' = non_term_base (entry s.mem f' i') in
            let level_g : role g' ≡ k + 2 =
              omega (arith, ok.entries f' i' (omega arith) (omega arith) present) in
            elim (Bool-cases (entry_is_present (entry s.mem f i))) [
              | inl there ↦
                  let g = non_term_base (entry s.mem f i) in
                  let one_parent : g' ≡ g → (f' ≡ f) × (i' ≡ i) = λ e.
                    ok.parents f' i' f i g (omega arith, omega arith, present, e)
                      (omega arith, omega arith, there, refl) in
                  let apart_below : (g' ≢ g) ⊎ Part k = elim apart [
                    | inl ne ↦ inl (λ e. ne (one_parent e).0)
                    | inr (inl ne) ↦ inl (λ e. ne (one_parent e).1)
                    | inr (inr deep) ↦ inr deep
                  ] in
                  Part-Stays k g g' (omega arith) (role_below there) level_g apart_below
                    (below-Spared k f (omega arith) there spared)
              | inr gone ↦ same-Stays k g' (omega arith) level_g (λ h j some low below.
                  spared h j (omega arith) (omega arith) below (λ on. elim on [
                    | inl (at, same, absent) ↦ omega (arith, ap role at)
                    | inr (there, rest) ↦ cc
                  ]))
            ])

    -- Addresses of different pages part somewhere.
    pages-Part : v' / 2 ^ 21 % 2 ^ 27 ≢ v / 2 ^ 21 % 2 ^ 27 → Part 2
    pages-Part ne = elim (Bool-cases (index v' 2 == index v 2)) [
      | inr top ↦ inl (ground arith)
      | inl same2 ↦ elim (Bool-cases (index v' 1 == index v 1)) [
        | inr middle ↦ inr (inl (ground arith))
        | inl same1 ↦ inr (
            inr (λ same0.
              let e2 : index v' 2 ≡ index v 2 = ground arith in
              let e1 : index v' 1 ≡ index v 1 = ground arith in ne (omega (arith, e2, e1, same0))))
      ]
    ]

    -- From the root: what is translated outside the page of `v` stays.
    pub others-Stays :
        (f : ℕ)
        → role f ≡ 4
        → v' / 2 ^ 21 % 2 ^ 27 ≢ v / 2 ^ 21 % 2 ^ 27
        → ((h j : ℕ)
            → 0 < role h
            → j < 512
            → ¬ OnPath v s.mem 2 f h j
            → entry s'.mem h j ≡ entry s.mem h j)
        → Stays 4 f
    others-Stays f level ne spared =
        Part-Stays 2 f f (omega arith) level level (inr (pages-Part ne))
          (λ h j some low below off. spared h j some below off)
