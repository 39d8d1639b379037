-- ===== src/Paging/Step.antt =====
-- One level of `mmap` and of `vaddr_to_paddr`, at a table of the forest.
use tvmm.Base.{
  ◌⊎◌, inr, subst, false, ◌==◌, ℕ, zero, suc, ◌+◌, ◌*◌, ◌/◌, ◌%◌, ◌^◌, ◌≤◌, ◌<◌, ◌≡◌, ◌≢◌, refl,
  sym, ap, ◌∙◌, arith, Bool, true, Bool-cases, inl, inr,
}
use tvmm.Base.Bits.Mask.{bit_and-low}
use tvmm.Memory.{Mem, load64, store64}
use tvmm.Memory.Laws.{load64-store64_ne, store64_outside}
use tvmm.Kernel.{and_then, NaiveAllocator, State, done}
use tvmm.Kernel.Laws.{Ends, and_then-Ends}
use tvmm.Alloc.{allocated_in_map}
use tvmm.Paging.{
  pgt_level_pd, mmap_at, vaddr_to_paddr_at, entry_is_present, non_term_base, term_entry,
  pg_table_create, ensure_table, next_table, get_index, get_entry,
}
use tvmm.Paging.Same.{IsMapped-same}
use tvmm.Paging.Tables.{
  page_addr, slot, entry, IsAddressable, IsMapped, IsFresh, allocated_ext, pg_table_create-IsFresh,
}
use tvmm.Paging.Protect.{Protects-refl}
use tvmm.Paging.Grow.{
  zero_absent, entry_after, zero_entry, table_ne, IsGrown, with_table, linked-IsGrown,
  linked_present, linked_base, level_self,
}

-- The index of an address in a table of level `k + 2`.
abbrev pub index : ℕ → ℕ → ℕ
index v k = v / 2 ^ (21 + 9 * k) % 512

-- Addresses of one 2-Mbyte page have one index.
pub index-page : (k v v' : ℕ) → k < 3 → v' / 2 ^ 21 ≡ v / 2 ^ 21 → index v' k ≡ index v k
index-page zero v v' lt same = omega arith
index-page (suc zero) v v' lt same = omega arith
index-page (suc (suc zero)) v v' lt same = omega arith
index-page (suc (suc (suc k))) v v' lt same = absurd (omega arith)

pub get_index-lem : (k v : ℕ) (s : State) → k < 3 → get_index v (suc (suc k)) s ≡ done (index v k) s
unfolding get_index
get_index-lem zero v s lt = ap (λ t. done t s) (bit_and-low 9 (v / 2 ^ 21))
get_index-lem (suc zero) v s lt = ap (λ t. done t s) (bit_and-low 9 (v / 2 ^ 30))
get_index-lem (suc (suc zero)) v s lt = ap (λ t. done t s) (bit_and-low 9 (v / 2 ^ 39))
get_index-lem (suc (suc (suc k))) v s lt = absurd (omega arith)

pub not_leaf : (k : ℕ) → (suc (suc (suc k)) == pgt_level_pd) ≡ false
not_leaf k = ground arith

-- `mmap` above the last level.
pub mmap_at-step :
    (below v p : ℕ) (user : Bool) (base : ℕ) (s : State) (e : ℕ)
    → get_entry base v (suc below) s ≡ done e s
    → (suc below == pgt_level_pd) ≡ false
    → mmap_at (suc below) v p user base s
      ≡ and_then (ensure_table e s) (λ u s1. mmap_at below v p user (next_table s1.mem e) s1)
unfolding mmap_at
mmap_at-step below v p user base s e found inner = rw (found, inner) refl

-- `vaddr_to_paddr` above the last level.
pub vaddr_to_paddr_at-step :
    (below v base : ℕ) (s : State) (e : ℕ)
    → get_entry base v (suc below) s ≡ done e s
    → (suc below == pgt_level_pd) ≡ false
    → entry_is_present (load64 s.mem e) ≡ true
    → vaddr_to_paddr_at (suc below) v base s ≡ vaddr_to_paddr_at below v (next_table s.mem e) s
unfolding vaddr_to_paddr_at
vaddr_to_paddr_at-step below v base s e found inner present = rw (found, inner, present) refl

pub off_pair : (a b c d : ℕ) → ¬ ((a ≡ b) × (c ≡ d)) → (a ≢ b) ⊎ (c ≢ d)
off_pair a b c d off = elim (Bool-cases (a == b)) [
  | inl same ↦ inr (λ e. off (ground arith, e))
  | inr other ↦ inl (ground arith)
]

-- Entry `j` of the table `h` is where the way of `v` from the table `f` of level `k + 2` ends: at
-- the last level, or at an entry that is not present.
abbrev pub OnPath : ℕ → Mem → ℕ → ℕ → ℕ → ℕ → Type 0
OnPath v m zero f h j = (h ≡ f) × (j ≡ index v 0)
OnPath v m (suc k) f h j =
    ((h ≡ f) × (j ≡ index v (suc k)) × (entry_is_present (entry m f (index v (suc k))) ≡ false))
    ⊎ ((entry_is_present (entry m f (index v (suc k))) ≡ true)
        × OnPath v m k (non_term_base (entry m f (index v (suc k)))) h j)

module _ (n : NaiveAllocator) (fits : IsAddressable n) where
  pub get_entry-lem :
      (k v f : ℕ) (s : State)
      → k < 3
      → f < n.max_page
      → get_entry (page_addr f) v (suc (suc k)) s ≡ done (slot f (index v k)) s
  unfolding get_entry
  get_entry-lem k v f s lt below = rw (get_index-lem k v s lt) (ap (λ t. done t s) (omega arith))

  pub next_table-lem :
      (m : Mem) (f i : ℕ)
      → non_term_base (entry m f i) < n.max_page
      → next_table m (slot f i) ≡ page_addr (non_term_base (entry m f i))
  unfolding next_table
  next_table-lem m f i below = omega arith

  -- The way through a table of zeros ends there.
  fresh_off_path :
      (v k h j g : ℕ) (m : Mem)
      → ((j' : ℕ) → j' < 512 → entry m g j' ≡ 0)
      → h ≢ g
      → OnPath v m k g h j
      → ⊥
  fresh_off_path v zero h j g m zeros ne (at, same) = ne at
  fresh_off_path v (suc k) h j g m zeros ne (inl (at, same, absent)) = ne at
  fresh_off_path v (suc k) h j g m zeros ne (inr (present, rest)) =
      let both : false ≡ true =
        sym (ap entry_is_present (zeros (index v (suc k)) (omega arith)) ∙ zero_absent) ∙ present in
      cc

  module _ (role : ℕ → ℕ) (s : State) (ok : IsMapped n role s) (f : ℕ) where
    -- After `ensure_table`: the entry is present and leads to a table one level below.
    pub record IsReady (i l : ℕ) (s' : State) : Type 0 where
      pub role' : ℕ → ℕ
      pub grown : IsGrown n (l + 2) role s role' s'
      pub present : entry_is_present (entry s'.mem f i) ≡ true
      pub next_level : role' (non_term_base (entry s'.mem f i)) ≡ l
      pub untouched :
          (h j : ℕ)
          → 0 < role h
          → j < 512
          → ¬ ((h ≡ f) × (j ≡ i) × (entry_is_present (entry s.mem f i) ≡ false))
          → entry s'.mem h j ≡ entry s.mem h j
      pub ahead :
          (v k h j : ℕ)
          → 0 < role h
          → OnPath v s'.mem k (non_term_base (entry s'.mem f i)) h j
          → (entry_is_present (entry s.mem f i) ≡ true)
            × OnPath v s.mem k (non_term_base (entry s.mem f i)) h j

    pub ensure_table-IsReady :
        (i l : ℕ)
        → n.max_page < 2 ^ 40
        → i < 512
        → 2 ≤ l
        → role f ≡ l + 1
        → Ends (λ u s'. IsReady i l s') (ensure_table (slot f i) s)
    unfolding ensure_table
    ensure_table-IsReady i l small lt pos level =
        elim (Bool-cases (entry_is_present (entry s.mem f i))) [
          | inl present ↦ rw present (record {
            role' = role;
            grown = record {
              protects = Protects-refl n role s;
              mapped = ok;
              kept = λ h x high lo hi. refl;
            };
            present = present;
            next_level = omega (arith, ok.entries f i (omega arith) lt present);
            untouched = λ h j some below off. refl;
            ahead = λ v k h j some on. (present, on);
          })
          | inr missing ↦ rw missing (
              and_then-Ends (IsFresh n s) (λ u s'. IsReady i l s') (pg_table_create s) _
                (pg_table_create-IsFresh n fits role s (omega arith) ok)
                (λ paddr s1 new. record {
                  role' = with_table role new.frame l;
                  grown = linked-IsGrown n fits small role s ok new f i l lt pos level;
                  present = linked_present n fits small role s ok new f i l lt pos level;
                  next_level =
                      ap (with_table role new.frame l)
                        (linked_base n fits small role s ok new f i l lt pos level)
                      ∙ level_self n fits small role s ok new f i l lt pos level;
                  untouched = λ h j some below off.
                      entry_after n fits small role s ok new f i l lt pos level h j below some
                        (off_pair h f j i (λ at. off (at.0, at.1, missing)));
                  ahead = λ v k h j some on. absurd (
                      fresh_off_path v k h j new.frame _
                        (λ j' below.
                          zero_entry n fits small role s ok new f i l lt pos level j' below)
                        (table_ne n fits small role s ok new f i l lt pos level h some)
                        (subst (λ t. OnPath v _ k t h j)
                          (linked_base n fits small role s ok new f i l lt pos level) on));
                }))
        ]

    -- The entry of a page in a table of level 2.
    abbrev pub with_page : ℕ → ℕ → Bool → State
    with_page i p user = record s {
      mem = store64 s.mem (slot f i) (term_entry p user (load64 s.mem (slot f i)));
    }

    pub with_page-other :
        (i p : ℕ) (user : Bool) (h j : ℕ)
        → i < 512
        → j < 512
        → (h ≢ f) ⊎ (j ≢ i)
        → entry (with_page i p user).mem h j ≡ entry s.mem h j
    with_page-other i p user h j lt below other =
        load64-store64_ne s.mem (slot f i) _ (slot h j) (ground arith)

    module _ (i p : ℕ) (user : Bool) (lt : i < 512) (level : role f ≡ 2) where
      with_page-outside :
          (x : ℕ)
          → (x < page_addr f) ⊎ (page_addr f + 4096 ≤ x)
          → (with_page i p user).mem x ≡ s.mem x
      with_page-outside x out = store64_outside s.mem (slot f i) _ x (omega (arith, out))

      with_page-marks :
          (h : ℕ)
          → h < n.max_page
          → allocated_in_map n (with_page i p user).mem h ≡ allocated_in_map n s.mem h
      with_page-marks h below =
          let above = ok.tables_above f (omega arith) in
          allocated_ext n (with_page i p user).mem s.mem h below
            (λ x hi. with_page-outside x (inl (omega arith)))

      other_table : (h : ℕ) → role h ≢ 2 → h ≢ f
      other_table h ne same = ne (ap role same ∙ level)

      pub with_page-IsGrown : IsGrown n 3 role s role (with_page i p user)
      with_page-IsGrown = record {
        protects = record {
          levels = λ h some. refl;
          idle = λ h (bare, marked). (bare, λ below. with_page-marks h below ∙ marked below);
          bytes = λ h x (bare, marked) far lo hi.
              let other = other_table h (omega (arith, bare)) in
              ap (λ v. v % 256) (with_page-outside x (ground (arith, other)));
          far = λ x off.
              let above = ok.tables_above f (omega arith) in
              let below = (ok.tables f (omega arith)).0 in
              ap (λ v. v % 256) (with_page-outside x (omega (arith, off, above, below)));
        };
        mapped =
            IsMapped-same n role s (with_page i p user) ok ok.same with_page-marks
              (λ h j high below.
                with_page-other i p user h j lt below (inl (other_table h (omega (arith, high)))));
        kept = λ h x high lo hi.
            let other = other_table h (omega (arith, high)) in
            with_page-outside x (ground (arith, other));
      }
