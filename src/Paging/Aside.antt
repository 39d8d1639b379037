-- ===== src/Paging/Aside.antt =====
-- Writes to frames that hold data, of role 1, leave the page tables and what they translate.
use tvmm.Base.{
  ℕ, ◌+◌, ◌-◌, ◌*◌, ◌/◌, ◌≤◌, ◌<◌, ◌≡◌, ◌≢◌, ◌⊎◌, inl, inr, refl, sym, ap, ◌∙◌, arith, ltb,
  Bool-cases,
}
use tvmm.Page.{vmm_offset}
use tvmm.Memory.{byte}
use tvmm.Memory.Laws.{load64-bytes_ext}
use tvmm.Kernel.{NaiveAllocator, State}
use tvmm.Alloc.{allocated_in_map}
use tvmm.Paging.Tables.{
  page_addr, slot, entry, bitmap_end, IsFar, IsAddressable, IsMapped, IsUnused, allocated-bytes_ext,
}
use tvmm.Paging.Protect.{Protects}
use tvmm.Paging.Same.{IsMapped-same}
use tvmm.Paging.Frame.{Stays, same-Stays}

abbrev pub frame_of : ℕ → ℕ
frame_of x = (x - vmm_offset) / 4096

-- The bytes from `lo` to `hi` lie behind the bitmap, in frames that are neither in use nor free.
abbrev pub IsIdle : NaiveAllocator → (ℕ → ℕ) → State → ℕ → ℕ → Type 0
IsIdle n role s lo hi =
    (x : ℕ)
    → lo ≤ x
    → x < hi
    → (vmm_offset ≤ x) × (bitmap_end n ≤ x) × IsUnused n role s (frame_of x)

-- Memory has changed in frames of role 1 at most.
pub record IsAside (n : NaiveAllocator) (role : ℕ → ℕ) (s s' : State) : Type 0 where
  pub same_allocator : s'.nalloc ≡ n
  pub others : (x : ℕ) → (x < vmm_offset) ⊎ (role (frame_of x) ≢ 1) → byte s'.mem x ≡ byte s.mem x

-- A write to the bytes of some frames of role 1.
pub range-IsAside :
    (n : NaiveAllocator) (role : ℕ → ℕ) (s s' : State) (pfn nr : ℕ)
    → s'.nalloc ≡ n
    → ((f : ℕ) → pfn ≤ f → f < pfn + nr → role f ≡ 1)
    → ((x : ℕ)
        → (x < page_addr pfn) ⊎ (page_addr pfn + nr * 4096 ≤ x)
        → byte s'.mem x ≡ byte s.mem x)
    → IsAside n role s s'
range-IsAside n role s s' pfn nr same given outside = record {
  same_allocator = same;
  others = λ x off. elim (Bool-cases (ltb x (page_addr pfn))) [
    | inl below ↦ outside x (inl (ground (arith, below)))
    | inr above ↦ elim (Bool-cases (ltb x (page_addr pfn + nr * 4096))) [
      | inr behind ↦ outside x (inr (ground (arith, behind)))
      | inl inside ↦
          let one : role (frame_of x) ≡ 1 =
            given (frame_of x) (ground (arith, above)) (ground (arith, above, inside)) in
          let far : vmm_offset ≤ x = ground (arith, above) in absurd (ground (arith, off, one, far))
    ]
  ];
}

module _ (n : NaiveAllocator) (role : ℕ → ℕ) (s s' : State) (ok : IsMapped n role s)
    (aside : IsAside n role s s') where
  other_frame :
      (f x : ℕ)
      → role f ≢ 1
      → page_addr f ≤ x
      → x < page_addr f + 4096
      → byte s'.mem x ≡ byte s.mem x
  other_frame f x ne lo hi =
      let at : frame_of x ≡ f = omega arith in
      aside.others x (inr (λ one. ne (sym (ap role at) ∙ one)))

  bitmap_same : (x : ℕ) → x < bitmap_end n → byte s'.mem x ≡ byte s.mem x
  bitmap_same x lt = elim (Bool-cases (ltb x vmm_offset)) [
    | inl low ↦ aside.others x (inl (ground (arith, low)))
    | inr high ↦
        let far : vmm_offset ≤ x = ground (arith, high) in
        aside.others x
          (inr (λ one. omega (arith, ok.tables_above (frame_of x) (omega (arith, one)))))
  ]

  marks_same : (p : ℕ) → p < n.max_page → allocated_in_map n s'.mem p ≡ allocated_in_map n s.mem p
  marks_same p lt = allocated-bytes_ext n s.mem s'.mem p lt bitmap_same

  entry_same : (f i : ℕ) → 1 < role f → i < 512 → entry s'.mem f i ≡ entry s.mem f i
  entry_same f i high lt =
      load64-bytes_ext s.mem s'.mem (slot f i)
        (λ x lo hi. other_frame f x (omega arith) (omega arith) (omega arith))

  pub Aside-IsMapped : IsMapped n role s'
  Aside-IsMapped =
      IsMapped-same n role s s' ok aside.same_allocator marks_same
        (λ f i high lt. entry_same f i (omega arith) lt)

  far_same : (x : ℕ) → IsFar n x → byte s'.mem x ≡ byte s.mem x
  far_same x off = elim (Bool-cases (ltb x vmm_offset)) [
    | inl low ↦ aside.others x (inl (ground (arith, low)))
    | inr high ↦
        let far : vmm_offset ≤ x = ground (arith, high) in
        aside.others x (
          inr (λ one.
            let above = ok.tables_above (frame_of x) (omega (arith, one)) in
            let below = (ok.tables (frame_of x) (omega (arith, one))).0 in
            omega (arith, off, far, above, below)))
  ]

  pub Aside-Protects : Protects n role s role s'
  Aside-Protects = record {
    levels = λ f some. refl;
    idle = λ f (bare, marked). (bare, λ below. marks_same f below ∙ marked below);
    bytes = λ f x (bare, marked) above lo hi. other_frame f x (omega (arith, bare)) lo hi;
    far = far_same;
  }

  -- What is translated at a root stays so.
  pub Aside-Stays :
      (fits : IsAddressable n) (v f : ℕ) → role f ≡ 4 → Stays n fits role s s' ok v 4 f
  Aside-Stays fits v f level =
      same-Stays n fits role s s' ok v 2 f (omega arith) level
        (λ h j high low lt. entry_same h j high lt)
