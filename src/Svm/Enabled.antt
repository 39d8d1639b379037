-- ===== src/Svm/Enabled.antt =====
-- `enable_svm`: what it looks at, and what it leaves.
use tvmm.Base.{
  ℕ, zero, suc, ◌+◌, ◌*◌, ◌/◌, ◌^◌, ◌≤◌, ◌<◌, ◌≡◌, ◌≢◌, ◌⊎◌, refl, ◌∙◌, arith, true, false, ◌!=◌,
  bit_or, if◌then◌else◌, Bool-cases, inl, inr,
}
use native.Mathlib.Nat.{pow-suc}
use tvmm.Base.Bits.{testbit}
use tvmm.Base.Bits.Join.{bit_or-zero}
use tvmm.Base.Bits.Step.{bit_or_digit}
use tvmm.Base.Word.{w32, shl64}
use tvmm.CString.{memset}
use tvmm.CString.Laws.{memset_lem}
use tvmm.Page.{virt, phys, vmm_offset, page_shift, page_size}
use tvmm.Failure.{no_svm, out_of_pages}
use tvmm.Kernel.{State, Run, Kernel, done, fatal, and_then, update_mem, pure, ◌>>◌}
use tvmm.Alloc.{alloc_pages}
use tvmm.Alloc.FirstFit.{IsFirstFit, Outcome, allocated, exhausted, alloc_pages-Outcome}
use tvmm.Bitops.{Words, set_word}
use tvmm.Bitops.Laws.{constant_test_bit-testbit}
use tvmm.Svm.{
  Cpuid, Msrs, Svm, msr_efer, msr_k8_vm_hsave_pa, wrmsr, set_svme, set_hsave, alloc_host_save_area,
  enable_svm, x86_feature_svme,
}

-- A word with digit `i` set.
bit_or-pow : (i a : ℕ) → bit_or a (2 ^ i) ≡ (if testbit a i then a else a + 2 ^ i)
unfolding testbit
bit_or-pow zero a = ground (arith, bit_or_digit a 1, bit_or-zero (a / 2) (a / 2))
bit_or-pow (suc i) a =
    let half : 2 ^ suc i / 2 ≡ 2 ^ i = omega (arith, pow-suc 2 i) in
    ground (arith, bit_or_digit a (2 ^ suc i), pow-suc 2 i, half, bit_or-pow i (a / 2))

-- EFER with SVME set.
abbrev pub with_svme : ℕ → ℕ
with_svme efer = if testbit efer 12 then efer else efer + 2 ^ 12

set_svme-efer :
    (msrs : Msrs) → msrs msr_efer < 2 ^ 64 → set_svme msrs msr_efer ≡ with_svme (msrs msr_efer)
unfolding set_svme wrmsr testbit
set_svme-efer msrs word =
    let low = w32 (msrs msr_efer) in
    let same : testbit low 12 ≡ testbit (msrs msr_efer) 12 = ground arith in
    ground (arith, bit_or-pow 12 low, same)

module _ (s : State) where
  -- The page, and the memory after it.
  pub record IsSaved (host_save_area : ℕ) (s' : State) : Type 0 where
    pub pfn : ℕ
    pub after : State
    pub page : IsFirstFit s 1 1 pfn after
    pub address : host_save_area ≡ pfn * 4096 + vmm_offset
    pub allocator : s'.nalloc ≡ s.nalloc
    pub cleared : (x : ℕ) → x < 4096 → s'.mem (host_save_area + x) ≡ 0
    pub rest : (x : ℕ) → (x < host_save_area) ⊎ (host_save_area + 4096 ≤ x) → s'.mem x ≡ after.mem x

  data Saves : Run ℕ → Type 0 where
    saved : {hsa : ℕ} {s' : State} → IsSaved hsa s' → Saves (done hsa s')
    no_room : Outcome s 1 1 (fatal out_of_pages) → Saves (fatal out_of_pages)

  -- The rest of `alloc_host_save_area`.
  abbrev clear_page : ℕ → Kernel ℕ
  clear_page n =
      let hsa = virt (shl64 n page_shift) in
      update_mem (λ m. if hsa != 0 then memset m hsa 0 page_size else m) >> pure hsa

  page-Saves :
      s.nalloc.max_page * 4096 + vmm_offset ≤ 2 ^ 64
      → (r : Run ℕ) → Outcome s 1 1 r
      → Saves (and_then r clear_page)
  page-Saves fits r (allocated {pfn} {s' = s1} fit) =
      let at : virt (shl64 pfn page_shift) ≡ pfn * 4096 + vmm_offset = omega (arith, fit.within) in
      let some : (pfn * 4096 + vmm_offset != 0) ≡ true = ground arith in
      rw (at, some)
        (saved (record {
          pfn = pfn;
          after = s1;
          page = fit;
          address = refl;
          allocator = fit.same_allocator;
          cleared = λ x below.
              memset_lem 4096 s1.mem (pfn * 4096 + vmm_offset) 0 (pfn * 4096 + vmm_offset + x)
              ∙ ground arith;
          rest = λ x out. memset_lem 4096 s1.mem (pfn * 4096 + vmm_offset) 0 x ∙ ground arith;
        }))
  page-Saves fits r (exhausted blocked) = no_room (exhausted blocked)

  alloc_host_save_area-Saves :
      s.nalloc.max_page * 4096 + vmm_offset ≤ 2 ^ 64 → Saves (alloc_host_save_area s)
  unfolding alloc_host_save_area
  alloc_host_save_area-Saves fits =
      page-Saves fits (alloc_pages 1 1 s) (alloc_pages-Outcome s 1 1 (omega arith) (omega arith))

  -- The processor's registers and the memory after it.
  pub record IsEnabled (msrs : Msrs) (svm : Svm) (s' : State) : Type 0 where
    pub page : IsSaved svm.host_save_area s'
    pub efer : svm.msrs msr_efer ≡ with_svme (msrs msr_efer)
    pub hsave : svm.msrs msr_k8_vm_hsave_pa ≡ phys svm.host_save_area
    pub other_msrs : (i : ℕ) → i ≢ msr_efer → i ≢ msr_k8_vm_hsave_pa → svm.msrs i ≡ msrs i

  module _ (cpuid : Cpuid) (words : Words) (msrs : Msrs) where
    -- How `enable_svm` ends.
    pub data Enables : Run Svm → Type 0 where
      missing : testbit (words 6) 2 ≡ false → Enables (fatal no_svm)
      no_page :
          testbit (words 6) 2 ≡ true
          → Outcome s 1 1 (fatal out_of_pages)
          → Enables (fatal out_of_pages)
      enabled :
          {svm : Svm} {s' : State}
          → testbit (words 6) 2 ≡ true
          → IsEnabled msrs svm s'
          → Enables (done svm s')

    -- The page's address goes through `wrmsr` in two words.
    hsave_words : (a : ℕ) → a < 2 ^ 64 → w32 a + w32 (a / 2 ^ 32) * 2 ^ 32 ≡ a
    hsave_words a lt = omega arith

    abbrev finish : ℕ → Kernel Svm
    finish host_save_area = pure (record {
      x86_capability = set_word 5 (cpuid 0x8000_0001).ecx words;
      msrs = set_hsave host_save_area (set_svme msrs);
      host_save_area = host_save_area;
    })

    saved-Enables :
        msrs msr_efer < 2 ^ 64
        → testbit (words 6) 2 ≡ true
        → (r : Run ℕ) → Saves r
        → Enables (and_then r finish)
    unfolding set_hsave wrmsr set_svme
    saved-Enables word svme r (saved {hsa} page) = enabled svme (record {
      page = page;
      efer = set_svme-efer msrs word;
      hsave = hsave_words (phys hsa) (omega arith);
      other_msrs = λ i efer hsave. ground arith;
    })
    saved-Enables word svme r (no_room full) = no_page svme full

    -- With all frames at an address, and EFER a word of 64 bits: `enable_svm` stops if bit 2 of
    -- capability word 6 is missing, or no frame is left. Else SVME is set in EFER, which is
    -- otherwise as before, the host's save area is the first free frame, cleared, its physical
    -- address is in HSAVE_PA, and no other register or byte has changed, but for the frame's mark.
    pub enable_svm-Enables :
        s.nalloc.max_page * 4096 + vmm_offset ≤ 2 ^ 64
        → msrs msr_efer < 2 ^ 64
        → Enables (enable_svm cpuid words msrs s)
    unfolding enable_svm set_word
    enable_svm-Enables fits word =
        let tested =
          constant_test_bit-testbit x86_feature_svme (set_word 5 (cpuid 0x8000_0001).ecx words) in
        elim (Bool-cases (testbit (words 6) 2)) [
          | inr absent ↦ rw (tested, absent) (missing absent)
          | inl svme ↦
              rw (tested, svme)
                (saved-Enables word svme (alloc_host_save_area s) (alloc_host_save_area-Saves fits))
        ]
