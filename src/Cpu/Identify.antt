-- ===== src/Cpu/Identify.antt =====
-- `identify_cpu`: the ways in which it ends.
use tvmm.Base.{
  ℕ, ◌+◌, ◌*◌, ◌%◌, ◌^◌, ◌≤◌, ◌<◌, ◌≡◌, ◌≢◌, refl, sym, ap, ◌∙◌, arith, Bool, true, false, ◌==◌,
  ◌!=◌, if◌then◌else◌, Bool-cases, inl, inr, bit_and,
}
use tvmm.Base.Bits.{testbit}
use tvmm.Base.Bits.Mask.{bit_and-low}
use tvmm.Memory.{Mem}
use tvmm.CString.Strings.{HoldsString}
use tvmm.CString.Compare.{strcpy_lem}
use tvmm.Page.{vmm_offset}
use tvmm.Failure.{unknown_vendor, bad_family, no_nested_paging, no_svm, out_of_pages}
use tvmm.Kernel.{State, Run, done, fatal, and_then}
use tvmm.Alloc.FirstFit.{Outcome}
use tvmm.Bitops.{Words, set_word, set_bit, clear_bit}
use tvmm.Svm.{Cpuid, Msrs, Svm, msr_efer, enable_svm}
use tvmm.Svm.Enabled.{IsEnabled, Enables, missing, no_page, enabled, enable_svm-Enables}
use tvmm.Cpu.{
  is_rep_good, CpuInfo, family, has_leaf1, has_leaf, constant, hammer, early_identify_cpu,
  transmeta_features, extended_features, standard_features, read_vendor, reset, init_amd_model,
  check_nested_paging, amd_capability, init_amd, identify_cpu, display_cacheinfo, x86_vendor_amd,
}
use tvmm.Cpu.Vendor.{AreWords, IsAmd, get_cpu_vendor-IsAmd}

-- A word on both sides of a test.
either_word : (b : Bool) (f g : Words) (i v : ℕ) → f i ≡ v → g i ≡ v → (if b then f else g) i ≡ v
either_word true f g i v h k = h
either_word false f g i v h k = k

module _ (cpuid : Cpuid) where
  -- What the code takes for the family, and the word in which it looks for the extension.
  abbrev pub cpu_family : ℕ
  cpu_family = if has_leaf1 (cpuid 0).eax then family (cpuid 1).eax else 4

  abbrev pub svm_word : ℕ
  svm_word =
      if has_leaf 0x8000_0000 0x8000_0001 (cpuid 0x8000_0000).eax
      then (cpuid 0x8000_0001).ecx
      else 0

  early-x86 : (c : CpuInfo) → (early_identify_cpu cpuid c).x86 ≡ cpu_family
  unfolding early_identify_cpu transmeta_features extended_features standard_features read_vendor
      reset
  early-x86 c = refl

  early-x86_vendor :
      (c : CpuInfo)
      → (early_identify_cpu cpuid c).x86_vendor ≡ (read_vendor (cpuid 0) (reset c)).x86_vendor
  unfolding early_identify_cpu transmeta_features extended_features standard_features
  early-x86_vendor c = refl

  early-word6 : (c : CpuInfo) → (early_identify_cpu cpuid c).x86_capability 6 ≡ svm_word
  unfolding early_identify_cpu transmeta_features extended_features standard_features read_vendor
      reset set_word
  early-word6 c =
      let standard : (standard_features (cpuid 1) (read_vendor (cpuid 0) (reset c))).x86_capability
            6
          ≡ 0 =
        either_word (has_leaf1 (cpuid 0).eax) _ _ 6 0 refl refl in
      let extended : (extended_features cpuid
              (standard_features (cpuid 1) (read_vendor (cpuid 0) (reset c)))).x86_capability
            6
          ≡ svm_word =
        elim (Bool-cases (has_leaf 0x8000_0000 0x8000_0001 (cpuid 0x8000_0000).eax)) [
          | inl has ↦ rw has refl
          | inr lacks ↦ rw lacks standard
        ] in
      either_word (has_leaf 0x8086_0000 0x8086_0001 (cpuid 0x8086_0000).eax) _ _ 6 svm_word extended
        extended

  amd_capability-word6 : (words : Words) → amd_capability cpuid words 6 ≡ words 6
  unfolding amd_capability set_bit clear_bit set_word
  amd_capability-word6 words = either_word (is_rep_good (cpuid 1).eax) _ _ 6 (words 6) refl refl

  hammer-HoldsString : HoldsString (constant hammer) 0 hammer
  unfolding constant
  hammer-HoldsString = omega arith

  -- `__init_amd` ends: the name fits.
  pub init_amd_model-lem :
      (c : CpuInfo) (s : State)
      → (name : Mem) × (init_amd_model cpuid c s ≡ (
          if bit_and (cpuid 0x8000_0000).ebx 1 == 0
          then fatal no_nested_paging
          else done (record c { x86_model_id = name }) s))
  unfolding init_amd_model check_nested_paging
  init_amd_model-lem c s =
      let (name, copied, held, others) =
        strcpy_lem hammer 7 c.x86_model_id 0 (constant hammer) 0 (omega arith) hammer-HoldsString in
      (name, ap (λ r. check_nested_paging cpuid c r s) copied)

  module _ (msrs : Msrs) (s : State) where
    abbrev IsOddLeaf : Type 0
    IsOddLeaf = (cpuid 0x8000_0000).ebx % 2 ≡ 1

    -- How `identify_cpu` ends.
    pub data Identified : Run (CpuInfo × Svm) → Type 0 where
      other_vendor : ¬ IsAmd (cpuid 0) → Identified (fatal unknown_vendor)
      other_family : IsAmd (cpuid 0) → cpu_family ≢ 15 → Identified (fatal bad_family)
      no_paging :
          IsAmd (cpuid 0)
          → cpu_family ≡ 15
          → (cpuid 0x8000_0000).ebx % 2 ≡ 0
          → Identified (fatal no_nested_paging)
      no_extension :
          IsAmd (cpuid 0) → cpu_family ≡ 15 → testbit svm_word 2 ≡ false → Identified (fatal no_svm)
      no_frame :
          IsAmd (cpuid 0) → Outcome s 1 1 (fatal out_of_pages) → Identified (fatal out_of_pages)
      identified :
          {info : CpuInfo} {svm : Svm} {s' : State}
          → IsAmd (cpuid 0)
          → cpu_family ≡ 15
          → IsOddLeaf
          → testbit svm_word 2 ≡ true
          → IsEnabled s msrs svm s'
          → Identified (done (info, svm) s')

    module _ (amd : IsAmd (cpuid 0)) (k8 : cpu_family ≡ 15) (odd : IsOddLeaf) where
      -- What `enable_svm` comes to.
      svm-Identified :
          (words : Words) (info : Svm → CpuInfo) (r : Run Svm)
          → words 6 ≡ svm_word
          → Enables s cpuid words msrs r
          → Identified (and_then r (λ svm. done (info svm, svm)))
      svm-Identified words info r same (missing absent) =
          no_extension amd k8 (ap (λ w. testbit w 2) (sym same) ∙ absent)
      svm-Identified words info r same (no_page svme full) = no_frame amd full
      svm-Identified words info r same (enabled svme on) =
          identified amd k8 odd (ap (λ w. testbit w 2) (sym same) ∙ svme) on

    init_amd-Identified :
        (c : CpuInfo)
        → IsAmd (cpuid 0)
        → c.x86 ≡ cpu_family
        → c.x86_capability 6 ≡ svm_word
        → s.nalloc.max_page * 4096 + vmm_offset ≤ 2 ^ 64
        → msrs msr_efer < 2 ^ 64
        → Identified (init_amd cpuid c msrs s)
    unfolding init_amd display_cacheinfo
    init_amd-Identified c amd family6 word6 fits word =
        let caps = amd_capability cpuid c.x86_capability in
        let (name, model) = init_amd_model-lem (record c { x86_capability = caps }) s in
        let low = bit_and-low 1 (cpuid 0x8000_0000).ebx in
        elim (Bool-cases (c.x86 != 15)) [
          | inl other ↦ rw other (other_family amd (ground (arith, family6)))
          | inr same ↦
              let k8 : cpu_family ≡ 15 = ground (arith, family6) in
              rw (same, model)
                (elim (Bool-cases (bit_and (cpuid 0x8000_0000).ebx 1 == 0)) [
                  | inl even ↦ rw even (no_paging amd k8 (ground (arith, low)))
                  | inr odd ↦ rw odd (
                      svm-Identified amd k8 (ground (arith, low)) caps _
                        (enable_svm cpuid caps msrs s)
                        (amd_capability-word6 c.x86_capability ∙ word6)
                        (enable_svm-Enables s cpuid caps msrs fits word))
                ])
        ]

    -- With the registers of leaf 0 of 32 bits, as those of EFER are of 64, and all frames at an
    -- address: `identify_cpu` ends in one of six ways. It stops because the vendor is not AMD, or
    -- the family not 15, or register EBX of leaf 0x80000000 even, or bit 2 of ECX of leaf
    -- 0x80000001 (0 where there is no such leaf) missing, or no frame is left. Else SVME is set in
    -- EFER, which is otherwise as before, the host's save area is the first free frame, cleared,
    -- its physical address is in HSAVE_PA, and no other register or byte has changed, but for the
    -- frame's mark.
    pub identify_cpu-Identified :
        (c : CpuInfo)
        → AreWords (cpuid 0)
        → s.nalloc.max_page * 4096 + vmm_offset ≤ 2 ^ 64
        → msrs msr_efer < 2 ^ 64
        → Identified (identify_cpu cpuid c msrs s)
    unfolding identify_cpu
    identify_cpu-Identified c words fits word =
        let c1 = early_identify_cpu cpuid c in
        let (decode, encode) = get_cpu_vendor-IsAmd (cpuid 0) (reset c) words in
        let vendor = early-x86_vendor c in
        elim (Bool-cases (c1.x86_vendor == x86_vendor_amd)) [
          | inr other ↦ rw other (other_vendor (λ a. ground (arith, vendor, encode a)))
          | inl is ↦
              let amd : IsAmd (cpuid 0) = decode (sym vendor ∙ ground arith) in
              rw is (init_amd-Identified c1 amd (early-x86 c) (early-word6 c) fits word)
        ]

    no_paging-even :
        {r : Run (CpuInfo × Svm)}
        → Identified r
        → r ≡ fatal no_nested_paging
        → (cpuid 0x8000_0000).ebx % 2 ≡ 0
    no_paging-even (other_vendor a) e = cc
    no_paging-even (other_family amd f) e = cc
    no_paging-even (no_paging amd k8 even) e = even
    no_paging-even (no_extension amd k8 absent) e = cc
    no_paging-even (no_frame amd full) e = cc
    no_paging-even (identified amd k8 odd svme on) e = cc

    -- On a processor on which leaf 0x80000000 repeats the vendor's name in EBX, as AMD's do, the
    -- test for nested paging never stops `identify_cpu`, whatever the other leaves report.
    pub identify_cpu-nested_paging :
        (c : CpuInfo)
        → AreWords (cpuid 0)
        → s.nalloc.max_page * 4096 + vmm_offset ≤ 2 ^ 64
        → msrs msr_efer < 2 ^ 64
        → IsAmd (cpuid 0)
        → (cpuid 0x8000_0000).ebx ≡ (cpuid 0).ebx
        → identify_cpu cpuid c msrs s ≢ fatal no_nested_paging
    identify_cpu-nested_paging c words fits word amd repeats e =
        omega (arith, no_paging-even (identify_cpu-Identified c words fits word) e, repeats, amd.0)
