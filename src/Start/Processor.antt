-- ===== src/Start/Processor.antt =====
-- kernel/setup.c: what `identify_cpu` does to the memory is what `alloc_host_save_area` does.
use tvmm.Base.{◌≡◌, refl, subst, sym, not, ◌==◌, ◌!=◌, bit_and}
use tvmm.Kernel.{State}
use tvmm.Kernel.Laws.{Ends, and_then-Ends, either-Ends, either_command-Ends}
use tvmm.Bitops.{Words, set_word, constant_test_bit}
use tvmm.Svm.{Cpuid, Msrs, enable_svm, alloc_host_save_area, x86_feature_svme}
use tvmm.Cpu.{
  CpuInfo, identify_cpu, init_amd, init_amd_model, amd_capability, early_identify_cpu,
  x86_vendor_amd, display_cacheinfo,
}
use tvmm.Cpu.Identify.{init_amd_model-lem}

module _ (Q : State → Type 0) (cpuid : Cpuid) (msrs : Msrs) (s : State)
    (saved : Ends (λ a s'. Q s') (alloc_host_save_area s)) where
  enable_svm-Ends : (words : Words) → Ends (λ a s'. Q s') (enable_svm cpuid words msrs s)
  unfolding enable_svm
  enable_svm-Ends words =
      either-Ends (λ a s'. Q s')
        (not (constant_test_bit x86_feature_svme (set_word 5 (cpuid 0x8000_0001).ecx words))) _ _ tt
        (and_then-Ends (λ a s'. Q s') (λ a s'. Q s') (alloc_host_save_area s) _ saved
          (λ hsa s1 q. q))

  init_amd_model-Ends : (c : CpuInfo) → Ends (λ a s'. s' ≡ s) (init_amd_model cpuid c s)
  init_amd_model-Ends c =
      let (name, model) = init_amd_model-lem cpuid c s in
      rw model (either-Ends (λ a s'. s' ≡ s) (bit_and (cpuid 0x8000_0000).ebx 1 == 0) _ _ tt refl)

  init_amd-Ends : (c : CpuInfo) → Ends (λ a s'. Q s') (init_amd cpuid c msrs s)
  unfolding init_amd
  init_amd-Ends c =
      let named = record c { x86_capability = amd_capability cpuid c.x86_capability } in
      either_command-Ends (λ a s'. Q s') (c.x86 != 15) _ _ s tt
        (and_then-Ends (λ a s'. s' ≡ s) (λ a s'. Q s') (init_amd_model cpuid named s) _
          (init_amd_model-Ends named)
          (λ c1 s1 same.
            let words = (display_cacheinfo cpuid c1).x86_capability in
            and_then-Ends (λ a s'. Q s') (λ a s'. Q s') (enable_svm cpuid words msrs s1) _
              (subst (λ t. Ends (λ a s'. Q s') (enable_svm cpuid words msrs t)) (sym same)
                (enable_svm-Ends words))
              (λ svm s2 q. q)))

  pub identify_cpu-Ends : (c : CpuInfo) → Ends (λ a s'. Q s') (identify_cpu cpuid c msrs s)
  unfolding identify_cpu
  identify_cpu-Ends c =
      either_command-Ends (λ a s'. Q s') ((early_identify_cpu cpuid c).x86_vendor == x86_vendor_amd)
        _ _ s (init_amd-Ends (early_identify_cpu cpuid c)) tt
