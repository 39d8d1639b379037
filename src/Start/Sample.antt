-- ===== src/Start/Sample.antt =====
-- What the tests of the run share: variables that hold zeros, an AMD processor with the SVM extension, and a launch that
-- leaves exit code 0x400.
use tvmm.Base.{ℕ, ◌≡◌, ◌==◌, if◌then◌else◌}
use tvmm.Kernel.{State, Kernel, pure}
use tvmm.Alloc.{PmemLayout}
use tvmm.Vmcb.{Vmcb}
use tvmm.Svm.{Registers, Cpuid}
use tvmm.Cpu.{CpuInfo}

abbrev pub layout : PmemLayout
layout = record {
  max_page = 0;
  total_pages = 0;
  vmm_heap_start = 0;
  vmm_heap_end = 0;
  guest_image_start = 0;
  guest_image_size = 0;
}

abbrev amd_leaf : ℕ → Registers
amd_leaf eax = record { eax = eax; ebx = 0x6874_7541; ecx = 0x444d_4163; edx = 0x6974_6e65 }

abbrev plain_leaf : ℕ → ℕ → Registers
plain_leaf eax ecx = record { eax = eax; ebx = 0; ecx = ecx; edx = 0 }

abbrev pub processor : Cpuid
processor leaf =
    if leaf == 0
    then amd_leaf 1
    else (if leaf == 1
        then plain_leaf 0xf48 0
        else (if leaf == 0x8000_0000
            then amd_leaf 0x8000_0018
            else (if leaf == 0x8000_0001 then plain_leaf 0xf48 4 else plain_leaf 0 0)))

abbrev pub info : CpuInfo
info = record {
  x86 = 0;
  x86_vendor = 0;
  x86_model = 0;
  x86_mask = 0;
  cpuid_level = 0;
  x86_capability = λ i. 0;
  x86_vendor_id = λ a. 0;
  x86_model_id = λ a. 0;
  x86_cache_size = 0;
  x86_clflush_size = 0;
  x86_cache_alignment = 0;
  x86_tlbsize = 0;
  x86_virt_bits = 0;
  x86_phys_bits = 0;
  x86_max_cores = 0;
  x86_power = 0;
  extended_cpuid_level = 0;
}

abbrev pub exits : ℕ → Vmcb → Kernel Vmcb
exits vmcb_pa vmcb = pure (record vmcb { control = record vmcb.control { exitcode = 0x400 } })

abbrev pub HasExited : Vmcb → State → Type 0
HasExited vmcb s = vmcb.control.exitcode ≡ 0x400
