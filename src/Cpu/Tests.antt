-- ===== src/Cpu/Tests.antt =====
-- A processor of family 15 with the extension, and 4096 free page frames.
use tvmm.Base.{ℕ, ◌≡◌, ◌≢◌, ◌↔◌, refl, arith, ◌==◌, if◌then◌else◌}
use tvmm.Failure.{no_nested_paging}
use tvmm.Kernel.{NaiveAllocator, State, fatal}
use tvmm.Svm.{Registers, Cpuid, Msrs, msr_efer}
use tvmm.Cpu.{CpuInfo, identify_cpu, read_vendor, x86_vendor_amd}
use tvmm.Cpu.Vendor.{IsAmd, get_cpu_vendor-IsAmd}
use tvmm.Cpu.Identify.{Identified, identify_cpu-Identified, identify_cpu-nested_paging}

abbrev amd_leaf : ℕ → Registers
amd_leaf eax = record { eax = eax; ebx = 0x6874_7541; ecx = 0x444d_4163; edx = 0x6974_6e65 }

abbrev plain_leaf : ℕ → ℕ → Registers
plain_leaf eax ecx = record { eax = eax; ebx = 0; ecx = ecx; edx = 0 }

abbrev processor : Cpuid
processor leaf =
    if leaf == 0
    then amd_leaf 1
    else (if leaf == 1
        then plain_leaf 0xf48 0
        else (if leaf == 0x8000_0000
            then amd_leaf 0x8000_0018
            else (if leaf == 0x8000_0001 then plain_leaf 0xf48 4 else plain_leaf 0 0)))

abbrev frames : NaiveAllocator
frames = record { alloc_bitmap = 0x1000; max_page = 4096 }

abbrev state : State
state = record { mem = λ a. 0; nalloc = frames }

abbrev registers : Msrs
registers i = if i == msr_efer then 0x500 else 0

abbrev blank : CpuInfo
blank = record {
  x86 = 0;
  x86_vendor = 0;
  x86_model = 0;
  x86_mask = 0;
  cpuid_level = 0;
  x86_capability = λ i. 0;
  x86_vendor_id = λ a. 0;
  x86_model_id = λ a. 0;
  x86_cache_size = 0;
  x86_clflush_size = 0;
  x86_cache_alignment = 0;
  x86_tlbsize = 0;
  x86_virt_bits = 0;
  x86_phys_bits = 0;
  x86_max_cores = 0;
  x86_power = 0;
  extended_cpuid_level = 0;
}

identify_cpu-Identified_example :
    Identified processor registers state (identify_cpu processor blank registers state)
identify_cpu-Identified_example =
    identify_cpu-Identified processor registers state blank (omega arith) (omega arith)
      (omega arith)

identify_cpu-nested_paging_example :
    identify_cpu processor blank registers state ≢ fatal no_nested_paging
identify_cpu-nested_paging_example =
    identify_cpu-nested_paging processor registers state blank (omega arith) (omega arith)
      (omega arith) (refl, refl, refl) refl

get_cpu_vendor-IsAmd_example :
    ((read_vendor (amd_leaf 1) blank).x86_vendor ≡ x86_vendor_amd) ↔ IsAmd (amd_leaf 1)
get_cpu_vendor-IsAmd_example = get_cpu_vendor-IsAmd (amd_leaf 1) blank (omega arith)
