-- ===== src/Svm.antt =====
-- kernel/svm.c, and what it uses of include/msr.h: the extension is enabled in a model-specific
-- register, and gets a page for the host's state.
pub mod Enabled
use tvmm.Base.{ℕ, ◌+◌, ◌*◌, ◌/◌, ◌^◌, Bool, not, ◌==◌, ◌!=◌, bit_or, if◌then◌else◌}
use tvmm.Base.Word.{w32, shl64, shr}
use tvmm.CString.{memset}
use tvmm.Page.{page_shift, page_size, phys, virt}
use tvmm.Failure.{no_svm}
use tvmm.Kernel.{State, Kernel, pure, fail, update_mem, ◌>>=◌, ◌>>◌}
use tvmm.Alloc.{alloc_pages}
use tvmm.Vmcb.{efer_svme}
use tvmm.Bitops.{Words, set_word, constant_test_bit}

-- The registers after `cpuid`, which is the processor's.
pub record Registers : Type 0 where
  pub eax : ℕ
  pub ebx : ℕ
  pub ecx : ℕ
  pub edx : ℕ

abbrev pub Cpuid : Type 0
Cpuid = ℕ → Registers

-- The model-specific registers, of 64 bits.
abbrev pub Msrs : Type 0
Msrs = ℕ → ℕ

abbrev pub msr_efer : ℕ
msr_efer = 0xc000_0080

abbrev pub msr_k8_vm_hsave_pa : ℕ
msr_k8_vm_hsave_pa = 0xc001_0117

abbrev pub x86_feature_svme : ℕ
x86_feature_svme = 6 * 32 + 2

-- `wrmsr`, with the low and the high word.
unfoldable pub wrmsr : ℕ → ℕ → ℕ → Msrs → Msrs
wrmsr msr low high msrs i = if i == msr then low + high * 2 ^ 32 else msrs i

-- The words of `rdmsr`.
abbrev pub rdmsr_low : ℕ → Msrs → ℕ
rdmsr_low msr msrs = w32 (msrs msr)

abbrev pub rdmsr_high : ℕ → Msrs → ℕ
rdmsr_high msr msrs = w32 (msrs msr / 2 ^ 32)

unfoldable pub alloc_host_save_area : Kernel ℕ
alloc_host_save_area = do
  n ← alloc_pages 1 1
  let hsa = virt (shl64 n page_shift)
  update_mem (λ m. if hsa != 0 then memset m hsa 0 page_size else m)
  pure hsa

-- The block that sets EFER.SVME.
unfoldable pub set_svme : Msrs → Msrs
set_svme msrs =
    wrmsr msr_efer (w32 (bit_or (rdmsr_low msr_efer msrs) efer_svme)) (rdmsr_high msr_efer msrs)
      msrs

unfoldable pub set_hsave : ℕ → Msrs → Msrs
set_hsave host_save_area msrs =
    let phys_hsa = phys host_save_area in
    wrmsr msr_k8_vm_hsave_pa (w32 phys_hsa) (w32 (shr phys_hsa 32)) msrs

-- The capability words, the model-specific registers and `host_save_area` after it.
pub record Svm : Type 0 where
  pub x86_capability : Words
  pub msrs : Msrs
  pub host_save_area : ℕ

unfoldable pub enable_svm : Cpuid → Words → Msrs → Kernel Svm
enable_svm cpuid x86_capability msrs s =
    let words = set_word 5 (cpuid 0x8000_0001).ecx x86_capability in
    let enabled = do
      host_save_area ← alloc_host_save_area
      pure (record {
        x86_capability = words;
        msrs = set_hsave host_save_area (set_svme msrs);
        host_save_area = host_save_area;
      })
    in if not (constant_test_bit x86_feature_svme words) then fail no_svm s else enabled s
