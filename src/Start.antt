-- ===== src/Start.antt =====
-- kernel/setup.c: `setup_arch` and `start_vmm`, the whole run of the monitor from the boot loader's
-- call to the end of the guest.
mod Processor
pub mod Guest
pub mod Writes
pub mod Success
mod Sample
mod GuestTests
use tvmm.Base.{ℕ}
use tvmm.Page.{virt}
use tvmm.Kernel.{Kernel, pure, ◌>>=◌}
use tvmm.Multiboot.{MultibootInfo}
use tvmm.Alloc.{PmemLayout}
use tvmm.Vmcb.{Vmcb}
use tvmm.Svm.{Cpuid, Msrs, Svm}
use tvmm.Cpu.{CpuInfo, identify_cpu}
use tvmm.Vm.{Vm, vm_create, vm_boot}
use tvmm.Setup.{CmdlineOption, parse_cmdline, setup_arch_memory}

-- `end_symbol` is the address of the linker's `_end`; `pml` and `c` are variables of which every
-- field that is read has been assigned before.
unfoldable pub setup_arch :
    ℕ
    → MultibootInfo
    → CmdlineOption
    → PmemLayout
    → Cpuid
    → CpuInfo
    → Msrs
    → Kernel (PmemLayout × Svm)
setup_arch end_symbol mbi opt pml cpuid c msrs = do
  pml' ← setup_arch_memory end_symbol mbi opt pml
  (info, svm) ← identify_cpu cpuid c msrs
  pure (pml', svm)

unfoldable pub start_vmm :
    ℕ → Cpuid → (ℕ → Vmcb → Kernel Vmcb) → MultibootInfo → PmemLayout → CpuInfo → Msrs → Kernel Vm
start_vmm end_symbol cpuid svm_launch mbi pml c msrs = do
  let opt = parse_cmdline mbi
  (pml', svm) ← setup_arch end_symbol mbi opt pml cpuid c msrs
  vm ← vm_create (virt pml'.guest_image_start) pml'.guest_image_size opt.vm_pmem_size
  vm_boot svm_launch vm
