-- ===== src/Start/Writes.antt =====
-- kernel/setup.c: where the run of the monitor writes until it launches the guest, against the
-- kernel's place and the first 1 GB, which is what boot.S maps.
use tvmm.Base.{ℕ, ◌+◌, ◌*◌, ◌/◌, ◌^◌, ◌≤◌, ◌<◌, ◌≡◌, ◌⊎◌, refl, ◌∙◌, arith}
use tvmm.Memory.{byte}
use tvmm.Page.{phys, virt, vmm_offset}
use tvmm.Kernel.{NaiveAllocator, State, Kernel}
use tvmm.Kernel.Laws.{Ends, Ends-map, both-Ends, and_then-Ends}
use tvmm.Multiboot.{MultibootInfo}
use tvmm.E820.{E820Map}
use tvmm.E820.Setup.{Layout}
use tvmm.Alloc.{PmemLayout}
use tvmm.Paging.Tables.{IsFar}
use tvmm.Paging.Booted.{no_tables}
use tvmm.Vmcb.{Vmcb}
use tvmm.Elf.Loadable.{IsLoadable}
use tvmm.Elf.Moved.{IsLoadable-moved}
use tvmm.Vm.{Vm, vm_create, vm_boot}
use tvmm.Vm.Prepared.{IsAfter}
use tvmm.Vm.Created.{IsCreated, vm_create-IsCreated, vm_boot-launches}
use tvmm.Vm.Runnable.{IsRunnable, vm_create-Prepared}
use tvmm.Svm.{Cpuid, Msrs}
use tvmm.Cpu.{CpuInfo, identify_cpu}
use tvmm.Setup.{parse_cmdline, setup_arch_memory}
use tvmm.Setup.LowMap.{IsLowInput, AreLowEntries}
use tvmm.Setup.Image.{IsReady, setup_arch_memory-IsReady}
use tvmm.Setup.Writes.{WritesWithin, IsSetUp, setup_arch_memory-Confines}
use tvmm.Start.{setup_arch, start_vmm}
use tvmm.Start.Processor.{identify_cpu-Ends}
use tvmm.Start.Guest.{
  given_image, given_size, still-IsIdle, image-SameBytes, image-fits, alloc_host_save_area-IsAfter,
}

module _ (mbi : MultibootInfo) (es : E820Map) (s : State) (lo : ℕ) where
  -- Each byte that has changed lies behind the kernel's end and below 1 GB.
  abbrev Confined : State → Type 0
  Confined s' = WritesWithin (lo + vmm_offset) (virt (2 ^ 30)) s.mem s'.mem

  module _
      (loadable : IsLoadable s.mem
        (given_image mbi es s)
        (given_size mbi es s)
        (2 ^ 22 / 4096 * 4096))
      (pml : PmemLayout) (s1 s2 : State) (ready : IsReady mbi es s pml s1)
      (placed : IsSetUp lo s s1) (after : IsAfter s1.nalloc no_tables s1 s2) where
    abbrev image : ℕ
    image = virt pml.guest_image_start

    far : (x : ℕ) → (x < lo + vmm_offset) ⊎ (virt (2 ^ 30) ≤ x) → IsFar s1.nalloc x
    far x out = omega (arith, out, placed.bitmap_from, placed.bitmap_to, ready.few_pages)

    create-Confined :
        Ends
          (λ vm s3. IsCreated s2.nalloc vm s3 × Confined s3)
          (vm_create image pml.guest_image_size (2 ^ 22) s2)
    create-Confined =
        let same : s2.nalloc ≡ s1.nalloc = after.mapped.same in
        let few = ready.few_pages in
        let size = given_size mbi es s in
        let run = vm_create image pml.guest_image_size (2 ^ 22) s2 in
        let moved =
          IsLoadable-moved s.mem s2.mem (given_image mbi es s) image size
            (image-SameBytes mbi es s loadable pml s1 s2 ready after) (2 ^ 22 / 4096 * 4096)
            loadable (image-fits mbi es s loadable pml s1 s2 ready after) in
        both-Ends (IsCreated s2.nalloc) (λ vm s3. Confined s3) run
          (vm_create-IsCreated s2.nalloc (rw same (omega (arith, few))) image pml.guest_image_size
            (2 ^ 22) s2 (omega arith) refl)
          (Ends-map
            (λ vm s3.
              IsRunnable s2.mem image (2 ^ 22) vm s3
              × ((x : ℕ) → IsFar s1.nalloc x → byte s3.mem x ≡ byte s2.mem x))
            (λ vm s3. Confined s3) run
            (vm_create-Prepared s1.nalloc (omega (arith, few)) after.role s2 image
              pml.guest_image_size (2 ^ 22) (omega arith) (omega arith) (rw ready.size_read moved)
              (still-IsIdle mbi es s loadable pml s1 s2 ready after) after.mapped)
            (λ vm s3 (runnable, kept) x out.
              kept x (far x out) ∙ after.protects.far x (far x out) ∙ placed.writes x out))

module _ (mbi : MultibootInfo) (es : E820Map) (s : State) (end_symbol : ℕ) (cpuid : Cpuid)
    (svm_launch : ℕ → Vmcb → Kernel Vmcb) (Q : Vmcb → State → Type 0)
    (launches : (vm : Vm) (s' : State)
      → WritesWithin (phys end_symbol + vmm_offset) (virt (2 ^ 30)) s.mem s'.mem
      → Ends Q (svm_launch (phys vm.vmcb_addr) vm.vmcb s')) where
  abbrev Ran : Vm → State → Type 0
  Ran vm s' = Q vm.vmcb s'

  boot-Confined :
      (n : NaiveAllocator) (vm : Vm) (s' : State)
      → IsCreated n vm s' × Confined mbi es s (phys end_symbol) s'
      → Ends Ran (vm_boot svm_launch vm s')
  boot-Confined n vm s' (made, confined) = rw (vm_boot-launches svm_launch s' made) (
      and_then-Ends Q Ran (svm_launch (phys vm.vmcb_addr) vm.vmcb s') _ (launches vm s' confined)
        (λ vmcb s'' q. q))

  -- If the boot loader gives a map of less than 2^32 bytes in the Multiboot format, whose entries
  -- all end below 1 GB, the map, the module records and the first module lie below 1 GB, which is
  -- what boot.S maps, the kernel ends at 4 MB or before, and the first module is an ELF image whose
  -- headers lie in it and whose loadable segments lie in it and in the guest's 4 Mbytes:
  -- `start_vmm` stops with one of its failures, or it launches a guest, and every byte of memory
  -- that it has changed till then (the kernel's variables and the screen aside) lies from the
  -- kernel's end on and below the virtual address of 1 GB, where boot.S has mapped memory. So if
  -- such a launch ends, the whole run does, and what it leaves is what the run leaves.
  pub start_vmm-Confines :
      (pml : PmemLayout) (c : CpuInfo) (msrs : Msrs)
      → mbi.mmap_length < 2 ^ 32
      → Layout s.mem mbi.mmap_addr mbi.mmap_length es
      → AreLowEntries es
      → IsLowInput end_symbol (2 ^ 22) mbi s.mem
      → IsLoadable s.mem (given_image mbi es s) (given_size mbi es s) (2 ^ 22 / 4096 * 4096)
      → Ends (λ vm s'. Q vm.vmcb s') (start_vmm end_symbol cpuid svm_launch mbi pml c msrs s)
  unfolding start_vmm setup_arch parse_cmdline
  start_vmm-Confines pml c msrs word layout low input loadable =
      let opt = parse_cmdline mbi in
      let lo = phys end_symbol in
      let Made : NaiveAllocator → Vm → State → Type 0 =
        λ n vm s3. IsCreated n vm s3 × Confined mbi es s lo s3 in
      let Prepared : PmemLayout → State → Type 0 = λ pml1 s2.
        Ends (Made s2.nalloc)
          (vm_create (virt pml1.guest_image_start) pml1.guest_image_size (2 ^ 22) s2) in
      let memory = setup_arch_memory end_symbol mbi opt pml s in
      and_then-Ends (λ r s2. Prepared r.0 s2) Ran (setup_arch end_symbol mbi opt pml cpuid c msrs s)
        _
        (and_then-Ends (λ pml1 s1. IsReady mbi es s pml1 s1 × IsSetUp lo s s1)
          (λ r s2. Prepared r.0 s2) memory _
          (both-Ends (IsReady mbi es s) (λ pml1 s1. IsSetUp lo s s1) memory
            (setup_arch_memory-IsReady mbi es s end_symbol opt pml word layout low input
              (omega arith))
            (setup_arch_memory-Confines mbi es s low end_symbol opt pml word layout input
              (omega arith)))
          (λ pml1 s1 (ready, placed).
            and_then-Ends (λ r s2. IsAfter s1.nalloc no_tables s1 s2) (λ r s2. Prepared r.0 s2)
              (identify_cpu cpuid c msrs s1) _
              (identify_cpu-Ends (λ s2. IsAfter s1.nalloc no_tables s1 s2) cpuid msrs s1
                (alloc_host_save_area-IsAfter s1.nalloc no_tables s1
                  (omega (arith, ready.few_pages)) ready.mapped)
                c)
              (λ r s2 after. create-Confined mbi es s lo loadable pml1 s1 s2 ready placed after)))
        (λ r s2 prepared.
          and_then-Ends (Made s2.nalloc) Ran
            (vm_create (virt r.0.guest_image_start) r.0.guest_image_size (2 ^ 22) s2) _ prepared
            (λ vm s3 both. boot-Confined s2.nalloc vm s3 both))
