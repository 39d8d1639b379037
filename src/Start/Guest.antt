-- ===== src/Start/Guest.antt =====
-- The run of the monitor from the boot loader's call on: the guest that is launched finds the boot
-- loader's image in its memory.
use tvmm.Base.{ℕ, ◌+◌, ◌-◌, ◌*◌, ◌/◌, ◌^◌, ◌<◌, ◌≡◌, refl, ◌∙◌, arith, true, ◌!=◌}
use tvmm.Base.Word.{w32, shl64}
use tvmm.Page.{phys, virt, page_shift}
use tvmm.Kernel.{NaiveAllocator, State, Kernel}
use tvmm.Kernel.Laws.{Ends, Ends-map, both-Ends, and_then-Ends}
use tvmm.Multiboot.{MultibootInfo, Module, read_module}
use tvmm.E820.{E820Map}
use tvmm.E820.Setup.{Layout}
use tvmm.Alloc.{PmemLayout, alloc_pages}
use tvmm.Paging.Tables.{IsAddressable, IsMapped}
use tvmm.Paging.Aside.{IsIdle, frame_of}
use tvmm.Paging.Given.{IsGiven, alloc_pages-IsGiven}
use tvmm.Paging.Booted.{no_tables}
use tvmm.Vmcb.{Vmcb}
use tvmm.Vmcb.Legal.{IsLegal}
use tvmm.Elf.Loadable.{IsLoadable}
use tvmm.Elf.Moved.{SameBytes, phnum_moved, entry_moved, IsLoadable-moved, image_byte-moved}
use tvmm.Vm.{Vm, vm_create, vm_boot}
use tvmm.Vm.Prepared.{IsAfter, fill-IsAfter}
use tvmm.Vm.Created.{IsCreated, vm_create-IsCreated, vm_boot-launches}
use tvmm.Vm.Runnable.{IsRunnable, vm_create-IsRunnable}
use tvmm.Svm.{Cpuid, Msrs, alloc_host_save_area}
use tvmm.Cpu.{CpuInfo, identify_cpu}
use tvmm.Setup.{parse_cmdline, setup_arch_memory}
use tvmm.Setup.LowMap.{IsLowInput, AreLowEntries}
use tvmm.Setup.Image.{IsReady, setup_arch_memory-IsReady}
use tvmm.Start.{setup_arch, start_vmm}
use tvmm.Start.Processor.{identify_cpu-Ends}

pub alloc_host_save_area-IsAfter :
    (n : NaiveAllocator) (role : ℕ → ℕ) (s : State)
    → IsAddressable n
    → IsMapped n role s
    → Ends (λ a s'. IsAfter n role s s') (alloc_host_save_area s)
unfolding alloc_host_save_area
alloc_host_save_area-IsAfter n role s fits ok =
    and_then-Ends (IsGiven n role s 1 1) (λ a s'. IsAfter n role s s') (alloc_pages 1 1 s) _
      (alloc_pages-IsGiven n role s ok 1 1 (omega arith) (omega (arith, fits)))
      (λ pfn s1 new.
        let there : (virt (shl64 pfn page_shift) != 0) ≡ true = ground (arith, fits, new.within) in
        rw there (fill-IsAfter n fits role s ok 1 1 pfn 0 s1 new))

module _ (mbi : MultibootInfo) (es : E820Map) (s : State) where
  abbrev modl : Module
  modl = read_module s.mem (virt mbi.mods_addr)

  -- Where the boot loader has put the guest's image, and its size.
  abbrev pub given_image : ℕ
  given_image = virt modl.mod_start

  abbrev pub given_size : ℕ
  given_size = w32 (modl.mod_end + 2 ^ 32 - modl.mod_start)

  module _ (loadable : IsLoadable s.mem given_image given_size (2 ^ 22 / 4096 * 4096))
      (pml : PmemLayout) (s1 s2 : State) (ready : IsReady mbi es s pml s1)
      (after : IsAfter s1.nalloc no_tables s1 s2) where
    abbrev image : ℕ
    image = virt pml.guest_image_start

    pub still-IsIdle : IsIdle s1.nalloc after.role s2 image (image + pml.guest_image_size)
    still-IsIdle x lo hi =
        let (far, above, unused) = ready.idle x lo hi in
        (far, above, after.protects.idle (frame_of x) unused)

    pub image-SameBytes : SameBytes s.mem given_image s2.mem image given_size
    image-SameBytes i lt =
        let inside : i < pml.guest_image_size = omega (arith, ready.size_read) in
        let (far, above, unused) = ready.idle (image + i) (omega arith) (omega arith) in
        after.protects.bytes (frame_of (image + i)) (image + i) unused above (omega (arith, far))
          (omega (arith, far))
        ∙ ready.image i inside

    pub image-fits : image + given_size < 2 ^ 64
    image-fits = omega (arith, ready.image_below, ready.size_read)

    pub given-IsRunnable :
        (vm : Vm) (s3 : State)
        → IsRunnable s2.mem image (2 ^ 22) vm s3
        → IsRunnable s.mem given_image (2 ^ 22) vm s3
    given-IsRunnable vm s3 r =
        let moved =
          image_byte-moved s.mem s2.mem given_image image given_size image-SameBytes
            (2 ^ 22 / 4096 * 4096) loadable image-fits in
        let same_number =
          phnum_moved s.mem s2.mem given_image image given_size image-SameBytes
            (2 ^ 22 / 4096 * 4096) loadable image-fits in
        record {
          start = r.start;
          table = r.table;
          nested = r.nested;
          identity = r.identity;
          contents = λ a b high inside off e.
              r.contents a b high inside off (rw same_number (moved _ a (omega arith)) ∙ e);
          entry_point =
              r.entry_point
              ∙ entry_moved s.mem s2.mem given_image image given_size image-SameBytes
                  (2 ^ 22 / 4096 * 4096) loadable image-fits;
        }

    created :
        Ends
          (λ vm s3. IsCreated s2.nalloc vm s3 × IsRunnable s.mem given_image (2 ^ 22) vm s3)
          (vm_create image pml.guest_image_size (2 ^ 22) s2)
    created =
        let same : s2.nalloc ≡ s1.nalloc = after.mapped.same in
        let few = ready.few_pages in
        both-Ends (IsCreated s2.nalloc) (IsRunnable s.mem given_image (2 ^ 22)) _
          (vm_create-IsCreated s2.nalloc (rw same (omega (arith, few))) image pml.guest_image_size
            (2 ^ 22) s2 (omega arith) refl)
          (Ends-map (IsRunnable s2.mem image (2 ^ 22)) (IsRunnable s.mem given_image (2 ^ 22)) _
            (vm_create-IsRunnable s1.nalloc (omega (arith, few)) after.role s2 image
              pml.guest_image_size (2 ^ 22) (omega arith) (omega arith)
              (rw ready.size_read (
                IsLoadable-moved s.mem s2.mem given_image image given_size image-SameBytes
                  (2 ^ 22 / 4096 * 4096) loadable image-fits))
              still-IsIdle after.mapped)
            given-IsRunnable)

  module _ (cpuid : Cpuid) (svm_launch : ℕ → Vmcb → Kernel Vmcb) (Q : Vmcb → State → Type 0)
      (launches : (vm : Vm) (s' : State)
        → IsLegal vm.vmcb
        → IsRunnable s.mem given_image (2 ^ 22) vm s'
        → Ends Q (svm_launch (phys vm.vmcb_addr) vm.vmcb s')) where
    boot-Ends :
        (n : NaiveAllocator) (vm : Vm) (s' : State)
        → IsCreated n vm s' × IsRunnable s.mem given_image (2 ^ 22) vm s'
        → Ends (λ vm' s''. Q vm'.vmcb s'') (vm_boot svm_launch vm s')
    boot-Ends n vm s' (made, runnable) = rw (vm_boot-launches svm_launch s' made) (
        and_then-Ends Q (λ vm' s''. Q vm'.vmcb s'') (svm_launch (phys vm.vmcb_addr) vm.vmcb s') _
          (launches vm s' made.legal runnable) (λ vmcb s'' q. q))

    -- If the boot loader gives a map of less than 2^32 bytes in the Multiboot format, whose entries
    -- all end below 1 GB, the map, the module records and the first module lie below 1 GB, which is
    -- what boot.S maps, the kernel ends at 4 MB or before, and the first module is an ELF image
    -- whose headers lie in it and whose loadable segments lie in it and in the guest's 4 Mbytes:
    -- `start_vmm` stops with one of its failures, or it launches a guest, with a legal control
    -- block and only if the guest's memory is ready. Through the machine's page table each of its
    -- addresses is one of the host's, the guest's own page table maps its first 4 Mbytes to
    -- themselves, the bytes of the boot loader's image are at their addresses from 2 Mbytes on,
    -- outside the three frames from 0x203000 on, and execution begins at the image's entry point.
    -- So if such a launch ends, the whole run does, and what it leaves is what the run leaves.
    pub start_vmm-IsRunnable :
        (end_symbol : ℕ) (pml : PmemLayout) (c : CpuInfo) (msrs : Msrs)
        → mbi.mmap_length < 2 ^ 32
        → Layout s.mem mbi.mmap_addr mbi.mmap_length es
        → AreLowEntries es
        → IsLowInput end_symbol (2 ^ 22) mbi s.mem
        → IsLoadable s.mem given_image given_size (2 ^ 22 / 4096 * 4096)
        → Ends (λ vm s'. Q vm.vmcb s') (start_vmm end_symbol cpuid svm_launch mbi pml c msrs s)
    unfolding start_vmm setup_arch parse_cmdline
    start_vmm-IsRunnable end_symbol pml c msrs word layout low input loadable =
        let Result : Vm → State → Type 0 = λ vm s'. Q vm.vmcb s' in
        let Prepared : PmemLayout → State → Type 0 = λ pml1 s2.
          Ends (λ vm s3. IsCreated s2.nalloc vm s3 × IsRunnable s.mem given_image (2 ^ 22) vm s3)
            (vm_create (virt pml1.guest_image_start) pml1.guest_image_size (2 ^ 22) s2) in
        and_then-Ends (λ r s2. Prepared r.0 s2) Result
          (setup_arch end_symbol mbi (parse_cmdline mbi) pml cpuid c msrs s) _
          (and_then-Ends (IsReady mbi es s) (λ r s2. Prepared r.0 s2)
            (setup_arch_memory end_symbol mbi (parse_cmdline mbi) pml s) _
            (setup_arch_memory-IsReady mbi es s end_symbol (parse_cmdline mbi) pml word layout low
              input (omega arith))
            (λ pml1 s1 ready.
              and_then-Ends (λ r s2. IsAfter s1.nalloc no_tables s1 s2) (λ r s2. Prepared r.0 s2)
                (identify_cpu cpuid c msrs s1) _
                (identify_cpu-Ends (λ s2. IsAfter s1.nalloc no_tables s1 s2) cpuid msrs s1
                  (alloc_host_save_area-IsAfter s1.nalloc no_tables s1
                    (omega (arith, ready.few_pages)) ready.mapped)
                  c)
                (λ r s2 after. created loadable pml1 s1 s2 ready after)))
          (λ r s2 prepared.
            and_then-Ends
              (λ vm s3. IsCreated s2.nalloc vm s3 × IsRunnable s.mem given_image (2 ^ 22) vm s3)
              Result (vm_create (virt r.0.guest_image_start) r.0.guest_image_size (2 ^ 22) s2) _
              prepared (λ vm s3 both. boot-Ends s2.nalloc vm s3 both))
