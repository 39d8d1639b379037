-- ===== src/Start/Success.antt =====
-- The run of the monitor on a machine that has what it needs.
use tvmm.Base.{
  ℕ, ◌+◌, ◌-◌, ◌*◌, ◌/◌, ◌%◌, ◌^◌, ◌≤◌, ◌<◌, ◌≡◌, refl, sym, ap, ◌∙◌, arith, true, false, ◌!=◌,
  ◌==◌, bit_and, length,
}
use tvmm.Base.Bits.{testbit}
use tvmm.Base.Word.{shl64, w64}
use tvmm.Page.{phys, virt, vmm_offset, page_shift, page_up, pfn_up_2mb}
use tvmm.Kernel.{NaiveAllocator, State, Run, Kernel}
use tvmm.Kernel.Laws.{both-Ends}
use tvmm.Kernel.Success.{Succeeds, Succeeds-Ends, Succeeds-map, both-Succeeds, and_then-Succeeds}
use tvmm.Multiboot.{MultibootInfo, mbi_memmap}
use tvmm.E820.{E820Map, max_entries, get_max_pfn}
use tvmm.E820.Setup.{Layout}
use tvmm.Alloc.{PmemLayout, alloc_pages}
use tvmm.Alloc.Boot.{bitmap_bytes}
use tvmm.Alloc.Supply.{HasFree, Supplied, Outcome-Supplied, alloc_pages-Supplied}
use tvmm.Paging.Tables.{IsAddressable, IsMapped}
use tvmm.Paging.Booted.{no_tables}
use tvmm.Paging.Supply.{filled-HasFree}
use tvmm.Vmcb.{Vmcb}
use tvmm.Vmcb.Legal.{IsLegal}
use tvmm.Elf.Loadable.{IsLoadable}
use tvmm.Elf.Moved.{IsLoadable-moved}
use tvmm.Vm.{Vm, vm_create, vm_boot}
use tvmm.Vm.Prepared.{IsAfter}
use tvmm.Vm.Created.{IsCreated, vm_create-IsCreated, vm_boot-launches}
use tvmm.Vm.Runnable.{IsRunnable}
use tvmm.Vm.Returned.{vm_create-Succeeds}
use tvmm.Svm.{Cpuid, Msrs, Svm, msr_efer, alloc_host_save_area}
use tvmm.Cpu.{CpuInfo, identify_cpu}
use tvmm.Cpu.Vendor.{AreWords, IsAmd}
use tvmm.Cpu.Identify.{
  cpu_family, svm_word, Identified, other_vendor, other_family, no_paging, no_extension, no_frame,
  identified, identify_cpu-Identified,
}
use tvmm.Setup.{parse_cmdline, setup_arch_memory, has_guest_image}
use tvmm.Setup.LowMap.{IsLowInput, AreLowEntries}
use tvmm.Setup.Image.{IsReady, setup_arch_memory-IsReady}
use tvmm.Setup.Room.{HasRoom, IsSupplied, image_end, setup_arch_memory-IsSupplied}
use tvmm.Start.{setup_arch, start_vmm}
use tvmm.Start.Processor.{identify_cpu-Ends}
use tvmm.Start.Guest.{
  given_image, given_size, still-IsIdle, image-SameBytes, image-fits, given-IsRunnable,
  alloc_host_save_area-IsAfter,
}

-- An AMD processor of family 15 with the SVM extension, as `identify_cpu` asks for it.
pub record IsCapable (cpuid : Cpuid) : Type 0 where
  pub words : AreWords (cpuid 0)
  pub amd : IsAmd (cpuid 0)
  pub k8 : cpu_family cpuid ≡ 15
  pub nested : (cpuid 0x8000_0000).ebx % 2 ≡ 1
  pub svme : testbit (svm_word cpuid) 2 ≡ true

module _ (n : NaiveAllocator) (fits : IsAddressable n) (s : State) (ok : IsMapped n no_tables s)
    (b e : ℕ) (inside : e < n.max_page) (some : b + 1 ≤ e) (free : HasFree n b e s) where
  alloc_host_save_area-HasFree : Succeeds (λ a s'. HasFree n (b + 1) e s') (alloc_host_save_area s)
  unfolding alloc_host_save_area
  alloc_host_save_area-HasFree =
      and_then-Succeeds
        (Supplied n e inside s ok.same b free 1 1 b (omega arith) (omega arith) some)
        (λ a s'. HasFree n (b + 1) e s') (alloc_pages 1 1 s) _
        (alloc_pages-Supplied n e inside s ok.same b free 1 1 b (omega arith) (omega arith) some
          (omega arith) (omega (arith, fits)))
        (λ pfn s1 (fit, left).
          let there : (virt (shl64 pfn page_shift) != 0) ≡ true =
            ground (arith, fits, fit.within, ap (λ t. t.max_page) ok.same) in
          rw there (
            filled-HasFree n fits e inside no_tables s ok 1 1 pfn 0 4096 (b + 1) s1 (omega arith)
              fit left))

  module _ (cpuid : Cpuid) (msrs : Msrs) (capable : IsCapable cpuid)
      (word : msrs msr_efer < 2 ^ 64) where
    Identified-Succeeds :
        (r : Run (CpuInfo × Svm)) → Identified cpuid msrs s r → Succeeds (λ a s'. Unit {0}) r
    Identified-Succeeds r (other_vendor other) = other capable.amd
    Identified-Succeeds r (other_family amd other) = other capable.k8
    Identified-Succeeds r (no_paging amd k8 even) = omega (arith, even, capable.nested)
    Identified-Succeeds r (no_extension amd k8 absent) =
        let svme = capable.svme in let both : true ≡ false = sym svme ∙ absent in cc
    Identified-Succeeds r (no_frame amd full) =
        Outcome-Supplied n e inside s ok.same b free 1 1 b (omega arith) (omega arith) some _ full
    Identified-Succeeds r (identified amd k8 odd svme on) = tt

    -- What is left of the free pages, and that nothing else was touched.
    identify_cpu-HasFree :
        (c : CpuInfo)
        → Succeeds
            (λ r s'. IsAfter n no_tables s s' × HasFree n (b + 1) e s')
            (identify_cpu cpuid c msrs s)
    identify_cpu-HasFree c =
        let run = identify_cpu cpuid c msrs s in
        let bound : s.nalloc.max_page * 4096 + vmm_offset ≤ 2 ^ 64 =
          omega (arith, fits, ap (λ t. t.max_page) ok.same) in
        Succeeds-map (λ r s'. (IsAfter n no_tables s s' × HasFree n (b + 1) e s') × Unit {0})
          (λ r s'. IsAfter n no_tables s s' × HasFree n (b + 1) e s') run
          (both-Succeeds (λ r s'. IsAfter n no_tables s s' × HasFree n (b + 1) e s')
            (λ r s'. Unit {0}) run
            (both-Ends (λ r s'. IsAfter n no_tables s s') (λ r s'. HasFree n (b + 1) e s') run
              (identify_cpu-Ends (λ s'. IsAfter n no_tables s s') cpuid msrs s
                (alloc_host_save_area-IsAfter n no_tables s fits ok) c)
              (identify_cpu-Ends (λ s'. HasFree n (b + 1) e s') cpuid msrs s
                (Succeeds-Ends (λ a s'. HasFree n (b + 1) e s') (alloc_host_save_area s)
                  alloc_host_save_area-HasFree)
                c))
            (Identified-Succeeds run
              (identify_cpu-Identified cpuid msrs s c capable.words bound word)))
          (λ r s' both. both.0)

module _ (mbi : MultibootInfo) (es : E820Map) (s : State) where
  -- The guest is made in what the processor's identification leaves of the free pages.
  module _
      (loadable : IsLoadable s.mem
        (given_image mbi es s)
        (given_size mbi es s)
        (2 ^ 22 / 4096 * 4096))
      (pml : PmemLayout) (s1 s2 : State) (ready : IsReady mbi es s pml s1)
      (after : IsAfter s1.nalloc no_tables s1 s2) (b e : ℕ) (inside : e < s1.nalloc.max_page)
      (enough : b + 1546 ≤ e) (free : HasFree s1.nalloc b e s2) where
    abbrev image : ℕ
    image = virt pml.guest_image_start

    abbrev Made : Vm → State → Type 0
    Made vm s3 = IsCreated s2.nalloc vm s3 × IsRunnable s.mem (given_image mbi es s) (2 ^ 22) vm s3

    create-Succeeds : Succeeds Made (vm_create image pml.guest_image_size (2 ^ 22) s2)
    unfolding pfn_up_2mb
    create-Succeeds =
        let same : s2.nalloc ≡ s1.nalloc = after.mapped.same in
        let few = ready.few_pages in
        let size = given_size mbi es s in
        let run = vm_create image pml.guest_image_size (2 ^ 22) s2 in
        let moved =
          IsLoadable-moved s.mem s2.mem (given_image mbi es s) image size
            (image-SameBytes mbi es s loadable pml s1 s2 ready after) (2 ^ 22 / 4096 * 4096)
            loadable (image-fits mbi es s loadable pml s1 s2 ready after) in
        both-Succeeds (IsCreated s2.nalloc) (IsRunnable s.mem (given_image mbi es s) (2 ^ 22)) run
          (vm_create-IsCreated s2.nalloc (rw same (omega (arith, few))) image pml.guest_image_size
            (2 ^ 22) s2 (omega arith) refl)
          (Succeeds-map (IsRunnable s2.mem image (2 ^ 22))
            (IsRunnable s.mem (given_image mbi es s) (2 ^ 22)) run
            (vm_create-Succeeds s1.nalloc (omega (arith, few)) after.role s2 image
              pml.guest_image_size (2 ^ 22) (omega arith) (omega arith) (rw ready.size_read moved)
              (still-IsIdle mbi es s loadable pml s1 s2 ready after) after.mapped b
              ((b + 517) / 512 * 512) e inside (omega arith) (omega arith) (omega arith) free)
            (given-IsRunnable mbi es s loadable pml s1 s2 ready after))

  module _ (cpuid : Cpuid) (svm_launch : ℕ → Vmcb → Kernel Vmcb) (Q : Vmcb → State → Type 0)
      (launches : (vm : Vm) (s' : State)
        → IsLegal vm.vmcb
        → IsRunnable s.mem (given_image mbi es s) (2 ^ 22) vm s'
        → Succeeds Q (svm_launch (phys vm.vmcb_addr) vm.vmcb s')) where
    abbrev Ran : Vm → State → Type 0
    Ran vm s' = Q vm.vmcb s'

    boot-Succeeds :
        (n : NaiveAllocator) (vm : Vm) (s' : State)
        → IsCreated n vm s' × IsRunnable s.mem (given_image mbi es s) (2 ^ 22) vm s'
        → Succeeds Ran (vm_boot svm_launch vm s')
    boot-Succeeds n vm s' (made, runnable) = rw (vm_boot-launches svm_launch s' made) (
        and_then-Succeeds Q Ran (svm_launch (phys vm.vmcb_addr) vm.vmcb s') _
          (launches vm s' made.legal runnable) (λ vmcb s'' q. q))

    -- If the boot loader gives a map of at most 128 entries in less than 2^32 bytes, in the
    -- Multiboot format, whose entries all end below 1 GB, and the guest's image as its first
    -- module; the map, the module records and the first module lie below 1 GB, which is what boot.S
    -- maps, and the kernel and the bitmap behind it end before 4 MB; the image is an ELF image whose headers lie in it and whose loadable segments lie in it
    -- and in the guest's 4 Mbytes; the first RAM that reaches behind 4 MB begins before it and goes
    -- on for the image's size and 0x610000 bytes; and the processor is an AMD one of family 15 with
    -- the SVM extension, and the bit that `identify_cpu` takes for nested paging: `start_vmm` stops
    -- with no failure of its own. It launches a guest with a legal control block, whose memory is
    -- ready as `start_vmm-IsRunnable` says, and if such a launch returns, the whole run does, with
    -- what the launch leaves.
    pub start_vmm-Succeeds :
        (end_symbol end : ℕ) (pml : PmemLayout) (c : CpuInfo) (msrs : Msrs)
        → mbi.mmap_length < 2 ^ 32
        → Layout s.mem mbi.mmap_addr mbi.mmap_length es
        → AreLowEntries es
        → IsLowInput end_symbol (2 ^ 22) mbi s.mem
        → IsLoadable s.mem (given_image mbi es s) (given_size mbi es s) (2 ^ 22 / 4096 * 4096)
        → (bit_and mbi.flags mbi_memmap == 0) ≡ false
        → length es ≤ max_entries
        → has_guest_image mbi ≡ true
        → HasRoom (2 ^ 22) (given_size mbi es s) end es
        → 2 ^ 22 + given_size mbi es s + 0x61_0000 ≤ end
        → w64 (page_up (phys end_symbol) + bitmap_bytes (get_max_pfn es)) < 2 ^ 22
        → IsCapable cpuid
        → msrs msr_efer < 2 ^ 64
        → Succeeds (λ vm s'. Q vm.vmcb s') (start_vmm end_symbol cpuid svm_launch mbi pml c msrs s)
    unfolding start_vmm setup_arch parse_cmdline
    start_vmm-Succeeds end_symbol end pml c msrs word layout low input loadable has few image room
          large bitmap capable efer =
        let opt = parse_cmdline mbi in
        let size = given_size mbi es s in
        let b : ℕ = image_end mbi es s (2 ^ 22) in
        let e : ℕ = end / 4096 - 1 in
        let Prepared : PmemLayout → State → Type 0 = λ pml1 s2.
          Succeeds
            (λ vm s3.
              IsCreated s2.nalloc vm s3 × IsRunnable s.mem (given_image mbi es s) (2 ^ 22) vm s3)
            (vm_create (virt pml1.guest_image_start) pml1.guest_image_size (2 ^ 22) s2) in
        and_then-Succeeds (λ r s2. Prepared r.0 s2) Ran
          (setup_arch end_symbol mbi opt pml cpuid c msrs s) _
          (and_then-Succeeds
            (λ pml1 s1. IsReady mbi es s pml1 s1 × IsSupplied mbi es s (2 ^ 22) end s1)
            (λ r s2. Prepared r.0 s2) (setup_arch_memory end_symbol mbi opt pml s) _
            (both-Succeeds (IsReady mbi es s) (λ pml1 s1. IsSupplied mbi es s (2 ^ 22) end s1)
              (setup_arch_memory end_symbol mbi opt pml s)
              (setup_arch_memory-IsReady mbi es s end_symbol opt pml word layout low input
                (omega arith))
              (setup_arch_memory-IsSupplied mbi es s end_symbol end opt pml word layout low has few
                image room (omega arith) bitmap))
            (λ pml1 s1 (ready, (free, above)).
              let inside : e < s1.nalloc.max_page = omega (arith, above, large) in
              and_then-Succeeds
                (λ r s2. IsAfter s1.nalloc no_tables s1 s2 × HasFree s1.nalloc (b + 1) e s2)
                (λ r s2. Prepared r.0 s2) (identify_cpu cpuid c msrs s1) _
                (identify_cpu-HasFree s1.nalloc (omega (arith, ready.few_pages)) s1 ready.mapped b e
                  inside (omega arith) (λ p lo hi. free p lo (omega arith)) cpuid msrs capable efer
                  c)
                (λ r s2 (after, left).
                  create-Succeeds loadable pml1 s1 s2 ready after (b + 1) e inside (omega arith)
                    left)))
          (λ r s2 prepared.
            and_then-Succeeds
              (λ vm s3.
                IsCreated s2.nalloc vm s3 × IsRunnable s.mem (given_image mbi es s) (2 ^ 22) vm s3)
              Ran (vm_create (virt r.0.guest_image_start) r.0.guest_image_size (2 ^ 22) s2) _
              prepared (λ vm s3 both. boot-Succeeds s2.nalloc vm s3 both))
