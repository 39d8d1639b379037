-- ===== src/Start/GuestTests.antt =====
-- A boot loader's map of 640 KB and of 64 MB from 1 MB on, at 0x100, and the sample image at
-- 4000 KB as the module that is described at 0x200.
use tvmm.Base.{
  ℕ, ◌+◌, ◌*◌, ◌/◌, ◌^◌, ◌<◌, ◌≡◌, refl, arith, inr, ltb, false, if◌then◌else◌, [], ◌∷◌,
}
use tvmm.Memory.{Mem, byte, load_bytes, load32, store_bytes, store8}
use tvmm.Page.{vmm_offset, virt}
use tvmm.Setup.LowMap.{IsLowInput, module_end}
use tvmm.Kernel.{State}
use tvmm.Kernel.Laws.{Ends}
use tvmm.Multiboot.{MultibootInfo, read_module}
use tvmm.E820.{E820Map}
use tvmm.E820.Setup.{Layout, none, more, entry}
use tvmm.Elf.Loadable.{IsLoadable}
use tvmm.Elf.Moved.{IsLoadable-moved}
use tvmm.Elf.Sample
use tvmm.Elf.Sample.{place}
use tvmm.Base.Bits.{testbit}
use tvmm.Base.Word.{w64}
use tvmm.Page.{page_up, pfn_down, pfn_up}
use tvmm.Kernel.Success.{Succeeds}
use tvmm.E820.{get_max_pfn, max_pfn_loop, max_pfn_step}
use tvmm.Alloc.Boot.{bitmap_bytes}
use tvmm.Cpu.{family}
use tvmm.Setup.{has_guest_image}
use tvmm.Setup.Room.{HasRoom, main, before}
use tvmm.Start.Success.{IsCapable, start_vmm-Succeeds}
use tvmm.Start.{start_vmm}
use tvmm.Start.Writes.{start_vmm-Confines}
use tvmm.Setup.Writes.{WritesWithin}
use tvmm.Start.Sample.{layout, processor, info, exits, HasExited}
use tvmm.Start.Guest.{given_image, given_size, start_vmm-IsRunnable}

abbrev pc_ram : E820Map
pc_ram =
    record { addr = 0; size = 0x9fc00; type = 1 }
    ∷ record { addr = 0x10_0000; size = 0x400_0000; type = 1 }
    ∷ []

abbrev memory : Mem
memory a =
    if ltb a place
    then store_bytes
        (store_bytes (store_bytes (λ a. 0) 0x100 24 (20 + 0x9fc00 * 2 ^ 96 + 1 * 2 ^ 160)) 0x118 24
          (20 + 0x10_0000 * 2 ^ 32 + 0x400_0000 * 2 ^ 96 + 1 * 2 ^ 160))
        (vmm_offset + 0x200) 8 (0x3E_8000 + 0x3E_8080 * 2 ^ 32) a
    else Sample.memory a

abbrev state : State
state = record { mem = memory; nalloc = record { alloc_bitmap = 0; max_page = 0 } }

abbrev information : MultibootInfo
information = record {
  flags = 0x48;
  mem_lower = 640;
  mem_upper = 2 ^ 16;
  boot_device = 0;
  cmdline = 0;
  mods_count = 1;
  mods_addr = 0x200;
  mmap_length = 48;
  mmap_addr = 0x100;
}

memory-Layout : Layout memory 0x100 48 pc_ram
unfolding load32 load_bytes store_bytes store8
memory-Layout =
    more 20 24 (entry refl refl refl refl) refl
      (more 20 0 (entry refl refl refl refl) refl (none refl))

image_place : given_image information pc_ram state ≡ place
unfolding read_module load32 load_bytes store_bytes store8
image_place = refl

image_size : given_size information pc_ram state ≡ 128
unfolding read_module load32 load_bytes store_bytes store8
image_size = refl

same : (i : ℕ) → i < 128 → byte memory (place + i) ≡ byte Sample.memory (place + i)
same i lt = let high : ltb (place + i) place ≡ false = ground arith in rw high refl

given-IsLoadable :
    IsLoadable memory
      (given_image information pc_ram state)
      (given_size information pc_ram state)
      (2 ^ 22 / 4096 * 4096)
given-IsLoadable =
    rw (image_place, image_size)
      (IsLoadable-moved Sample.memory memory place place 128 same (2 ^ 22 / 4096 * 4096)
        Sample.memory-IsLoadable (omega arith))

module_place : module_end (read_module memory (virt 0x200)) ≡ 0x3E_8080
unfolding read_module load32 load_bytes store_bytes store8
module_place = refl

information-IsLowInput : IsLowInput (vmm_offset + 0x10_8000) (2 ^ 22) information memory
information-IsLowInput = record {
  kernel = omega arith;
  map = omega arith;
  modules = omega arith;
  image = omega (arith, module_place);
}

start_vmm-IsRunnable_example :
    Ends
      (λ vm s'. HasExited vm.vmcb s')
      (start_vmm (vmm_offset + 0x10_8000) processor exits information layout info (λ i. 0) state)
start_vmm-IsRunnable_example =
    start_vmm-IsRunnable information pc_ram state processor exits HasExited
      (λ vm s' legal runnable. refl) (vmm_offset + 0x10_8000) layout info (λ i. 0) (omega arith)
      memory-Layout (omega arith) information-IsLowInput given-IsLoadable

pc_ram-HasRoom : HasRoom (2 ^ 22) (given_size information pc_ram state) 0x410_0000 pc_ram
pc_ram-HasRoom =
    rw image_size (before (inr (omega arith)) (main refl (omega arith) (omega arith) (omega arith)))

bitmap_place : w64 (page_up 0x10_8000 + bitmap_bytes (get_max_pfn pc_ram)) ≡ 0x10_9000
unfolding page_up get_max_pfn max_pfn_loop max_pfn_step pfn_down pfn_up
bitmap_place = refl

processor-IsCapable : IsCapable processor
unfolding family testbit
processor-IsCapable = record {
  words = omega arith;
  amd = (refl, refl, refl);
  k8 = refl;
  nested = refl;
  svme = refl;
}

start_vmm-Succeeds_example :
    Succeeds
      (λ vm s'. HasExited vm.vmcb s')
      (start_vmm (vmm_offset + 0x10_8000) processor exits information layout info (λ i. 0) state)
unfolding has_guest_image
start_vmm-Succeeds_example =
    start_vmm-Succeeds information pc_ram state processor exits HasExited
      (λ vm s' legal runnable. refl) (vmm_offset + 0x10_8000) 0x410_0000 layout info (λ i. 0)
      (omega arith) memory-Layout (omega arith) information-IsLowInput given-IsLoadable refl
      (omega arith) refl pc_ram-HasRoom (omega (arith, image_size)) (omega (arith, bitmap_place))
      processor-IsCapable (omega arith)

-- What the launch finds written, it leaves.
start_vmm-Confines_example :
    Ends
      (λ vm s'. WritesWithin (0x10_8000 + vmm_offset) (virt (2 ^ 30)) memory s'.mem)
      (start_vmm (vmm_offset + 0x10_8000) processor exits information layout info (λ i. 0) state)
start_vmm-Confines_example =
    start_vmm-Confines information pc_ram state (vmm_offset + 0x10_8000) processor exits
      (λ vmcb s'. WritesWithin (0x10_8000 + vmm_offset) (virt (2 ^ 30)) memory s'.mem)
      (λ vm s' within. within) layout info (λ i. 0) (omega arith) memory-Layout (omega arith)
      information-IsLowInput given-IsLoadable
