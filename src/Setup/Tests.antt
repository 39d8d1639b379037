-- ===== src/Setup/Tests.antt =====
-- The search for a place at a small map, and at one whose RAM begins at 3 GB.
use tvmm.Base.{◌+◌, ◌*◌, ℕ, ◌^◌, ◌<◌, ◌≡◌, refl, arith, [], ◌∷◌}
use tvmm.Memory.{Mem, store_bytes, load_bytes, store8, load32}
use tvmm.Page.{vmm_offset, virt}
use tvmm.Setup.LowMap.{IsLowInput, module_end}
use tvmm.Kernel.{State, done}
use tvmm.Kernel.Laws.{Ends}
use tvmm.Multiboot.{MultibootInfo, read_module}
use tvmm.E820.Setup.{Layout, none, more, entry}
use tvmm.Setup.Image.{IsReady, setup_arch_memory-IsReady}
use tvmm.E820.{E820Map, E820Entry}
use tvmm.E820.Region.{phys_limit}
use tvmm.Alloc.{PmemLayout}
use tvmm.Setup.{
  find_memory_region_for_saving_guest_image, through_int, setup_arch_memory, CmdlineOption,
}
use tvmm.Setup.Stash.{find_above_2gb}

abbrev layout : PmemLayout
layout = record {
  max_page = 0;
  total_pages = 0;
  vmm_heap_start = 0;
  vmm_heap_end = 2 ^ 22;
  guest_image_start = 0;
  guest_image_size = 0;
}

abbrev state : State
state = record { mem = λ a. 0; nalloc = record { alloc_bitmap = 0; max_page = 0 } }

abbrev low_ram : E820Map
low_ram =
    record { addr = 0; size = 0x9fc00; type = 1 }
    ∷ record { addr = 2 ^ 20; size = 2 ^ 24; type = 1 }
    ∷ []

behind_the_heap :
    find_memory_region_for_saving_guest_image low_ram layout 0x5000 state ≡ done (2 ^ 22) state
unfolding find_memory_region_for_saving_guest_image through_int
behind_the_heap = refl

abbrev high_entry : E820Entry
high_entry = record { addr = 0xC000_0000; size = 2 ^ 24; type = 1 }

find_above_2gb_example :
    (a : ℕ) × (find_memory_region_for_saving_guest_image (high_entry ∷ []) layout 0x5000 state
      ≡ done a state)
    × (phys_limit < a)
find_above_2gb_example =
    find_above_2gb layout 0x5000 state high_entry [] refl (omega arith) (omega arith) (omega arith)
      (omega arith)

-- A boot loader's map of 640 KB and of 64 MB from 1 MB on, at 0x100, and a module of 20 KB at 48 MB,
-- described at 0x200.
abbrev pc_ram : E820Map
pc_ram =
    record { addr = 0; size = 0x9fc00; type = 1 }
    ∷ record { addr = 0x10_0000; size = 0x400_0000; type = 1 }
    ∷ []

abbrev boot_memory : Mem
boot_memory =
    store_bytes
      (store_bytes (store_bytes (λ a. 0) 0x100 24 (20 + 0x9fc00 * 2 ^ 96 + 1 * 2 ^ 160)) 0x118 24
        (20 + 0x10_0000 * 2 ^ 32 + 0x400_0000 * 2 ^ 96 + 1 * 2 ^ 160))
      (vmm_offset + 0x200) 8 (0x300_0000 + 0x300_5000 * 2 ^ 32)

abbrev information : MultibootInfo
information = record {
  flags = 0x48;
  mem_lower = 640;
  mem_upper = 2 ^ 16;
  boot_device = 0;
  cmdline = 0;
  mods_count = 1;
  mods_addr = 0x200;
  mmap_length = 48;
  mmap_addr = 0x100;
}

abbrev boot_state : State
boot_state = record { mem = boot_memory; nalloc = record { alloc_bitmap = 0; max_page = 0 } }

boot-Layout : Layout boot_memory 0x100 48 pc_ram
unfolding load32 load_bytes store_bytes store8
boot-Layout =
    more 20 24 (entry refl refl refl refl) refl
      (more 20 0 (entry refl refl refl refl) refl (none refl))

abbrev options : CmdlineOption
options = record { vmm_heap_size = 2 ^ 22; vm_pmem_size = 2 ^ 22 }

module_place : module_end (read_module boot_memory (virt 0x200)) ≡ 0x300_5000
unfolding read_module load32 load_bytes store_bytes store8
module_place = refl

information-IsLowInput : IsLowInput (vmm_offset + 0x10_8000) (2 ^ 22) information boot_memory
information-IsLowInput = record {
  kernel = omega arith;
  map = omega arith;
  modules = omega arith;
  image = omega (arith, module_place);
}

setup_arch_memory-IsReady_example :
    Ends
      (IsReady information pc_ram boot_state)
      (setup_arch_memory (vmm_offset + 0x10_8000) information options layout boot_state)
setup_arch_memory-IsReady_example =
    setup_arch_memory-IsReady information pc_ram boot_state (vmm_offset + 0x10_8000) options layout
      (omega arith) boot-Layout (omega arith) information-IsLowInput (omega arith)
