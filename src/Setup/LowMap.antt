-- ===== src/Setup/LowMap.antt =====
-- The first 1 GB of physical memory, all that boot.S:190 maps (to itself and from 0xffff830000000000
-- on) and that the set-up may touch (setup.c:100): a memory map whose entries all end there, and a
-- boot loader's information that lies there with the kernel.
use tvmm.Base.{ℕ, ◌+◌, ◌-◌, ◌^◌, ◌≤◌, ◌<◌, arith, [], ◌∷◌, inl, inr}
use tvmm.Base.Word.{w32}
use tvmm.Memory.{Mem}
use tvmm.Page.{pfn_down, phys, virt}
use tvmm.Multiboot.{MultibootInfo, Module, read_module}
use tvmm.E820.{E820Map, E820Entry, get_max_pfn, max_pfn_step, max_pfn_loop}
use tvmm.E820.Region.{ArePhysEntries}
use tvmm.Setup.Stash.{LiesInRam}

-- All entries end below 1 GB.
abbrev pub AreLowEntries : E820Map → Type 0
AreLowEntries [] = Unit {0}
AreLowEntries (e ∷ rest) = (e.addr + e.size < 2 ^ 30) × AreLowEntries rest

-- Where the module ends, by its size as the set-up computes it.
abbrev pub module_end : Module → ℕ
module_end modl = modl.mod_start + w32 (modl.mod_end + 2 ^ 32 - modl.mod_start)

-- What the set-up reads of the boot loader's information lies below 1 GB, and the kernel does not
-- reach behind the heap's end, from where on the guest's image is stashed.
pub record IsLowInput (end_symbol heap : ℕ) (mbi : MultibootInfo) (m : Mem) : Type 0 where
  pub kernel : phys end_symbol ≤ heap
  pub map : mbi.mmap_addr + mbi.mmap_length ≤ 2 ^ 30
  pub modules : mbi.mods_addr + 16 ≤ 2 ^ 30
  pub image : module_end (read_module m (virt mbi.mods_addr)) ≤ 2 ^ 30

pub AreLowEntries-phys : (es : E820Map) → AreLowEntries es → ArePhysEntries es
AreLowEntries-phys [] h = tt
AreLowEntries-phys (e ∷ rest) h = (omega (arith, h.0), AreLowEntries-phys rest h.1)

pub LiesInRam-low :
    (es : E820Map) (r len : ℕ) → AreLowEntries es → LiesInRam es r len → r + len < 2 ^ 30
LiesInRam-low [] r len h lies = absurd lies
LiesInRam-low (e ∷ rest) r len h (inl (is_ram, low, high)) = omega (arith, h.0)
LiesInRam-low (e ∷ rest) r len h (inr later) = LiesInRam-low rest r len h.1 later

max_pfn_step-low :
    (k : ℕ) (e : E820Entry) → e.addr + e.size < 2 ^ 30 → k ≤ 2 ^ 18 → max_pfn_step k e ≤ 2 ^ 18
unfolding max_pfn_step pfn_down
max_pfn_step-low k e low le = ground arith

max_pfn_loop-low :
    (es : E820Map) (k : ℕ) → AreLowEntries es → k ≤ 2 ^ 18 → max_pfn_loop k es ≤ 2 ^ 18
unfolding max_pfn_loop
max_pfn_loop-low [] k low le = le
max_pfn_loop-low (e ∷ rest) k low le =
    max_pfn_loop-low rest (max_pfn_step k e) low.1 (max_pfn_step-low k e low.0 le)

pub get_max_pfn-low : (es : E820Map) → AreLowEntries es → get_max_pfn es ≤ 2 ^ 18
unfolding get_max_pfn
get_max_pfn-low es low = max_pfn_loop-low es 0 low (omega arith)
