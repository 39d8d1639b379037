-- ===== src/E820/Region.antt =====
-- Which pages the memory map describes.
use tvmm.Base.{ℕ, ◌+◌, ◌*◌, ◌^◌, ◌≤◌, Bool, false, ◌&&◌, ◌||◌, leb, ◌==◌, [], ◌∷◌}
use tvmm.E820.{E820Entry, E820Map, ram}

-- Physical addresses have at most 52 bits.
abbrev pub phys_limit : ℕ
phys_limit = 2 ^ 52

-- Whether page `p` lies whole between two addresses.
abbrev pub within_addrs : ℕ → ℕ → ℕ → Bool
within_addrs s e p = leb s (p * 4096) && leb (p * 4096 + 4096) e

-- The entry ends at a physical address.
abbrev pub IsPhysEntry : E820Entry → Type 0
IsPhysEntry p = p.addr + p.size ≤ phys_limit

abbrev pub ArePhysEntries : E820Map → Type 0
ArePhysEntries [] = Unit {0}
ArePhysEntries (p ∷ rest) = IsPhysEntry p × ArePhysEntries rest

-- Whether the page lies whole in one RAM entry.
abbrev pub in_ram : E820Map → ℕ → Bool
in_ram [] p = false
in_ram (e ∷ rest) p = (e.type == ram && within_addrs e.addr (e.addr + e.size) p) || in_ram rest p
