-- ===== src/Page/Laws.antt =====
-- Page rounding as arithmetic, below the top of the address space.
use tvmm.Base.{ℕ, ◌+◌, ◌*◌, ◌/◌, ◌^◌, ◌≤◌, ◌<◌, ◌≡◌, arith}
use native.Mathlib.Nat.{mod-eq_of_lt}
use tvmm.Base.Bits.Mask.{bit_and-high}
use tvmm.Page.{page_up, page_down, pfn_up, pfn_down, phys, virt}

pub page_down_lem : (p : ℕ) → p < 2 ^ 64 → page_down p ≡ p / 4096 * 4096
unfolding page_down
page_down_lem p h = bit_and-high 12 64 p (omega arith) h

pub page_up_lem : (p : ℕ) → p + 4095 < 2 ^ 64 → page_up p ≡ (p + 4095) / 4096 * 4096
unfolding page_up
page_up_lem p h = rw (mod-eq_of_lt h) (bit_and-high 12 64 (p + 4095) (omega arith) h)

-- Rounding up gives the least multiple of the page size that is not below the address, and
-- rounding down the greatest that is not above it; frame numbers round the same way.
pub page_rounding :
    (p : ℕ)
    → p + 4095 < 2 ^ 64
    → (page_up p ≡ pfn_up p * 4096)
      × (page_down p ≡ pfn_down p * 4096)
      × (p ≤ page_up p)
      × (page_up p < p + 4096)
      × (page_down p ≤ p)
      × (p < page_down p + 4096)
unfolding pfn_up pfn_down
page_rounding p h = omega (arith, page_up_lem p h, page_down_lem p (omega arith))

-- The kernel's two address maps undo one another.
pub phys-virt : (a : ℕ) → a < 2 ^ 64 → phys (virt a) ≡ a
phys-virt a h = omega arith
