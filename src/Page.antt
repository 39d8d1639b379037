-- ===== src/Page.antt =====
-- include/page.h: page arithmetic on `unsigned long`, the entry flags, and the map between the
-- physical addresses and the kernel's virtual ones.
pub mod Laws
mod Tests
use tvmm.Base.{ℕ, ◌+◌, ◌-◌, ◌^◌, bit_and}
use tvmm.Base.Word.{w64, sub64, shl64, shr}

abbrev pub page_shift : ℕ
page_shift = 12

abbrev pub page_size : ℕ
page_size = 4096

-- `~ ( PAGE_SIZE - 1 )` is the `int` -4096, which is widened with its sign.
abbrev pub page_mask : ℕ
page_mask = 2 ^ 64 - 2 ^ 12

abbrev pub page_shift_2mb : ℕ
page_shift_2mb = 21

abbrev pub page_size_2mb : ℕ
page_size_2mb = 2 ^ 21

unfoldable pub pfn_up : ℕ → ℕ
pfn_up x = shr (w64 (x + (page_size - 1))) page_shift

unfoldable pub pfn_down : ℕ → ℕ
pfn_down x = shr x page_shift

unfoldable pub pfn_phys : ℕ → ℕ
pfn_phys x = shl64 x page_shift

unfoldable pub pfn_up_2mb : ℕ → ℕ
pfn_up_2mb x = shr (w64 (x + (page_size_2mb - 1))) page_shift_2mb

unfoldable pub pfn_down_2mb : ℕ → ℕ
pfn_down_2mb x = shr x page_shift_2mb

unfoldable pub page_up : ℕ → ℕ
page_up p = bit_and (w64 (p + (page_size - 1))) page_mask

unfoldable pub page_down : ℕ → ℕ
page_down p = bit_and p page_mask

-- PTTEF_PRESENT and the other flags of an entry.
abbrev pub present_flag : ℕ
present_flag = 2 ^ 0

abbrev pub rw_flag : ℕ
rw_flag = 2 ^ 1

abbrev pub us_flag : ℕ
us_flag = 2 ^ 2

abbrev pub page_size_flag : ℕ
page_size_flag = 2 ^ 7

abbrev pub vmm_offset : ℕ
vmm_offset = 0xFFFF_8300_0000_0000

abbrev pub phys : ℕ → ℕ
phys va = sub64 va vmm_offset

abbrev pub virt : ℕ → ℕ
virt pa = w64 (pa + vmm_offset)
